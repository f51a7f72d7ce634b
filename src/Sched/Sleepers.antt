-- ===== src/Sched/Sleepers.antt =====
-- kernel/process.c: the list of sleeping threads stays in the order of the deadlines, and `wake_sleepers` wakes those
-- whose deadline has passed.
pub mod Waking
use pro_os.Prelude.{
  ℕ, zero, suc, ◌+◌, ◌≤◌, ◌<◌, ◌≡◌, ◌≢◌, refl, ap, sym, subst, ◌∙◌, Bool, true, false, not, ◌||◌,
  ◌⊎◌, inl, inr, Option, none, some, List, [], ◌∷◌, ◌++◌, arith, ltb, leb, ◌==◌, if◌then◌else◌,
  length, length-set, Bool-cases,
}
use pro_os.Prelude.Arrays.{All}
use pro_os.Sched.{
  clamp_priority, Sched, Thread, State, ready, thread, update, is_at, boost_priority,
}
use pro_os.Sched.Ready.{holds, unlink, queue, put_queue, mark, enqueue_ready}
use pro_os.Sched.Sleep.{insert_by, insert_sleep, make_ready, wake_from, wake_sleepers}
use pro_os.Sched.Queues.{thread-update}
use pro_os.Sched.Queues.Counts.{one_if, occurrences, occurrences-unlink, occurrences-holds}
use pro_os.Sched.Queues.Moves.{itself_test}
use pro_os.Sched.Queues.Wakes.{length-enqueue_ready, length-make_ready}

abbrev pub due_at : Sched → ℕ → ℕ
due_at s i = (thread s i).wake_deadline

abbrev pub IsSorted : Sched → List ℕ → Type 0
IsSorted s [] = Unit
IsSorted s (i ∷ is) = All (λ j. due_at s i ≤ due_at s j) is × IsSorted s is

module _ (P : ℕ → Type 0) where
  All-unlink : (i : ℕ) (l : List ℕ) → All P l → All P (unlink i l)
  unfolding unlink
  All-unlink i [] a = a
  All-unlink i (j ∷ l) a = elim (Bool-cases (j == i)) [
    | inl e ↦ rw e a.1
    | inr d ↦ rw d (a.0, All-unlink i l a.1)
  ]

  All-insert_by : (s : Sched) (i : ℕ) (l : List ℕ) → P i → All P l → All P (insert_by s i l)
  unfolding insert_by
  All-insert_by s i [] p a = (p, tt)
  All-insert_by s i (j ∷ l) p a = elim (Bool-cases (ltb (due_at s i) (due_at s j))) [
    | inl e ↦ rw e (p, a)
    | inr d ↦ rw d (a.0, All-insert_by s i l p a.1)
  ]

unlink-IsSorted : (s : Sched) (i : ℕ) (l : List ℕ) → IsSorted s l → IsSorted s (unlink i l)
unfolding unlink
unlink-IsSorted s i [] o = o
unlink-IsSorted s i (j ∷ l) o = elim (Bool-cases (j == i)) [
  | inl e ↦ rw e o.1
  | inr d ↦ rw d (All-unlink (λ n. due_at s j ≤ due_at s n) i l o.0, unlink-IsSorted s i l o.1)
]

pub All_le :
    (s : Sched) (m n : ℕ) (l : List ℕ)
    → m ≤ n
    → All (λ j. n ≤ due_at s j) l
    → All (λ j. m ≤ due_at s j) l
All_le s m n [] h a = a
All_le s m n (j ∷ l) h a = (omega (arith, h, a.0), All_le s m n l h a.1)

insert_by-IsSorted : (s : Sched) (i : ℕ) (l : List ℕ) → IsSorted s l → IsSorted s (insert_by s i l)
unfolding insert_by
insert_by-IsSorted s i [] o = (tt, tt)
insert_by-IsSorted s i (j ∷ l) o = elim (Bool-cases (ltb (due_at s i) (due_at s j))) [
  | inl e ↦
      let h : due_at s i ≤ due_at s j = ground arith in
      rw e ((h, All_le s (due_at s i) (due_at s j) l h o.0), o)
  | inr d ↦
      let h : due_at s j ≤ due_at s i = ground arith in
      rw d (All-insert_by (λ n. due_at s j ≤ due_at s n) s i l h o.0, insert_by-IsSorted s i l o.1)
]

occurrences-insert_by :
    (s : Sched) (i n : ℕ) (l : List ℕ)
    → occurrences n (insert_by s i l) ≡ one_if (i == n) + occurrences n l
unfolding insert_by occurrences
occurrences-insert_by s i n [] = refl
occurrences-insert_by s i n (j ∷ l) = elim (Bool-cases (ltb (due_at s i) (due_at s j))) [
  | inl e ↦ rw e refl
  | inr d ↦ rw d (omega (arith, occurrences-insert_by s i n l))
]

unlink_absent : (i : ℕ) (l : List ℕ) → holds i l ≡ false → unlink i l ≡ l
unfolding unlink holds
unlink_absent i [] h = refl
unlink_absent i (j ∷ l) h = elim (Bool-cases (j == i)) [
  | inl e ↦ absurd (ground arith)
  | inr d ↦ rw d (ap (◌∷◌ j) (unlink_absent i l (ground arith)))
]

-- `scheduler_insert_sleep` keeps the list in the order of the deadlines. If the thread was in it at most once, it
-- is in it once, and all others are as often as before.
pub insert_sleep_lem :
    (s : Sched) (i : ℕ)
    → IsSorted s s.sleepers
    → occurrences i s.sleepers ≤ 1
    → IsSorted (insert_sleep s i) (insert_sleep s i).sleepers
      × ((n : ℕ)
          → occurrences n (insert_sleep s i).sleepers
            ≡ (if i == n then 1 else occurrences n s.sleepers))
unfolding insert_sleep
insert_sleep_lem s i o once = (
  insert_by-IsSorted s i (unlink i s.sleepers) (unlink-IsSorted s i s.sleepers o),
  λ n. occurrences-insert_by s i n (unlink i s.sleepers) ∙ elim (Bool-cases (holds i s.sleepers)) [
    | inl h ↦ elim (Bool-cases (i == n)) [
      | inl e ↦
          let same : i ≡ n = ground arith in
          rw e (
            omega (
              arith,
              occurrences-unlink i i s.sleepers h,
              ap (λ x. occurrences x (unlink i s.sleepers)) same,
              ap one_if (itself_test i),
            ))
      | inr d ↦ rw d (ground (arith, occurrences-unlink n i s.sleepers h))
    ]
    | inr h ↦ elim (Bool-cases (i == n)) [
      | inl e ↦
          let same : i ≡ n = ground arith in
          rw (unlink_absent i s.sleepers h, e)
            (omega
              (arith, occurrences-holds i s.sleepers h, ap (λ x. occurrences x s.sleepers) same))
      | inr d ↦ rw (unlink_absent i s.sleepers h, d) (omega arith)
    ]
  ],
)
