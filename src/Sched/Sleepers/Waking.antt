-- ===== src/Sched/Sleepers/Waking.antt =====
-- kernel/process.c: `wake_sleepers` wakes the threads whose deadline has passed, and no others.
use pro_os.Prelude.{
  ℕ, suc, ◌≤◌, ◌<◌, ◌≡◌, refl, ap, sym, subst, ◌∙◌, true, false, ◌||◌, ◌⊎◌, inl, inr, List, [], ◌∷◌,
  arith, leb, ◌==◌, if◌then◌else◌, length, length-set, Bool-cases,
}
use pro_os.Prelude.Arrays.{All}
use pro_os.Sched.{Sched, ready, thread, update, is_at, boost_priority}
use pro_os.Sched.Ready.{holds, put_queue, enqueue_ready}
use pro_os.Sched.Sleep.{make_ready, wake_from, wake_sleepers}
use pro_os.Sched.Queues.{IsSched, thread-update}
use pro_os.Sched.Queues.Counts.{total}
use pro_os.Sched.Queues.Moves.{itself_test}
use pro_os.Sched.Queues.Wakes.{length-make_ready, wake_sleepers-IsSched}
use pro_os.Sched.Sleepers.{due_at, IsSorted, All_le}

-- What `enqueue_ready` leaves as it is, and what it marks
enqueue_keeps :
    (s : Sched) (i j : ℕ)
    → i < length s.threads
    → (i == j) ≡ false
    → thread (enqueue_ready s i) j ≡ thread s j
unfolding enqueue_ready put_queue
enqueue_keeps s i j h d = elim (Bool-cases (is_at s.idle i || (thread s i).on_run_queue)) [
  | inl skip ↦ rw skip refl
  | inr go ↦ rw go (thread-update s i j (record (thread s i) { on_run_queue = true }) h ∙ rw d refl)
]

pub enqueue_itself :
    (s : Sched) (i : ℕ)
    → i < length s.threads
    → ((thread (enqueue_ready s i) i).state ≡ (thread s i).state)
      × (is_at s.idle i ≡ false → (thread (enqueue_ready s i) i).on_run_queue ≡ true)
unfolding enqueue_ready put_queue
enqueue_itself s i h = elim (Bool-cases (is_at s.idle i || (thread s i).on_run_queue)) [
  | inl skip ↦ rw skip (refl, λ n. ground arith)
  | inr go ↦
      let at = thread-update s i i (record (thread s i) { on_run_queue = true }) h in
      rw go (
        ap (λ x. x.state) at ∙ rw (itself_test i) refl,
        λ n. ap (λ x. x.on_run_queue) at ∙ rw (itself_test i) refl,
      )
]

pub enqueue_rest :
    (s : Sched) (i : ℕ)
    → ((enqueue_ready s i).idle ≡ s.idle)
      × ((enqueue_ready s i).current ≡ s.current)
      × ((enqueue_ready s i).active ≡ s.active)
unfolding enqueue_ready put_queue
enqueue_rest s i = elim (Bool-cases (is_at s.idle i || (thread s i).on_run_queue)) [
  | inl skip ↦ rw skip (refl, refl, refl)
  | inr go ↦ rw go (refl, refl, refl)
]

-- One turn of the loop of `wake_sleepers`
abbrev pub woken : Sched → ℕ → List ℕ → Sched
woken s i is =
    make_ready (update (record s { sleepers = is }) i (record (thread s i) { wake_deadline = 0 })) i

module _ (s : Sched) (i : ℕ) (is : List ℕ) (h : i < length s.threads) where
  abbrev first : Sched
  first = update (record s { sleepers = is }) i (record (thread s i) { wake_deadline = 0 })

  abbrev second : Sched
  second = update first i (record (boost_priority (thread first i)) { state = ready })

  in_first : i < length first.threads
  in_first = omega (arith, h, length-set s.threads i (record (thread s i) { wake_deadline = 0 }))

  in_second : i < length second.threads
  in_second = omega (
    arith,
    in_first,
    length-set first.threads i (record (boost_priority (thread first i)) { state = ready }),
  )

  pub woken_others : (j : ℕ) → (i == j) ≡ false → thread (woken s i is) j ≡ thread s j
  unfolding make_ready
  woken_others j d =
      enqueue_keeps second i j in_second d
      ∙ thread-update first i j (record (boost_priority (thread first i)) { state = ready })
          in_first
      ∙ rw d (
          thread-update (record s { sleepers = is }) i j (record (thread s i) { wake_deadline = 0 })
            h
          ∙ rw d refl)

  woken_state : (thread (woken s i is) i).state ≡ ready
  unfolding make_ready
  woken_state =
      (enqueue_itself second i in_second).0
      ∙ ap (λ x. x.state)
          (thread-update first i i (record (boost_priority (thread first i)) { state = ready })
            in_first)
      ∙ rw (itself_test i) refl

  woken_on : is_at s.idle i ≡ false → (thread (woken s i is) i).on_run_queue ≡ true
  unfolding make_ready
  woken_on n = (enqueue_itself second i in_second).1 n

  pub woken_idle : (woken s i is).idle ≡ s.idle
  unfolding make_ready
  woken_idle = (enqueue_rest second i).0

  pub woken_rest : ((woken s i is).current ≡ s.current) × ((woken s i is).active ≡ s.active)
  unfolding make_ready
  woken_rest = ((enqueue_rest second i).1, (enqueue_rest second i).2)

  pub length-woken : length (woken s i is).threads ≡ length s.threads
  length-woken =
      length-make_ready first i ∙ length-set s.threads i (record (thread s i) { wake_deadline = 0 })

-- The threads that sleep on
unfoldable pub late : ℕ → Sched → List ℕ → List ℕ
late now s [] = []
late now s (i ∷ is) = let rest = late now s is in if leb (due_at s i) now then rest else i ∷ rest

-- No thread twice
abbrev pub Distinct : List ℕ → Type 0
Distinct [] = Unit
Distinct (i ∷ is) = (holds i is ≡ false) × Distinct is

-- How a pass of `wake_sleepers` over a list ends
pub record Wakes (now : ℕ) (s : Sched) (l : List ℕ) (w : Sched) : Type 0 where
  pub rest : w.sleepers ≡ late now s l
  pub woken_up :
      (i : ℕ)
      → holds i l ≡ true
      → due_at s i ≤ now
      → ((thread w i).state ≡ ready) × (is_at s.idle i ≡ false → (thread w i).on_run_queue ≡ true)
  pub others : (i : ℕ) → (holds i l ≡ false) ⊎ (now < due_at s i) → thread w i ≡ thread s i

All-holds : (P : ℕ → Type 0) (j : ℕ) (l : List ℕ) → All P l → holds j l ≡ true → P j
unfolding holds
All-holds P j [] a h = ground arith
All-holds P j (i ∷ l) a h = elim (Bool-cases (i == j)) [
  | inl e ↦ let same : i ≡ j = ground arith in subst P same a.0
  | inr d ↦ All-holds P j l a.1 (ground arith)
]

All_from : (P : ℕ → Type 0) (l : List ℕ) → ((j : ℕ) → holds j l ≡ true → P j) → All P l
unfolding holds
All_from P [] f = tt
All_from P (i ∷ l) f = (f i (ground arith), All_from P l (λ j h. f j (ground arith)))

late_all : (now : ℕ) (s : Sched) (l : List ℕ) → All (λ j. now < due_at s j) l → late now s l ≡ l
unfolding late
late_all now s [] a = refl
late_all now s (i ∷ l) a =
    let n : leb (due_at s i) now ≡ false = ground (arith, a.0) in
    rw n (ap (◌∷◌ i) (late_all now s l a.1))

-- Two states with the same deadlines on a list
module _ (s t : Sched) where
  abbrev Same : List ℕ → Type 0
  Same l = All (λ j. due_at t j ≡ due_at s j) l

  late-Same : (now : ℕ) (l : List ℕ) → Same l → late now t l ≡ late now s l
  unfolding late
  late-Same now [] a = refl
  late-Same now (i ∷ l) a = rw (a.0, late-Same now l a.1) refl

  All-Same :
      (n m : ℕ) (l : List ℕ)
      → n ≡ m
      → Same l
      → All (λ j. m ≤ due_at s j) l
      → All (λ j. n ≤ due_at t j) l
  All-Same n m [] e a h = tt
  All-Same n m (i ∷ l) e a h = (omega (arith, e, a.0, h.0), All-Same n m l e a.1 h.1)

  IsSorted-Same : (l : List ℕ) → Same l → IsSorted s l → IsSorted t l
  IsSorted-Same [] a o = tt
  IsSorted-Same (i ∷ l) a o =
      (All-Same (due_at t i) (due_at s i) l a.0 a.1 o.0, IsSorted-Same l a.1 o.1)

wake_from-Wakes :
    (now : ℕ) (l : List ℕ) (s : Sched)
    → IsSorted s l
    → Distinct l
    → All (λ i. i < length s.threads) l
    → Wakes now s l (wake_from now l s)
unfolding wake_from late holds
wake_from-Wakes now [] s o d h = record {
  rest = refl;
  woken_up = λ i x. absurd (ground arith);
  others = λ i x. refl;
}
wake_from-Wakes now (i ∷ is) s o d h = elim (Bool-cases (leb (due_at s i) now)) [
  | inr early ↦
      let before : now < due_at s i = ground arith in
      let all : All (λ j. now < due_at s j) (i ∷ is) =
        (before, All_le s (suc now) (due_at s i) is (omega (arith, before)) o.0) in
      rw (early, wake_from)
        (record {
          rest = sym (late_all now s (i ∷ is) all);
          woken_up = λ j x y.
              absurd (omega (arith, y, All-holds (λ j. now < due_at s j) j (i ∷ is) all x));
          others = λ j x. refl;
        })
  | inl due ↦
      let t : Sched = woken s i is in
      let same : ((j : ℕ) → (i == j) ≡ false → thread t j ≡ thread s j) = woken_others s i is h.0 in
      let apart : ((j : ℕ) → holds j is ≡ true → (i == j) ≡ false) = λ j x.
        elim (Bool-cases (i == j)) [
          | inl e ↦
              let here : i ≡ j = ground arith in absurd (ground (arith, ap (λ n. holds n is) here))
          | inr n ↦ n
        ] in
      let eq : Same s t is =
        All_from (λ j. due_at t j ≡ due_at s j) is
          (λ j x. ap (λ y. y.wake_deadline) (same j (apart j x))) in
      let room : All (λ j. j < length t.threads) is =
        All_from (λ j. j < length t.threads) is
          (λ j x.
            omega
              (arith, All-holds (λ n. n < length s.threads) j is h.1 x, length-woken s i is h.0)) in
      let w = wake_from-Wakes now is t (IsSorted-Same s t is eq o.1) d.1 room in
      rw (due, wake_from)
        (record {
          rest =
              w.rest
              ∙ late-Same s t now is eq
              ∙ sym (ap (λ b. if b then late now s is else i ∷ late now s is) due);
          woken_up = λ j x y. elim (Bool-cases (i == j)) [
            | inl e ↦
                let here : i ≡ j = ground arith in
                let back = w.others i (inl d.0) in
                subst
                  (λ n.
                    ((thread (wake_from now is t) n).state ≡ ready)
                    × (is_at s.idle n ≡ false
                        → (thread (wake_from now is t) n).on_run_queue ≡ true))
                  here
                  (
                    ap (λ y. y.state) back ∙ woken_state s i is h.0,
                    λ n. ap (λ y. y.on_run_queue) back ∙ woken_on s i is h.0 n,
                  )
            | inr n ↦
                let p =
                  w.woken_up j (ground arith)
                    (omega (arith, y, ap (λ z. z.wake_deadline) (same j n))) in
                (p.0, λ m. p.1 (ap (λ o. is_at o j) (woken_idle s i is h.0) ∙ m))
          ];
          others = λ j x. elim (Bool-cases (i == j)) [
            | inl e ↦
                let here : i ≡ j = ground arith in
                absurd
                  (elim x [ inl f ↦ ground arith | inr l ↦ ground (arith, ap (due_at s) here) ])
            | inr n ↦
                w.others j (elim x [
                  | inl f ↦ inl (ground arith)
                  | inr l ↦ inr (omega (arith, l, ap (λ z. z.wake_deadline) (same j n)))
                ])
                ∙ same j n
          ];
        })
]

-- If the run queues, their bits and the threads' marks agree, and the list of sleeping threads is in the order of
-- the deadlines with no thread twice, `wake_sleepers` leaves in the list those whose deadline is still to come; each of
-- the others is READY, marked, and in the run queues exactly once, unless it is the idle thread; no thread else is changed.
-- The queues, bits and marks agree afterwards.
pub wake_sleepers_lem :
    (now : ℕ) (s : Sched)
    → IsSched s
    → IsSorted s s.sleepers
    → Distinct s.sleepers
    → let w = wake_sleepers now s in
      IsSched w
      × Wakes now s s.sleepers w
      × ((i : ℕ)
          → holds i s.sleepers ≡ true
          → due_at s i ≤ now
          → is_at s.idle i ≡ false
          → total i w.queues ≡ 1)
wake_sleepers_lem now s k o d =
    let good : IsSched (wake_sleepers now s) = wake_sleepers-IsSched now s k in
    let wakes =
      wake_from-Wakes now s.sleepers s o d
        (All_from (λ i. i < length s.threads) s.sleepers k.sleepers_in) in
    (
      good,
      wakes,
      λ i h due n. good.marks i ∙ ap (λ b. if b then 1 else 0) ((wakes.woken_up i h due).1 n),
    )
