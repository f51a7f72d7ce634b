-- ===== src/Sched/Queues/Choice.antt =====
-- kernel/process.c: `scheduler_select_next` takes the thread with the earliest deadline, else the fair thread
-- that ran least, else the first of the highest queue.
use pro_os.Prelude.{
  ℕ, ◌+◌, ◌<◌, ◌≡◌, refl, ap, subst, ◌∙◌, Bool, true, false, not, ◌⊎◌, inl, inr, Option, none, some,
  List, [], ◌∷◌, ◌++◌, arith, ◌==◌, get_or, Option-cases,
}
use pro_os.Prelude.Arrays.{All}
use pro_os.Sched.{Sched, Thread, priority_levels}
use pro_os.Sched.Ready.{
  is_empty, holds, queue, put_queue, mark, remove_from_ready, dequeue_from, priorities, scan_all,
  pick, has_deadline, is_fair_thread, select_next,
}
use pro_os.Sched.Select.{Best, joined, scan_all-Best}
use pro_os.Sched.Queues.{IsSched}
use pro_os.Sched.Queues.Counts.{one_if, total, occurrences, occurrences-append, holds-occurrences}
use pro_os.Sched.Queues.Moves.{Taken, take-Taken, remove_from_ready-Taken}

-- The state behind a choice
abbrev pub Chosen : Option ℕ × Sched → Type 0
Chosen (none, w) = IsSched w
Chosen (some i, w) = Taken w i

List-cases : (q : List ℕ) → (q ≡ []) ⊎ ((i : ℕ) × (is : List ℕ) × (q ≡ i ∷ is))
List-cases [] = inl refl
List-cases (i ∷ is) = inr (i, is, refl)

-- The first thread of the first queue that is not empty
pub data Dequeues (s : Sched) (ps : List ℕ) : Option ℕ × Sched → Type 0 where
  all_empty : All (λ p. queue s p ≡ []) ps → Dequeues s ps (none, s)
  first_of :
      (front rest : List ℕ) (p i : ℕ) (is : List ℕ)
      → ps ≡ front ++ p ∷ rest
      → All (λ n. queue s n ≡ []) front
      → queue s p ≡ i ∷ is
      → Dequeues s ps (some i, mark false (put_queue s p is) i)

Dequeues-cons :
    (s : Sched) (p : ℕ) (ps : List ℕ) (r : Option ℕ × Sched)
    → queue s p ≡ []
    → Dequeues s ps r
    → Dequeues s (p ∷ ps) r
Dequeues-cons s p ps _ e (all_empty a) = all_empty (e, a)
Dequeues-cons s p ps _ e (first_of front rest n i is split a q) =
    first_of (p ∷ front) rest n i is (ap (◌∷◌ p) split) (e, a) q

tail_count :
    (s : Sched) (p i : ℕ) (is : List ℕ)
    → queue s p ≡ i ∷ is
    → (j : ℕ) → occurrences j is + one_if (i == j) ≡ occurrences j (queue s p)
unfolding occurrences
tail_count s p i is e j = rw e (omega arith)

pub dequeue_from_lem :
    (s : Sched) (ps : List ℕ)
    → IsSched s
    → All (λ p. p < priority_levels) ps
    → Chosen (dequeue_from ps s) × Dequeues s ps (dequeue_from ps s)
unfolding dequeue_from
dequeue_from_lem s [] k h = (k, all_empty tt)
dequeue_from_lem s (p ∷ ps) k h = elim (List-cases (queue s p)) [
  | inl e ↦
      let bit : get_or s.ready_bitmap p false ≡ false = k.bits p ∙ ap (λ q. not (is_empty q)) e in
      let rest = dequeue_from_lem s ps k h.1 in
      rw (bit, dequeue_from) (rest.0, Dequeues-cons s p ps (dequeue_from ps s) e rest.1)
  | inr (i, is, e) ↦
      let bit : get_or s.ready_bitmap p false ≡ true = k.bits p ∙ ap (λ q. not (is_empty q)) e in
      rw (bit, e, dequeue_from)
        (take-Taken s p i is k h.0 (tail_count s p i is e), first_of [] ps p i is refl tt e)
]

occurrences-joined : (i : ℕ) (qs : List (List ℕ)) → occurrences i (joined qs) ≡ total i qs
unfolding joined total occurrences
occurrences-joined i [] = refl
occurrences-joined i (q ∷ qs) =
    occurrences-append i q (joined qs) ∙ ap (◌+◌ (occurrences i q)) (occurrences-joined i qs)

-- What `scheduler_select_next` chooses
pub data Selects (s : Sched) : Option ℕ × Sched → Type 0 where
  by_deadline :
      {i k : ℕ}
      → Best has_deadline
          (λ t. t.sched_deadline)
          s
          (λ j. holds j (joined s.queues) ≡ true)
          (some (i, k))
      → Selects s (some i, remove_from_ready s i)
  by_vruntime :
      {i k : ℕ}
      → Best has_deadline (λ t. t.sched_deadline) s (λ j. holds j (joined s.queues) ≡ true) none
      → Best is_fair_thread
          (λ t. t.vruntime)
          s
          (λ j. holds j (joined s.queues) ≡ true)
          (some (i, k))
      → Selects s (some i, remove_from_ready s i)
  by_priority :
      {r : Option ℕ × Sched}
      → Best has_deadline (λ t. t.sched_deadline) s (λ j. holds j (joined s.queues) ≡ true) none
      → Best is_fair_thread (λ t. t.vruntime) s (λ j. holds j (joined s.queues) ≡ true) none
      → Dequeues s priorities r
      → Selects s r

picked-Taken :
    (eligible : Thread → Bool) (key : Thread → ℕ) (s : Sched) (i k : ℕ)
    → IsSched s
    → Best eligible key s (λ j. holds j (joined s.queues) ≡ true) (some (i, k))
    → Taken (remove_from_ready s i) i
picked-Taken eligible key s i k good b = remove_from_ready-Taken s i good (
    ground (
      arith,
      holds-occurrences i (joined s.queues) b.0,
      occurrences-joined i s.queues,
      good.marks i,
    ))

-- A pick function, by the result of its loops
module _ (eligible : Thread → Bool) (key : Thread → ℕ) (s : Sched) where
  abbrev Picked : Option (ℕ × ℕ) → Type 0
  Picked = Best eligible key s (λ j. holds j (joined s.queues) ≡ true)

  pick_cases :
      ((pick eligible key s ≡ (none, s)) × Picked none)
      ⊎ ((i : ℕ) × (k : ℕ) × (pick eligible key s ≡ (some i, remove_from_ready s i))
          × Picked (some (i, k)))
  unfolding pick
  pick_cases = elim (Option-cases (scan_all eligible key s none s.queues)) [
    | inl e ↦ inl (rw (e, pick) refl, subst Picked e (scan_all-Best eligible key s s.queues))
    | inr ((i, k), e) ↦
        inr (i, k, rw (e, pick) refl, subst Picked e (scan_all-Best eligible key s s.queues))
  ]

-- In a state whose queues, bits and marks agree, `scheduler_select_next` chooses a queued thread of the deadline
-- policy with the earliest deadline; if there is none, a fair thread with the least `vruntime`; if there is
-- none, the first thread of the first queue that is not empty; and no thread only if all are empty. The
-- queues, bits and marks still agree, and the chosen thread is in no queue.
pub select_next_lem : (s : Sched) → IsSched s → Chosen (select_next s) × Selects s (select_next s)
unfolding select_next
select_next_lem s k = elim (pick_cases has_deadline (λ t. t.sched_deadline) s) [
  | inr (i, d, e, b) ↦
      rw (e, select_next)
        (picked-Taken has_deadline (λ t. t.sched_deadline) s i d k b, by_deadline b)
  | inl (e, b) ↦ elim (pick_cases is_fair_thread (λ t. t.vruntime) s) [
    | inr (i, v, f, c) ↦
        rw (e, f, select_next)
          (picked-Taken is_fair_thread (λ t. t.vruntime) s i v k c, by_vruntime b c)
    | inl (f, c) ↦
        let r =
          dequeue_from_lem s priorities k
            (omega arith, (omega arith, (omega arith, (omega arith, tt)))) in
        rw (e, f, select_next) (r.0, by_priority b c r.1)
  ]
]
