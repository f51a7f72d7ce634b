-- ===== src/Sched/Ready.antt =====
-- kernel/process.c: the run queues, and the choice of the next thread.
use pro_os.Prelude.{
  ℕ, Bool, true, false, not, ◌&&◌, ◌||◌, Option, none, some, List, [], ◌∷◌, ◌++◌, ltb, ◌==◌,
  if◌then◌else◌, get_or, set,
}
use pro_os.Prelude.Arrays.{find_index}
use pro_os.Sched.{Sched, Thread, is_fair, thread, update, is_at, clamp_priority}

-- Whether an index is in a linked list, and the list without its first occurrence
unfoldable pub holds : ℕ → List ℕ → Bool
holds i [] = false
holds i (j ∷ js) = (j == i) || holds i js

unfoldable pub unlink : ℕ → List ℕ → List ℕ
unlink i [] = []
unlink i (j ∷ js) = let rest = unlink i js in if j == i then js else j ∷ rest

abbrev pub is_empty : List ℕ → Bool
is_empty [] = true
is_empty (i ∷ is) = false

abbrev pub queue : Sched → ℕ → List ℕ
queue s p = get_or s.queues p []

-- A queue is replaced, and its bit in `ready_bitmap` with it.
unfoldable pub put_queue : Sched → ℕ → List ℕ → Sched
put_queue s p q = record s {
  queues = set s.queues p q;
  ready_bitmap = set s.ready_bitmap p (not (is_empty q));
}

abbrev pub mark : Bool → Sched → ℕ → Sched
mark b s i = update s i (record (thread s i) { on_run_queue = b })

-- `scheduler_enqueue_ready`
unfoldable pub enqueue_ready : Sched → ℕ → Sched
enqueue_ready s i =
    let p = clamp_priority (thread s i).dynamic_priority in
    if is_at s.idle i || (thread s i).on_run_queue
    then s
    else mark true (put_queue s p (queue s p ++ i ∷ [])) i

-- `scheduler_remove_from_ready`: the first queue with the thread loses it.
unfoldable pub remove_from_ready : Sched → ℕ → Sched
remove_from_ready s i = elim (find_index (holds i) s.queues) [
  | none ↦ s
  | some p ↦ mark false (put_queue s p (unlink i (queue s p))) i
]

-- `scheduler_dequeue_next`, over the priorities that are left
unfoldable pub dequeue_from : List ℕ → Sched → Option ℕ × Sched
dequeue_from [] s = (none, s)
dequeue_from (p ∷ ps) s = elim (get_or s.ready_bitmap p false) [
  | false ↦ dequeue_from ps s
  | true ↦ elim (queue s p) [
    | [] ↦ dequeue_from ps (put_queue s p [])
    | i ∷ is ↦ (some i, mark false (put_queue s p is) i)
  ]
]

abbrev pub priorities : List ℕ
priorities = 0 ∷ 1 ∷ 2 ∷ 3 ∷ []

abbrev pub dequeue_next : Sched → Option ℕ × Sched
dequeue_next = dequeue_from priorities

-- The loops of `scheduler_pick_deadline` and `scheduler_pick_fair`: the best thread so far, with its key
module _ (eligible : Thread → Bool) (key : Thread → ℕ) (s : Sched) where
  unfoldable pub better : Option (ℕ × ℕ) → ℕ → Bool
  better none k = true
  better (some (i, best_key)) k = ltb k best_key

  unfoldable pub scan : Option (ℕ × ℕ) → List ℕ → Option (ℕ × ℕ)
  scan best [] = best
  scan best (i ∷ is) =
      let k = key (thread s i) in
      scan (if eligible (thread s i) && better best k then some (i, k) else best) is

  unfoldable pub scan_all : Option (ℕ × ℕ) → List (List ℕ) → Option (ℕ × ℕ)
  scan_all best [] = best
  scan_all best (q ∷ qs) = scan_all (scan best q) qs

  unfoldable pub pick : Option ℕ × Sched
  pick = elim (scan_all none s.queues) [
    | none ↦ (none, s)
    | some (i, k) ↦ (some i, remove_from_ready s i)
  ]

abbrev pub has_deadline : Thread → Bool
has_deadline t = not (is_fair t.sched_policy) && not (t.sched_deadline == 0)

abbrev pub is_fair_thread : Thread → Bool
is_fair_thread t = is_fair t.sched_policy

-- `scheduler_pick_deadline` and `scheduler_pick_fair`
abbrev pub pick_deadline : Sched → Option ℕ × Sched
pick_deadline s = pick has_deadline (λ t. t.sched_deadline) s

abbrev pub pick_fair : Sched → Option ℕ × Sched
pick_fair s = pick is_fair_thread (λ t. t.vruntime) s

-- A choice, and the next one where it is NULL
abbrev pub or_else : Option ℕ × Sched → (Sched → Option ℕ × Sched) → Option ℕ × Sched
or_else (some i, s) f = (some i, s)
or_else (none, s) f = f s

-- `scheduler_select_next`
unfoldable pub select_next : Sched → Option ℕ × Sched
select_next s = or_else (or_else (pick_deadline s) pick_fair) dequeue_next
