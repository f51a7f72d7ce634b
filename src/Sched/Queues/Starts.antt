-- ===== src/Sched/Queues/Starts.antt =====
-- kernel/process.c: initialisation, new threads and new settings keep the run queues in order.
use pro_os.Prelude.{
  ℕ, zero, suc, ◌<◌, ◌≡◌, refl, ap, sym, ◌∙◌, true, false, not, ◌&&◌, ◌||◌, inl, inr, Option, none,
  some, List, [], ◌∷◌, arith, if◌then◌else◌, length, length-set, get_or, map, Bool-cases, replicate,
}
use pro_os.Prelude.Int.{ℤ, pos, ◌==ℤ◌, is_positive, failure}
use pro_os.Prelude.Arrays.{find_index, find_index-Found}
use pro_os.Ipc.Process.{Kind, kernel}
use pro_os.Sched.{
  Sched, Thread, State, unused, ready, running, waiting, zombie, thread, update, is_at, is_ready,
  is_zombie, is_unused, no_thread, Policy, fair, deadline, arm_timeslice, priority_max,
  stack_size_max, priority_levels,
}
use pro_os.Sched.Ready.{holds, is_empty}
use pro_os.Sched.Threads.{
  free_slot, acquire_pid, new_thread, create_thread, set_policy, target, set_scheduler, lookup,
  fresh, cleared, init,
}
use pro_os.Sched.Queues.{IsSched, thread-update, update-IsSched}
use pro_os.Sched.Queues.Counts.{total, occurrences}
use pro_os.Sched.Queues.Moves.{itself_test, enqueue_ready-IsSched}
use pro_os.Sched.Queues.Steps.{change-IsSched, with_thread-rule}

free_not_ready : (x : State) → (is_unused x || is_zombie x) ≡ true → is_ready x ≡ false
free_not_ready zombie e = refl
free_not_ready unused e = refl
free_not_ready ready e = absurd (ground arith)
free_not_ready running e = refl
free_not_ready waiting e = refl

set_policy_rest :
    (p : Policy) (weight deadline_ticks now : ℕ) (t : Thread)
    → ((set_policy p weight deadline_ticks now t).on_run_queue ≡ t.on_run_queue)
      × ((set_policy p weight deadline_ticks now t).state ≡ t.state)
unfolding set_policy
set_policy_rest fair weight deadline_ticks now t = (refl, refl)
set_policy_rest deadline weight deadline_ticks now t = (refl, refl)

at-some : (o : Option ℕ) (i : ℕ) → is_at o i ≡ true → o ≡ some i
at-some none i e = ground arith
at-some (some j) i e = ap some (ground arith)

target-lt :
    (s : Sched) (pid : ℤ) (i : ℕ) → IsSched s → is_at (target s pid) i ≡ true → i < length s.threads
unfolding target lookup
target-lt s pid i k e = elim (Bool-cases (is_positive pid)) [
  | inl p ↦
      let named =
        ap
          (λ b.
            if b
            then find_index (λ t. (t.pid ==ℤ pid) && not (is_unused t.state)) s.threads
            else none)
          (sym p) in
      let f =
        named
        ∙ ap (λ b. if b then lookup s pid else s.current) (sym p)
        ∙ at-some (target s pid) i e in
      (find_index-Found (λ t. (t.pid ==ℤ pid) && not (is_unused t.state)) s.threads i f).in_table
  | inr n ↦
      k.current_in i
        (ap (λ o. is_at o i) (sym (ap (λ b. if b then lookup s pid else s.current) n)) ∙ e)
]

pub set_scheduler-IsSched :
    (s : Sched) (pid : ℤ) (policy : Option Policy) (weight deadline_ticks now : ℕ)
    → IsSched s
    → IsSched (set_scheduler s pid policy weight deadline_ticks now).1
unfolding set_scheduler
set_scheduler-IsSched s pid none weight deadline_ticks now k = k
set_scheduler-IsSched s pid (some p) weight deadline_ticks now k =
    with_thread-rule (λ (r : ℤ × Sched). IsSched r.1) (target s pid) (failure, s) _ k
      (λ i e.
        let t : Thread = set_policy p weight deadline_ticks now (thread s i) in
        let r = set_policy_rest p weight deadline_ticks now (thread s i) in
        update-IsSched s i t k (target-lt s pid i k e) r.0
          (λ on. ap is_ready r.1 ∙ k.are_ready i (sym r.0 ∙ on)))

next_pid-IsSched : (s : Sched) (n : ℕ) → IsSched s → IsSched (record s { next_pid = n })
next_pid-IsSched s n k = record {
  room = k.room;
  bits_room = k.bits_room;
  bits = k.bits;
  marks = k.marks;
  are_ready = k.are_ready;
  idle_off = k.idle_off;
  idle_in = k.idle_in;
  current_in = k.current_in;
  sleepers_in = k.sleepers_in;
}

-- A free slot is in the table and not READY.
slot :
    (s : Sched) (i : ℕ)
    → is_at (free_slot s.threads) i ≡ true
    → (i < length s.threads) × (is_ready (thread s i).state ≡ false)
unfolding free_slot
slot s i e =
    let f =
      find_index-Found (λ t. is_unused t.state || is_zombie t.state) s.threads i
        (at-some (free_slot s.threads) i e) in
    (f.in_table, free_not_ready (thread s i).state (f.passes no_thread))

-- What a new thread starts with
started : ℕ → Kind → ℕ → ℤ → Thread
started stack_size kind priority pid = arm_timeslice (new_thread stack_size kind priority pid)

started_lem :
    (stack_size : ℕ) (kind : Kind) (priority : ℕ) (pid : ℤ)
    → ((started stack_size kind priority pid).on_run_queue ≡ false)
      × ((started stack_size kind priority pid).state ≡ ready)
unfolding started arm_timeslice new_thread no_thread
started_lem stack_size kind priority pid = (refl, refl)

pub create_thread-IsSched :
    (s : Sched) (stack_size : ℕ) (kind : Kind) (priority : ℕ)
    → IsSched s
    → IsSched (create_thread s stack_size kind priority false).1
unfolding create_thread acquire_pid started
create_thread-IsSched s stack_size kind priority k =
    with_thread-rule (λ (r : Option ℕ × Sched). IsSched r.1) (free_slot s.threads) (none, s) _ k
      (λ i e.
        let w : Sched = (acquire_pid s).1 in
        let t : Thread = started stack_size kind priority (acquire_pid s).0 in
        let l = started_lem stack_size kind priority (acquire_pid s).0 in
        let f = slot s i e in
        let kw : IsSched w = next_pid-IsSched s _ k in
        enqueue_ready-IsSched (update w i t) i (change-IsSched w i t kw f.0 f.1 l.0)
          (omega (arith, f.0, length-set s.threads i t))
          (ap (λ x. is_ready x.state) (thread-update w i i t f.0)
            ∙ rw (itself_test i) (ap is_ready l.1)))

fresh_off : (ts : List Thread) (i : ℕ) → (get_or (map fresh ts) i no_thread).on_run_queue ≡ false
unfolding no_thread fresh
fresh_off [] i = refl
fresh_off (t ∷ ts) zero = refl
fresh_off (t ∷ ts) (suc i) = fresh_off ts i

empty_total : (i : ℕ) → total i (replicate priority_levels []) ≡ 0
unfolding total occurrences
empty_total i = refl

empty_bits :
    (p : ℕ)
    → get_or (replicate priority_levels false) p false
      ≡ not (is_empty (get_or {A = List ℕ} (replicate priority_levels []) p []))
empty_bits zero = refl
empty_bits (suc zero) = refl
empty_bits (suc (suc zero)) = refl
empty_bits (suc (suc (suc zero))) = refl
empty_bits (suc (suc (suc (suc p)))) = refl

cleared-IsSched : (ts : List Thread) → IsSched (cleared ts)
unfolding cleared holds
cleared-IsSched ts = record {
  room = refl;
  bits_room = refl;
  bits = empty_bits;
  marks = λ i. empty_total i ∙ ap (λ b. if b then 1 else 0) (sym (fresh_off ts i));
  are_ready = λ i on. absurd (ground (arith, fresh_off ts i));
  idle_off = λ i a. absurd (ground arith);
  idle_in = λ i a. absurd (ground arith);
  current_in = λ i a. absurd (ground arith);
  sleepers_in = λ i a. absurd (ground arith);
}

idle-IsSched :
    (s : Sched) (i : ℕ)
    → IsSched s
    → i < length s.threads
    → (thread s i).on_run_queue ≡ false
    → IsSched (record s { idle = some i })
idle-IsSched s i k h off = record {
  room = k.room;
  bits_room = k.bits_room;
  bits = k.bits;
  marks = k.marks;
  are_ready = k.are_ready;
  idle_off =
      λ j a. let same : j ≡ i = ground arith in ap (λ n. (thread s n).on_run_queue) same ∙ off;
  idle_in = λ j a. ground (arith, h);
  current_in = k.current_in;
  sleepers_in = k.sleepers_in;
}

-- `process_system_init` starts with empty queues, whatever was in the variables.
pub init-IsSched : (s : Sched) → IsSched (init s)
unfolding init create_thread started
init-IsSched s =
    let base : Sched = cleared s.threads in
    let k = cleared-IsSched s.threads in
    let t : Thread = started stack_size_max kernel priority_max (pos 0) in
    let l = started_lem stack_size_max kernel priority_max (pos 0) in
    with_thread-rule (λ (r : Option ℕ × Sched). IsSched r.1) (free_slot base.threads) (none, base) _
      k
      (λ i e.
        let f = slot base i e in
        idle-IsSched (update base i t) i (change-IsSched base i t k f.0 f.1 l.0)
          (omega (arith, f.0, length-set base.threads i t))
          (ap (λ x. x.on_run_queue) (thread-update base i i t f.0) ∙ rw (itself_test i) l.0))
