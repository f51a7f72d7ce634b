-- ===== src/Sched/Queues/Runs.antt =====
-- kernel/process.c: any run of the scheduler keeps the run queues in order.
use pro_os.Prelude.{
  ℕ, ◌+◌, ◌%◌, ◌^◌, ◌<◌, ◌≡◌, refl, ap, sym, subst, ◌∙◌, Bool, true, false, ◌⊎◌, inl, inr, Option,
  none, some, List, [], ◌∷◌, arith, ltb, ◌==◌, if◌then◌else◌, length, length-set, Bool-cases,
}
use pro_os.Prelude.Int.{ℤ}
use pro_os.Ipc.Process.{kernel, user}
use pro_os.Sched.{
  Sched, Thread, State, unused, ready, running, waiting, zombie, thread, update, is_at, is_ready,
  is_running, Policy, reset_priority, clamp_priority, priority_min,
}
use pro_os.Sched.Ready.{holds, unlink}
use pro_os.Sched.Sleep.{insert_sleep, insert_by, remove_from_sleep, wake}
use pro_os.Sched.Threads.{
  create_thread, create, create_kernel, pid_of, default_user_priority, set_scheduler, init,
}
use pro_os.Sched.Calls.{
  begin_schedule, dispatch, leave, resume, tick, stopping, stopped, block, sleep, yield, exit,
}
use pro_os.Sched.Queues.{IsSched}
use pro_os.Sched.Queues.Wakes.{
  sleepers-IsSched, holds-unlink, set_ready-IsSched, remove_from_sleep-IsSched, wake-IsSched,
  dispatch-IsSched,
}
use pro_os.Sched.Queues.Starts.{init-IsSched, create_thread-IsSched, set_scheduler-IsSched}
use pro_os.Sched.Queues.Steps.{
  not_ready_off, change-IsSched, with_thread-rule, Keeps, switched, leave-IsSched, tick-IsSched,
}

-- The running thread makes calls.
abbrev pub IsRunning : Sched → Type 0
IsRunning s = (i : ℕ) → is_at s.current i ≡ true → is_running (thread s i).state ≡ true

running_not_ready : (x : State) → is_running x ≡ true → is_ready x ≡ false
running_not_ready zombie e = refl
running_not_ready unused e = refl
running_not_ready ready e = absurd (ground arith)
running_not_ready running e = refl
running_not_ready waiting e = refl

stopping-IsSched :
    (f : ℕ → Sched → Sched) (s : Sched)
    → IsSched s
    → ((i : ℕ) → is_at s.current i ≡ true → IsSched (f i s))
    → IsSched (stopping f s).1
unfolding stopping
stopping-IsSched f s k g =
    with_thread-rule Keeps s.current (false, s) _ k
      (λ i at. elim (Bool-cases (is_at s.idle i)) [ inl e ↦ rw e k | inr n ↦ rw n (g i at) ])

-- The running thread is no longer READY.
stopped-IsSched :
    (s : Sched) (i : ℕ) (t : Thread)
    → IsSched s
    → IsRunning s
    → is_at s.current i ≡ true
    → t.on_run_queue ≡ (thread s i).on_run_queue
    → IsSched (update s i t)
stopped-IsSched s i t k r at m =
    let n = running_not_ready (thread s i).state (r i at) in
    change-IsSched s i t k (k.current_in i at) n (m ∙ not_ready_off s i k n)

block-IsSched : (s : Sched) → IsSched s → IsRunning s → IsSched (block s).1
unfolding block stopped
block-IsSched s k r =
    stopping-IsSched (λ i s. update s i (stopped waiting (thread s i))) s k
      (λ i at. stopped-IsSched s i (stopped waiting (thread s i)) k r at refl)

holds-insert_by :
    (s : Sched) (i j : ℕ) (l : List ℕ)
    → holds j (insert_by s i l) ≡ true
    → (i ≡ j) ⊎ (holds j l ≡ true)
unfolding insert_by holds
holds-insert_by s i j [] h = inl (ground arith)
holds-insert_by s i j (n ∷ l) h =
    elim (Bool-cases (ltb (thread s i).wake_deadline (thread s n).wake_deadline)) [
      | inl e ↦ elim (Bool-cases (i == j)) [
        | inl same ↦ inl (ground arith)
        | inr apart ↦ inr (ground arith)
      ]
      | inr d ↦ elim (Bool-cases (n == j)) [
        | inl same ↦ inr (ground arith)
        | inr apart ↦ elim (holds-insert_by s i j l (ground arith)) [
          | inl x ↦ inl x
          | inr x ↦ inr (ground arith)
        ]
      ]
    ]

insert_sleep-IsSched :
    (s : Sched) (i : ℕ) → IsSched s → i < length s.threads → IsSched (insert_sleep s i)
unfolding insert_sleep
insert_sleep-IsSched s i k h = sleepers-IsSched s (insert_by s i (unlink i s.sleepers)) k (λ j x.
    elim (holds-insert_by s i j (unlink i s.sleepers) x) [
      | inl e ↦ subst (λ n. n < length s.threads) e h
      | inr y ↦ k.sleepers_in j (holds-unlink j i s.sleepers y)
    ])

sleep-IsSched :
    (now ticks : ℕ) (s : Sched) → IsSched s → IsRunning s → IsSched (sleep now ticks s).1
unfolding sleep stopped
sleep-IsSched now ticks s k r = stopping-IsSched _ s k (λ i at.
    let t : Thread = stopped waiting (record (thread s i) {
      wake_deadline = (now + (if ticks == 0 then 1 else ticks)) % 2 ^ 64;
    }) in
    insert_sleep-IsSched (update s i t) i (stopped-IsSched s i t k r at refl)
      (omega (arith, k.current_in i at, length-set s.threads i t)))

yield-IsSched : (s : Sched) → IsSched s → IsSched (yield s).1
unfolding yield stopped reset_priority
yield-IsSched s k = stopping-IsSched _ s k (λ i at.
    set_ready-IsSched s i (stopped ready (reset_priority (thread s i))) k (k.current_in i at) refl
      refl)

exit-IsSched : (code : ℤ) (s : Sched) → IsSched s → IsRunning s → IsSched (exit code s).1
unfolding exit
exit-IsSched code s k r =
    with_thread-rule Keeps s.current (false, s) _ k
      (λ i at.
        let n = running_not_ready (thread s i).state (r i at) in
        change-IsSched (remove_from_sleep s i) i
          (record (thread s i) { on_run_queue = false; exit_code = code; state = zombie })
          (remove_from_sleep-IsSched s i k) (k.current_in i at) n refl)

resume-IsSched : (s : Sched) → IsSched s → IsRunning s → IsSched (resume s)
unfolding resume
resume-IsSched s k r =
    with_thread-rule IsSched s.current s _ k
      (λ i at. stopped-IsSched s i (record (thread s i) { state = running }) k r at refl)

pid_of-state : (r : Option ℕ × Sched) → (pid_of r).1 ≡ r.1
unfolding pid_of
pid_of-state (none, s) = refl
pid_of-state (some i, s) = refl

create-IsSched : (s : Sched) (stack_size : ℕ) → IsSched s → IsSched (create s stack_size).1
unfolding create
create-IsSched s stack_size k =
    subst IsSched (sym (pid_of-state (create_thread s stack_size user default_user_priority false)))
      (create_thread-IsSched s stack_size user default_user_priority k)

create_kernel-IsSched :
    (s : Sched) (stack_size : ℕ) → IsSched s → IsSched (create_kernel s stack_size).1
unfolding create_kernel
create_kernel-IsSched s stack_size k =
    subst IsSched
      (sym (pid_of-state (create_thread s stack_size kernel (clamp_priority priority_min) false)))
      (create_thread-IsSched s stack_size kernel (clamp_priority priority_min) k)

active-IsSched : (s : Sched) (b : Bool) → IsSched s → IsSched (record s { active = b })
active-IsSched s b k = record {
  room = k.room;
  bits_room = k.bits_room;
  bits = k.bits;
  marks = k.marks;
  are_ready = k.are_ready;
  idle_off = k.idle_off;
  idle_in = k.idle_in;
  current_in = k.current_in;
  sleepers_in = k.sleepers_in;
}

begin_schedule-IsSched : (s : Sched) → IsSched s → IsSched (begin_schedule s)
unfolding begin_schedule
begin_schedule-IsSched s k = elim (Bool-cases s.active) [
  | inl on ↦ subst IsSched (sym (ap (λ b. if b then s else record s { active = true }) on)) k
  | inr off ↦
      subst IsSched (sym (ap (λ b. if b then s else record s { active = true }) off))
        (active-IsSched s true k)
]

-- What may happen next, the timer included: a call of the running thread ends at its `context_switch`, and
-- `leaving` is the switch; a tick may come in between.
pub data Step (s : Sched) : Sched → Type 0 where
  starting : Step s (begin_schedule s)
  dispatching : (now : ℕ) → Step s (dispatch now s)
  leaving : Step s (leave s)
  resuming : IsRunning s → Step s (resume s)
  ticking : (now : ℕ) → Step s (switched (tick now s))
  blocking : IsRunning s → Step s (block s).1
  sleeping : (now ticks : ℕ) → IsRunning s → Step s (sleep now ticks s).1
  yielding : Step s (yield s).1
  exiting : (code : ℤ) → IsRunning s → Step s (exit code s).1
  waking : (i : ℕ) → i < length s.threads → Step s (wake s i)
  creating : (stack_size : ℕ) → Step s (create s stack_size).1
  creating_kernel : (stack_size : ℕ) → Step s (create_kernel s stack_size).1
  setting :
      (pid : ℤ) (policy : Option Policy) (weight deadline_ticks now : ℕ)
      → Step s (set_scheduler s pid policy weight deadline_ticks now).1

-- What can be reached from `process_system_init`
pub data Reachable : Sched → Type 0 where
  initial : (s : Sched) → Reachable (init s)
  next : (s w : Sched) → Reachable s → Step s w → Reachable w

Step-IsSched : (s w : Sched) → Step s w → IsSched s → IsSched w
Step-IsSched s _ starting k = begin_schedule-IsSched s k
Step-IsSched s _ (dispatching now) k = dispatch-IsSched now s k
Step-IsSched s _ leaving k = leave-IsSched s k
Step-IsSched s _ (resuming r) k = resume-IsSched s k r
Step-IsSched s _ (ticking now) k = tick-IsSched now s k
Step-IsSched s _ (blocking r) k = block-IsSched s k r
Step-IsSched s _ (sleeping now ticks r) k = sleep-IsSched now ticks s k r
Step-IsSched s _ yielding k = yield-IsSched s k
Step-IsSched s _ (exiting code r) k = exit-IsSched code s k r
Step-IsSched s _ (waking i h) k = wake-IsSched s i k h
Step-IsSched s _ (creating stack_size) k = create-IsSched s stack_size k
Step-IsSched s _ (creating_kernel stack_size) k = create_kernel-IsSched s stack_size k
Step-IsSched s _ (setting pid policy weight deadline_ticks now) k =
    set_scheduler-IsSched s pid policy weight deadline_ticks now k

-- In every state that is reached from `process_system_init` by turns of the scheduler, ticks, wake-ups, new
-- threads and calls of the running thread, each thread is in the run queues exactly once if it is marked and
-- not at all otherwise, the bits tell which queues are not empty, queued threads are READY, and the idle
-- thread is in no queue.
pub reachable-IsSched : (s : Sched) → Reachable s → IsSched s
reachable-IsSched _ (initial s) = init-IsSched s
reachable-IsSched w (next s _ r step) = Step-IsSched s w step (reachable-IsSched s r)
