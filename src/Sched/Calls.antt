-- ===== src/Sched/Calls.antt =====
-- kernel/process.c: the turns of `process_schedule`, the timer tick, and the calls of a running thread. A
-- call is cut at `context_switch`: its result says whether it gets there. `leave` is what the scheduler
-- does after the switch, and `resume` what the thread does when it runs again.
use pro_os.Prelude.{
  ℕ, ◌+◌, ◌-◌, ◌%◌, ◌^◌, Bool, true, false, not, ◌&&◌, ◌||◌, Option, none, some, List, [], ◌∷◌,
  ◌==◌, if◌then◌else◌,
}
use pro_os.Prelude.Int.{ℤ}
use pro_os.Sched.{
  Sched, Thread, State, ready, running, waiting, zombie, is_ready, thread, update, is_at,
  with_thread, reset_priority, demote_priority, arm_timeslice, account_runtime,
}
use pro_os.Sched.Ready.{enqueue_ready, select_next, or_else}
use pro_os.Sched.Sleep.{remove_from_sleep, insert_sleep, wake_sleepers}
use pro_os.Sched.Threads.{reclaim_zombie}

-- The start of `process_schedule`; it does not start again.
unfoldable pub begin_schedule : Sched → Sched
begin_schedule s = if s.active then s else record s { active = true }

-- The thread that `process_schedule` runs next
unfoldable pub choose : Sched → Option ℕ × Sched
choose s = or_else (select_next s) (λ w. (w.idle, w))

unfoldable pub start : Sched → ℕ → Sched
start s i = record (update s i (arm_timeslice (record (thread s i) { state = running }))) {
  current = some i;
}

-- The loop of `process_schedule` up to `context_switch`, at tick `now`
abbrev pub run : Option ℕ × Sched → Sched
run (none, s) = s
run (some i, s) = start s i

unfoldable pub dispatch : ℕ → Sched → Sched
dispatch now s = run (choose (wake_sleepers now s))

-- The rest of the loop, for the thread that ran
unfoldable pub requeue : Sched → ℕ → Sched
requeue s i =
    if is_ready (thread s i).state && (not (is_at s.idle i) && not (thread s i).on_run_queue)
    then enqueue_ready s i
    else s

unfoldable pub leave : Sched → Sched
leave s =
    with_thread s.current s
      (λ i. record (requeue (reclaim_zombie (account_runtime s i) i) i) { current = none })

-- What a thread does when its `context_switch` returns
unfoldable pub resume : Sched → Sched
resume s = with_thread s.current s (λ i. update s i (record (thread s i) { state = running }))

-- `scheduler_preempt_running` up to its `context_switch`
unfoldable pub preempt : Bool → Sched → Bool × Sched
preempt demote s =
    with_thread s.current (false, s)
      (λ i.
        let t = if demote then demote_priority (thread s i) else thread s i in
        if is_at s.idle i
        then (true, s)
        else (true, enqueue_ready (update s i (record t { state = ready })) i))

unfoldable pub some_ready : List Bool → Bool
some_ready [] = false
some_ready (b ∷ bs) = b || some_ready bs

-- `process_scheduler_tick` at tick `now`, behind `wake_sleepers`
unfoldable pub run_tick : Sched → Bool × Sched
run_tick s =
    with_thread s.current (false, s)
      (λ i.
        let left = (thread s i).time_slice_remaining - 1 in
        let w = update s i (record (thread s i) { time_slice_remaining = left }) in
        if is_at s.idle i
        then (if some_ready s.ready_bitmap then preempt false s else (false, s))
        else if left == 0
        then preempt true w
        else (false, w))

unfoldable pub tick : ℕ → Sched → Bool × Sched
tick now s = if s.active then run_tick (wake_sleepers now s) else (false, s)

-- `process_block_current`, `process_sleep` and `process_yield` up to their `context_switch`; the idle thread and
-- the scheduler itself are not stopped.
unfoldable pub stopping : (ℕ → Sched → Sched) → Sched → Bool × Sched
stopping f s =
    with_thread s.current (false, s) (λ i. if is_at s.idle i then (false, s) else (true, f i s))

-- A thread that gives its time slice up
unfoldable pub stopped : State → Thread → Thread
stopped state t = record t { state = state; time_slice_remaining = 0 }

unfoldable pub block : Sched → Bool × Sched
block = stopping (λ i s. update s i (stopped waiting (thread s i)))

unfoldable pub sleep : ℕ → ℕ → Sched → Bool × Sched
sleep now ticks =
    let wait = if ticks == 0 then 1 else ticks in
    stopping (λ i s.
      insert_sleep
        (update s i
          (stopped waiting (record (thread s i) { wake_deadline = (now + wait) % 2 ^ 64 })))
        i)

unfoldable pub yield : Sched → Bool × Sched
yield = stopping (λ i s. enqueue_ready (update s i (stopped ready (reset_priority (thread s i)))) i)

-- `process_exit` up to its `context_switch`; what it takes from the other parts of the kernel is theirs.
unfoldable pub exit : ℤ → Sched → Bool × Sched
exit code s =
    with_thread s.current (false, s)
      (λ i. (
        true,
        update (remove_from_sleep s i) i
            (record (thread s i) { on_run_queue = false; exit_code = code; state = zombie }),
      ))
