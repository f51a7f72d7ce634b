-- ===== src/Sched/Tests.antt =====
-- Runs of the scheduler of kernel/process.c, and its theorems at concrete states.
use pro_os.Prelude.{ℕ, ◌<◌, ◌≡◌, refl, false, true, some, [], ◌∷◌, arith, length, replicate, ◌≤◌}
use pro_os.Prelude.Arrays.{find_index}
use pro_os.Prelude.Int.{pos, failure}
use pro_os.Ipc.Process.{max_procs}
use pro_os.Sched.{
  Sched, ready, running, deadline, no_thread, thread, update, is_at, clamp_priority, timeslice_for,
  reset_priority, demote_priority, boosted, boost_priority, arm_timeslice, used_ticks, scaled,
  accounted, account_runtime,
}
use pro_os.Sched.Ready.{
  holds, unlink, put_queue, enqueue_ready, remove_from_ready, dequeue_from, better, scan, scan_all,
  pick, select_next,
}
use pro_os.Sched.Sleep.{insert_by, insert_sleep, make_ready, wake_from, wake_sleepers, wake}
use pro_os.Sched.Threads.{
  free_slot, acquire_pid, new_thread, create_thread, default_user_priority, pid_of, create,
  create_kernel, fresh, cleared, init, reclaimed, reclaim_zombie, lookup, set_policy, target,
  set_scheduler, is_listed, count_from, count, snapshot_from, snapshot,
}
use pro_os.Sched.Calls.{
  begin_schedule, choose, start, dispatch, requeue, leave, resume, preempt, some_ready, run_tick,
  tick, stopping, stopped, block, sleep, yield, exit,
}
use pro_os.Sched.Lost.Window.{tick-block}
use pro_os.Sched.Sleepers.{IsSorted}
use pro_os.Sched.Sleepers.Waking.{Wakes, wake_sleepers_lem}
use pro_os.Sched.Queues.{IsSched, update-IsSched}
use pro_os.Sched.Queues.Wakes.{sleepers-IsSched}
use pro_os.Sched.Queues.Counts.{occurrences, total}
use pro_os.Sched.Queues.Choice.{Chosen, Selects, select_next_lem}
use pro_os.Sched.Queues.Runs.{
  Reachable, initial, next, starting, dispatching, creating, creating_kernel, setting,
  reachable-IsSched,
}
use pro_os.Sched.Queues.Steps.{switched}

abbrev booted : Sched
booted = init (cleared (replicate max_procs no_thread))

abbrev one : Sched
one = (create booted 0).1

-- Two threads, of which the second has a deadline
abbrev two : Sched
two = (set_scheduler (create_kernel one 0).1 (pos 2) (some deadline) 0 50 9).1

two-Reachable : Reachable two
two-Reachable =
    next _ two
      (next _ (create_kernel one 0).1
        (next booted one (initial (cleared (replicate max_procs no_thread))) (creating 0))
        (creating_kernel 0))
      (setting (pos 2) (some deadline) 0 50 9)

created :
    ((thread two 1).pid ≡ pos 1)
    × ((thread two 2).pid ≡ pos 2)
    × (count two ≡ 2)
    × (length (snapshot two 1) ≡ 1)
unfolding init cleared fresh no_thread create_thread free_slot find_index new_thread clamp_priority
    arm_timeslice timeslice_for create create_kernel pid_of acquire_pid default_user_priority
    enqueue_ready put_queue set_scheduler target lookup set_policy count count_from is_listed
    snapshot snapshot_from
created = (refl, refl, refl, refl)

-- The thread with the deadline goes first.
chosen : (select_next two).0 ≡ some 2
unfolding init cleared fresh no_thread create_thread free_slot find_index new_thread clamp_priority
    arm_timeslice timeslice_for create create_kernel pid_of acquire_pid default_user_priority
    enqueue_ready put_queue set_scheduler target lookup set_policy select_next pick scan scan_all
    better
chosen = refl

-- The chosen thread sleeps until tick 15, and is woken then.
abbrev asleep : Sched
asleep = leave (sleep 10 5 (dispatch 10 (begin_schedule two))).1

sleeps :
    (asleep.sleepers ≡ 2 ∷ [])
    × ((wake_sleepers 14 asleep).sleepers ≡ 2 ∷ [])
    × ((wake_sleepers 15 asleep).sleepers ≡ [])
unfolding init cleared fresh no_thread create_thread free_slot find_index new_thread clamp_priority
    arm_timeslice timeslice_for create create_kernel pid_of acquire_pid default_user_priority
    enqueue_ready put_queue set_scheduler target lookup set_policy select_next pick scan scan_all
    better begin_schedule dispatch choose start remove_from_ready holds unlink dequeue_from
    wake_from make_ready boost_priority boosted sleep stopping stopped insert_sleep insert_by leave
    account_runtime accounted used_ticks scaled reclaim_zombie requeue
sleeps = (refl, refl, refl)

-- It exits, yields, runs on through a tick, is woken early, or is the last that is taken by priority.
calls :
    ((thread (leave (exit (pos 3) (dispatch 10 two)).1) 2).pid ≡ failure)
    × ((thread (leave (yield (dispatch 10 two)).1) 2).on_run_queue ≡ true)
    × ((switched (tick 11 (dispatch 10 (begin_schedule two)))).current ≡ some 2)
    × ((wake asleep 2).sleepers ≡ [])
unfolding init cleared fresh no_thread create_thread free_slot find_index new_thread clamp_priority
    arm_timeslice timeslice_for create create_kernel pid_of acquire_pid default_user_priority
    enqueue_ready put_queue set_scheduler target lookup set_policy select_next pick scan scan_all
    better begin_schedule dispatch choose start remove_from_ready holds unlink dequeue_from
    wake_from make_ready boost_priority boosted sleep stopping stopped insert_sleep insert_by leave
    account_runtime accounted used_ticks scaled reclaim_zombie requeue exit yield reset_priority
    reclaimed tick run_tick preempt demote_priority some_ready resume wake
calls = (refl, refl, refl, refl)

reachable-IsSched_example : IsSched two
reachable-IsSched_example = reachable-IsSched two two-Reachable

select_next_lem_example : Chosen (select_next two) × Selects two (select_next two)
select_next_lem_example = select_next_lem two (reachable-IsSched two two-Reachable)

booted-IsSched : IsSched booted
booted-IsSched = reachable-IsSched booted (initial (cleared (replicate max_procs no_thread)))

booted-1 : 0 < length booted.threads
unfolding init cleared fresh create_thread free_slot find_index no_thread create new_thread
booted-1 = omega arith

-- Two threads sleep
abbrev dozer : Sched
dozer = update booted 0 (record (thread booted 0) { wake_deadline = 7 })

dozer-2 : 1 < length dozer.threads
unfolding init cleared fresh create_thread free_slot find_index no_thread create new_thread
dozer-2 = omega arith

abbrev dozing : Sched
dozing = record (update dozer 1 (record (thread dozer 1) { wake_deadline = 9 })) {
  sleepers = 0 ∷ 1 ∷ [];
}

dozer-IsSched : IsSched dozer
dozer-IsSched =
    update-IsSched booted 0 (record (thread booted 0) { wake_deadline = 7 }) booted-IsSched booted-1
      refl (booted-IsSched.are_ready 0)

two_sleep : 1 < length dozing.threads
unfolding init cleared fresh create_thread free_slot find_index no_thread create new_thread
two_sleep = omega arith

dozing-IsSched : IsSched dozing
unfolding holds
dozing-IsSched =
    sleepers-IsSched (update dozer 1 (record (thread dozer 1) { wake_deadline = 9 })) (0 ∷ 1 ∷ [])
      (update-IsSched dozer 1 (record (thread dozer 1) { wake_deadline = 9 }) dozer-IsSched dozer-2
        refl (dozer-IsSched.are_ready 1))
      (λ i h. ground (arith, two_sleep))

dozing-IsSorted : IsSorted dozing (0 ∷ 1 ∷ [])
unfolding init cleared fresh create_thread free_slot find_index no_thread create new_thread
dozing-IsSorted = ((omega arith, tt), (tt, tt))

none_yet : occurrences 2 (0 ∷ 1 ∷ []) ≤ 1
unfolding occurrences
none_yet = omega arith

wake_sleepers_lem_example :
    IsSched (wake_sleepers 7 dozing)
    × Wakes 7 dozing (0 ∷ 1 ∷ []) (wake_sleepers 7 dozing)
    × ((i : ℕ)
        → holds i (0 ∷ 1 ∷ []) ≡ true
        → (thread dozing i).wake_deadline ≤ 7
        → is_at dozing.idle i ≡ false
        → total i (wake_sleepers 7 dozing).queues ≡ 1)
unfolding holds
wake_sleepers_lem_example =
    wake_sleepers_lem 7 dozing dozing-IsSched dozing-IsSorted (refl, (refl, tt))

abbrev busy : Sched
busy = dispatch 10 (begin_schedule two)

busy-IsSched : IsSched busy
busy-IsSched = reachable-IsSched busy (
    next (begin_schedule two) busy (next two (begin_schedule two) two-Reachable starting)
      (dispatching 10))

busy_state :
    (busy.current ≡ some 2)
    × (is_at busy.idle 2 ≡ false)
    × (busy.active ≡ true)
    × (holds 2 busy.sleepers ≡ false)
    × ((thread busy 2).state ≡ running)
unfolding init cleared fresh no_thread create_thread free_slot find_index new_thread clamp_priority
    arm_timeslice timeslice_for create create_kernel pid_of acquire_pid default_user_priority
    enqueue_ready put_queue set_scheduler target lookup set_policy select_next pick scan scan_all
    better begin_schedule dispatch choose start remove_from_ready holds unlink dequeue_from
    wake_from make_ready boost_priority boosted
busy_state = (refl, refl, refl, refl, refl)

tick-block_example :
    ((thread (switched (tick 11 (block busy).1)) 2).state ≡ ready)
    × (wake (switched (tick 11 (block busy).1)) 2 ≡ switched (tick 11 (block busy).1))
tick-block_example =
    tick-block busy 2 11 busy-IsSched busy_state.0 busy_state.1 busy_state.2 busy_state.3
