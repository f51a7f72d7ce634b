-- ===== src/Sched/Lost.antt =====
-- kernel/process.c: what the scheduler does behind a `context_switch` with a thread in state RUNNING.
pub mod Window
use pro_os.Prelude.{
  inl, inr, leb, ◌∷◌, ℕ, ◌-◌, ◌<◌, ◌≡◌, refl, ap, sym, subst, ◌∙◌, Bool, true, false, not, ◌&&◌,
  Option, none, some, List, [], arith, ◌==◌, if◌then◌else◌, length, length-set, Bool-cases,
}
use pro_os.Sched.{
  Sched, Thread, ready, running, waiting, is_ready, is_zombie, is_waiting, thread, update, is_at,
  with_thread, account_runtime, accounted, demote_priority,
}
use pro_os.Sched.Ready.{holds, enqueue_ready}
use pro_os.Sched.Sleep.{wake, wake_sleepers, wake_from}
use pro_os.Sched.Threads.{reclaim_zombie}
use pro_os.Sched.Calls.{leave, requeue, tick, run_tick, preempt, block, stopping, stopped}
use pro_os.Sched.Queues.{IsSched, thread-update}
use pro_os.Sched.Queues.Moves.{itself_test}
use pro_os.Sched.Queues.Wakes.{length-enqueue_ready}
use pro_os.Sched.Queues.Steps.{not_ready_off, switched, accounted_rest, length-account_runtime}
use pro_os.Sched.Sleepers.Waking.{
  enqueue_itself, enqueue_rest, woken, woken_others, woken_rest, woken_idle, length-woken,
}

pub if_true : {A : Type 0} (b : Bool) (x y : A) → b ≡ true → (if b then x else y) ≡ x
if_true b x y e = ap (λ c. if c then x else y) e

pub if_false : {A : Type 0} (b : Bool) (x y : A) → b ≡ false → (if b then x else y) ≡ y
if_false b x y e = ap (λ c. if c then x else y) e

account_runtime_state :
    (s : Sched) (i : ℕ)
    → i < length s.threads
    → ((thread (account_runtime s i) i).state ≡ (thread s i).state)
      × ((thread (account_runtime s i) i).on_run_queue ≡ (thread s i).on_run_queue)
unfolding account_runtime
account_runtime_state s i h = elim (Bool-cases (is_at s.idle i)) [
  | inl e ↦ rw e (refl, refl)
  | inr n ↦
      let at =
        thread-update s i i (accounted (thread s i)) h
        ∙ if_true (i == i) (accounted (thread s i)) (thread s i) (itself_test i) in
      let r = accounted_rest (thread s i) in
      rw n (ap (λ x. x.state) at ∙ r.1, ap (λ x. x.on_run_queue) at ∙ r.0)
]

-- The switch, for a thread that did not exit
leave_at :
    (s : Sched) (i : ℕ)
    → s.current ≡ some i
    → i < length s.threads
    → is_zombie (thread s i).state ≡ false
    → leave s ≡ record (requeue (account_runtime s i) i) { current = none }
unfolding leave reclaim_zombie
leave_at s i e h z =
    ap
      (λ o.
        with_thread o s
          (λ j. record (requeue (reclaim_zombie (account_runtime s j) j) j) { current = none }))
      e
    ∙ ap (λ w. record (requeue w i) { current = none })
        (if_false (is_zombie (thread (account_runtime s i) i).state) _ (account_runtime s i)
          (ap is_zombie (account_runtime_state s i h).0 ∙ z))

requeue_state :
    (s : Sched) (i : ℕ) → i < length s.threads → (thread (requeue s i) i).state ≡ (thread s i).state
unfolding requeue
requeue_state s i h =
    elim (Bool-cases
      (is_ready (thread s i).state && (not (is_at s.idle i) && not (thread s i).on_run_queue))) [
        | inl go ↦ rw go (enqueue_itself s i h).0
        | inr n ↦ rw n refl
      ]

pub leave_state :
    (s : Sched) (i : ℕ)
    → s.current ≡ some i
    → i < length s.threads
    → is_zombie (thread s i).state ≡ false
    → (thread (leave s) i).state ≡ (thread s i).state
leave_state s i e h z =
    ap (λ w. (thread w i).state) (leave_at s i e h z)
    ∙ requeue_state (account_runtime s i) i (omega (arith, h, length-account_runtime s i))
    ∙ (account_runtime_state s i h).0

pub wake_ignored : (s : Sched) (i : ℕ) → is_waiting (thread s i).state ≡ false → wake s i ≡ s
unfolding wake
wake_ignored s i n = if_false (is_waiting (thread s i).state) _ s n

-- A thread that reaches its `context_switch` in state RUNNING is in no queue and runs no more: the scheduler forgets it,
-- and `process_wake` ignores it.
pub leave_running :
    (s : Sched) (i : ℕ)
    → IsSched s
    → s.current ≡ some i
    → (thread s i).state ≡ running
    → ((thread (leave s) i).state ≡ running)
      × ((thread (leave s) i).on_run_queue ≡ false)
      × ((leave s).current ≡ none)
      × (wake (leave s) i ≡ leave s)
unfolding requeue
leave_running s i k e r =
    let h = k.current_in i (ap (λ o. is_at o i) e ∙ itself_test i) in
    let z = ap is_zombie r in
    let st = leave_state s i e h z ∙ r in
    let at = leave_at s i e h z in
    let a = account_runtime_state s i h in
    let quiet : requeue (account_runtime s i) i ≡ account_runtime s i =
      if_false _ (enqueue_ready (account_runtime s i) i) (account_runtime s i)
        (ground (arith, ap is_ready (a.0 ∙ r))) in
    let off : (thread s i).on_run_queue ≡ false = not_ready_off s i k (ap is_ready r) in
    (
      st,
      ap (λ w. (thread w i).on_run_queue)
            (at ∙ ap (λ (w : Sched). record w { current = none }) quiet)
          ∙ a.1
          ∙ off,
      ap (λ w. w.current) at,
      wake_ignored (leave s) i (ap is_waiting st),
    )
