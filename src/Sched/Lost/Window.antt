-- ===== src/Sched/Lost/Window.antt =====
-- kernel/process.c: a timer tick between the state that `process_block_current` sets and its `context_switch`.
use pro_os.Prelude.{
  inl, inr, leb, ◌∷◌, ℕ, ◌-◌, ◌<◌, ◌≡◌, refl, ap, sym, subst, ◌∙◌, Bool, true, false, Option, some,
  List, [], arith, ◌==◌, length, length-set, Bool-cases,
}
use pro_os.Sched.{
  Sched, Thread, ready, waiting, is_zombie, is_waiting, thread, update, is_at, with_thread,
  demote_priority,
}
use pro_os.Sched.Ready.{holds, enqueue_ready}
use pro_os.Sched.Sleep.{wake, wake_sleepers, wake_from}
use pro_os.Sched.Calls.{leave, tick, run_tick, preempt, block, stopping, stopped}
use pro_os.Sched.Queues.{IsSched, thread-update}
use pro_os.Sched.Queues.Moves.{itself_test}
use pro_os.Sched.Queues.Wakes.{length-enqueue_ready}
use pro_os.Sched.Queues.Steps.{switched}
use pro_os.Sched.Sleepers.Waking.{
  enqueue_itself, enqueue_rest, woken, woken_others, woken_rest, woken_idle, length-woken,
}
use pro_os.Sched.Lost.{if_true, leave_state, wake_ignored}

-- What waking others leaves as it is
pub record Rest (s : Sched) (i : ℕ) (w : Sched) : Type 0 where
  pub thread_kept : thread w i ≡ thread s i
  pub current_kept : w.current ≡ s.current
  pub idle_kept : w.idle ≡ s.idle
  pub active_kept : w.active ≡ s.active
  pub length_kept : length w.threads ≡ length s.threads

wake_from-Rest :
    (now : ℕ) (l : List ℕ) (s : Sched) (i : ℕ)
    → holds i l ≡ false
    → ((j : ℕ) → holds j l ≡ true → j < length s.threads)
    → Rest s i (wake_from now l s)
unfolding wake_from holds
wake_from-Rest now [] s i n h = record {
  thread_kept = refl;
  current_kept = refl;
  idle_kept = refl;
  active_kept = refl;
  length_kept = refl;
}
wake_from-Rest now (j ∷ js) s i n h = elim (Bool-cases (leb (thread s j).wake_deadline now)) [
  | inr early ↦
      rw (early, wake_from)
        (record {
          thread_kept = refl;
          current_kept = refl;
          idle_kept = refl;
          active_kept = refl;
          length_kept = refl;
        })
  | inl due ↦
      let hj : j < length s.threads = h j (ground arith) in
      let t = woken s j js in
      let r =
        wake_from-Rest now js t i (ground arith)
          (λ m x. omega (arith, h m (ground arith), length-woken s j js hj)) in
      rw (due, wake_from)
        (record {
          thread_kept = r.thread_kept ∙ woken_others s j js hj i (ground arith);
          current_kept = r.current_kept ∙ (woken_rest s j js hj).0;
          idle_kept = r.idle_kept ∙ woken_idle s j js hj;
          active_kept = r.active_kept ∙ (woken_rest s j js hj).1;
          length_kept = r.length_kept ∙ length-woken s j js hj;
        })
]

with_thread-some :
    {A : Type 0} (P : A → Type 0) (o : Option ℕ) (i : ℕ) (a : A) (f : ℕ → A)
    → o ≡ some i
    → P (f i)
    → P (with_thread o a f)
with_thread-some P o i a f e p = subst (λ x. P (with_thread x a f)) (sym e) p

-- The end of a tick, for a thread whose time slice is used up
run_tick_at :
    (s : Sched) (i : ℕ)
    → s.current ≡ some i
    → is_at s.idle i ≡ false
    → (thread s i).time_slice_remaining ≡ 0
    → run_tick s
      ≡ preempt true (
          update s i
            (record (thread s i) { time_slice_remaining = (thread s i).time_slice_remaining - 1 }))
unfolding run_tick
run_tick_at s i e n z =
    let w : Sched =
      update s i
        (record (thread s i) { time_slice_remaining = (thread s i).time_slice_remaining - 1 }) in
    let used : ((thread s i).time_slice_remaining - 1 == 0) ≡ true = ground arith in
    with_thread-some (λ r. r ≡ preempt true w) s.current i (false, s) _ e (rw (n, used) refl)

preempt_at :
    (s : Sched) (i : ℕ)
    → s.current ≡ some i
    → is_at s.idle i ≡ false
    → preempt true s ≡ (
      true,
      enqueue_ready (update s i (record (demote_priority (thread s i)) { state = ready })) i,
    )
unfolding preempt
preempt_at s i e n =
    let w : Sched =
      enqueue_ready (update s i (record (demote_priority (thread s i)) { state = ready })) i in
    with_thread-some (λ r. r ≡ (true, w)) s.current i (false, s) _ e (rw n refl)

ready_leave :
    (s : Sched) (i : ℕ) (t : Thread)
    → s.current ≡ some i
    → i < length s.threads
    → t.state ≡ ready
    → (thread (leave (enqueue_ready (update s i t) i)) i).state ≡ ready
ready_leave s i t e h r =
    let w : Sched = update s i t in
    let hw : i < length w.threads = omega (arith, h, length-set s.threads i t) in
    let at : (thread w i).state ≡ ready =
      ap (λ x. x.state) (thread-update s i i t h ∙ if_true (i == i) t (thread s i) (itself_test i))
      ∙ r in
    let st : (thread (enqueue_ready w i) i).state ≡ ready = (enqueue_itself w i hw).0 ∙ at in
    leave_state (enqueue_ready w i) i ((enqueue_rest w i).1 ∙ e)
      (omega (arith, hw, length-enqueue_ready w i)) (ap is_zombie st)
    ∙ st

preempted :
    (s : Sched) (i : ℕ)
    → s.current ≡ some i
    → is_at s.idle i ≡ false
    → i < length s.threads
    → (thread s i).time_slice_remaining ≡ 0
    → (thread (switched (run_tick s)) i).state ≡ ready
preempted s i e n h z =
    let t : Thread = record (thread s i) {
      time_slice_remaining = (thread s i).time_slice_remaining - 1;
    } in
    let w : Sched = update s i t in
    ap (λ r. (thread (switched r) i).state) (run_tick_at s i e n z ∙ preempt_at w i e n)
    ∙ ready_leave w i (record (demote_priority (thread w i)) { state = ready }) e
        (omega (arith, h, length-set s.threads i t)) refl

block_at :
    (s : Sched) (i : ℕ)
    → s.current ≡ some i
    → is_at s.idle i ≡ false
    → (block s).1 ≡ update s i (stopped waiting (thread s i))
unfolding block stopping
block_at s i e n =
    with_thread-some (λ (r : Bool × Sched). r.1 ≡ update s i (stopped waiting (thread s i)))
      s.current i (false, s) _ e (rw n refl)

blocked_tick :
    (s : Sched) (i now : ℕ)
    → IsSched s
    → s.current ≡ some i
    → is_at s.idle i ≡ false
    → s.active ≡ true
    → holds i s.sleepers ≡ false
    → (thread (switched (tick now (update s i (stopped waiting (thread s i))))) i).state ≡ ready
unfolding tick stopped
blocked_tick s i now k e n on awake =
    let t : Thread = stopped waiting (thread s i) in
    let h : i < length s.threads = k.current_in i (ap (λ o. is_at o i) e ∙ itself_test i) in
    let b : Sched = update s i t in
    let r =
      wake_from-Rest now b.sleepers b i awake
        (λ j x. omega (arith, k.sleepers_in j x, length-set s.threads i t)) in
    let at : (thread b i).time_slice_remaining ≡ 0 =
      ap (λ x. x.time_slice_remaining)
        (thread-update s i i t h ∙ if_true (i == i) t (thread s i) (itself_test i)) in
    ap (λ x. (thread (switched x) i).state)
      (if_true b.active (run_tick (wake_sleepers now b)) (false, b) on)
    ∙ preempted (wake_sleepers now b) i (r.current_kept ∙ e) (ap (λ o. is_at o i) r.idle_kept ∙ n)
        (omega (arith, r.length_kept, h, length-set s.threads i t))
        (ap (λ x. x.time_slice_remaining) r.thread_kept ∙ at)

-- If a tick comes after `process_block_current` has set the state to WAITING and before its `context_switch`, the thread
-- is READY and no longer WAITING, so that `process_wake` ignores it.
pub tick-block :
    (s : Sched) (i now : ℕ)
    → IsSched s
    → s.current ≡ some i
    → is_at s.idle i ≡ false
    → s.active ≡ true
    → holds i s.sleepers ≡ false
    → let t = switched (tick now (block s).1) in ((thread t i).state ≡ ready) × (wake t i ≡ t)
tick-block s i now k e n on awake =
    let st =
      ap (λ x. (thread (switched (tick now x)) i).state) (block_at s i e n)
      ∙ blocked_tick s i now k e n on awake in
    (st, wake_ignored (switched (tick now (block s).1)) i (ap is_waiting st))
