-- ===== src/Sched/Queues/Steps.antt =====
-- kernel/process.c: the steps of the scheduler, its threads and the timer keep the run queues in order.
use pro_os.Prelude.{
  ℕ, ◌-◌, ◌<◌, ◌≡◌, refl, ap, sym, subst, ◌∙◌, Bool, true, false, not, ◌&&◌, inl, inr, Option, none,
  some, arith, ltb, ◌==◌, if◌then◌else◌, length, length-set, Bool-cases,
}
use pro_os.Sched.{
  Sched, Thread, State, unused, ready, running, waiting, zombie, thread, update, is_at, with_thread,
  is_ready, is_zombie, no_thread, account_runtime, accounted, used_ticks, demote_priority, is_fair,
  priority_max,
}
use pro_os.Sched.Sleep.{remove_from_sleep, wake_sleepers}
use pro_os.Sched.Threads.{reclaim_zombie, reclaimed}
use pro_os.Sched.Calls.{requeue, leave, preempt, run_tick, tick, some_ready}
use pro_os.Sched.Queues.{IsSched, update-IsSched}
use pro_os.Sched.Queues.Moves.{itself_test, enqueue_ready-IsSched}
use pro_os.Sched.Queues.Wakes.{
  current-IsSched, set_ready-IsSched, wake_sleepers-IsSched, remove_from_sleep-IsSched,
}

-- A thread that is not READY is not marked.
pub not_ready_off :
    (s : Sched) (i : ℕ)
    → IsSched s
    → is_ready (thread s i).state ≡ false
    → (thread s i).on_run_queue ≡ false
not_ready_off s i k n = elim (Bool-cases (thread s i).on_run_queue) [
  | inl on ↦ absurd (ground (arith, k.are_ready i on))
  | inr off ↦ off
]

zombie_not_ready : (x : State) → is_zombie x ≡ true → is_ready x ≡ false
zombie_not_ready zombie e = refl
zombie_not_ready unused e = refl
zombie_not_ready ready e = absurd (ground arith)
zombie_not_ready running e = refl
zombie_not_ready waiting e = refl

-- A thread that is not READY is changed, and is not marked.
pub change-IsSched :
    (s : Sched) (i : ℕ) (t : Thread)
    → IsSched s
    → i < length s.threads
    → is_ready (thread s i).state ≡ false
    → t.on_run_queue ≡ false
    → IsSched (update s i t)
change-IsSched s i t k h n off =
    update-IsSched s i t k h (off ∙ sym (not_ready_off s i k n)) (λ on. absurd (ground arith))

pub accounted_rest :
    (t : Thread) → ((accounted t).on_run_queue ≡ t.on_run_queue) × ((accounted t).state ≡ t.state)
unfolding accounted
accounted_rest t = elim (Bool-cases (is_fair t.sched_policy)) [
  | inr n ↦ rw n (refl, refl)
  | inl f ↦ elim (Bool-cases (used_ticks t == 0)) [
    | inl z ↦ rw (f, z) (refl, refl)
    | inr p ↦ rw (f, p) (refl, refl)
  ]
]

account_runtime-IsSched :
    (s : Sched) (i : ℕ) → IsSched s → i < length s.threads → IsSched (account_runtime s i)
unfolding account_runtime
account_runtime-IsSched s i k h = elim (Bool-cases (is_at s.idle i)) [
  | inl e ↦ rw e k
  | inr n ↦
      let a = accounted_rest (thread s i) in
      rw n (
        update-IsSched s i (accounted (thread s i)) k h a.0
          (λ on. ap is_ready a.1 ∙ k.are_ready i (sym a.0 ∙ on)))
]

pub length-account_runtime :
    (s : Sched) (i : ℕ) → length (account_runtime s i).threads ≡ length s.threads
unfolding account_runtime
length-account_runtime s i = elim (Bool-cases (is_at s.idle i)) [
  | inl e ↦ rw e refl
  | inr n ↦ rw n (length-set s.threads i (accounted (thread s i)))
]

reclaim_zombie-IsSched :
    (s : Sched) (i : ℕ) → IsSched s → i < length s.threads → IsSched (reclaim_zombie s i)
unfolding reclaim_zombie reclaimed no_thread
reclaim_zombie-IsSched s i k h = elim (Bool-cases (is_zombie (thread s i).state)) [
  | inr n ↦ rw n k
  | inl z ↦ rw z (
      change-IsSched (remove_from_sleep s i) i (reclaimed (thread s i))
        (remove_from_sleep-IsSched s i k) h (zombie_not_ready (thread s i).state z) refl)
]

length-reclaim_zombie : (s : Sched) (i : ℕ) → length (reclaim_zombie s i).threads ≡ length s.threads
unfolding reclaim_zombie
length-reclaim_zombie s i = elim (Bool-cases (is_zombie (thread s i).state)) [
  | inr n ↦ rw n refl
  | inl z ↦ rw z (length-set s.threads i (reclaimed (thread s i)))
]

requeue-IsSched : (s : Sched) (i : ℕ) → IsSched s → i < length s.threads → IsSched (requeue s i)
unfolding requeue
requeue-IsSched s i k h =
    elim (Bool-cases
      (is_ready (thread s i).state && (not (is_at s.idle i) && not (thread s i).on_run_queue))) [
        | inl go ↦ rw go (enqueue_ready-IsSched s i k h (ground arith))
        | inr n ↦ rw n k
      ]

pub with_thread-rule :
    {A : Type 0} (P : A → Type 0) (o : Option ℕ) (a : A) (f : ℕ → A)
    → P a
    → ((i : ℕ) → is_at o i ≡ true → P (f i))
    → P (with_thread o a f)
with_thread-rule P none a f h g = h
with_thread-rule P (some i) a f h g = g i (itself_test i)

pub leave-IsSched : (s : Sched) → IsSched s → IsSched (leave s)
unfolding leave
leave-IsSched s k =
    with_thread-rule IsSched s.current s
      (λ i. record (requeue (reclaim_zombie (account_runtime s i) i) i) { current = none }) k
      (λ i at.
        let h : i < length s.threads = k.current_in i at in
        let a = account_runtime s i in
        let ka = account_runtime-IsSched s i k h in
        let z = reclaim_zombie a i in
        let kz = reclaim_zombie-IsSched a i ka (omega (arith, h, length-account_runtime s i)) in
        let kr =
          requeue-IsSched z i kz
            (omega (arith, h, length-account_runtime s i, length-reclaim_zombie a i)) in
        current-IsSched (requeue z i) none kr (λ j e. absurd (ground arith)))

-- A call up to its `context_switch`, and the switch if it gets there
abbrev pub switched : Bool × Sched → Sched
switched (b, s) = if b then leave s else s

abbrev pub Keeps : Bool × Sched → Type 0
Keeps r = IsSched r.1

pub switched-IsSched : (r : Bool × Sched) → IsSched r.1 → IsSched (switched r)
switched-IsSched (true, s) k = leave-IsSched s k
switched-IsSched (false, s) k = k

demoted_mark :
    (demote : Bool) (t : Thread)
    → (if demote then demote_priority t else t).on_run_queue ≡ t.on_run_queue
unfolding demote_priority
demoted_mark false t = refl
demoted_mark true t = elim (Bool-cases (ltb t.dynamic_priority priority_max)) [
  | inl e ↦ rw e refl
  | inr n ↦ rw n refl
]

preempt-IsSched : (demote : Bool) (s : Sched) → IsSched s → IsSched (preempt demote s).1
unfolding preempt
preempt-IsSched demote s k = with_thread-rule Keeps s.current _ _ k (λ i at.
    elim (Bool-cases (is_at s.idle i)) [
      | inl e ↦ rw e k
      | inr n ↦ rw n (
          set_ready-IsSched s i
            (record (if demote then demote_priority (thread s i) else thread s i) { state = ready })
            k (k.current_in i at) (demoted_mark demote (thread s i)) refl)
    ])

run_tick-IsSched : (s : Sched) → IsSched s → IsSched (run_tick s).1
unfolding run_tick
run_tick-IsSched s k = with_thread-rule Keeps s.current _ _ k (λ i at.
    let left = (thread s i).time_slice_remaining - 1 in
    let t : Thread = record (thread s i) { time_slice_remaining = left } in
    let w : Sched = update s i t in
    let kw : IsSched w = update-IsSched s i t k (k.current_in i at) refl (k.are_ready i) in
    elim (Bool-cases (is_at s.idle i)) [
      | inl e ↦ elim (Bool-cases (some_ready s.ready_bitmap)) [
        | inl r ↦ rw (e, r) (preempt-IsSched false s k)
        | inr r ↦ rw (e, r) k
      ]
      | inr n ↦ elim (Bool-cases (left == 0)) [
        | inl z ↦ rw (n, z) (preempt-IsSched true w kw)
        | inr z ↦ rw (n, z) kw
      ]
    ])

pub tick-IsSched : (now : ℕ) (s : Sched) → IsSched s → IsSched (switched (tick now s))
unfolding tick
tick-IsSched now s k = switched-IsSched (tick now s) (elim (Bool-cases s.active) [
  | inl on ↦
      subst Keeps (sym (ap (λ b. if b then run_tick (wake_sleepers now s) else (false, s)) on))
        (run_tick-IsSched (wake_sleepers now s) (wake_sleepers-IsSched now s k))
  | inr off ↦
      subst Keeps (sym (ap (λ b. if b then run_tick (wake_sleepers now s) else (false, s)) off)) k
])
