-- ===== src/Sched/Queues/Wakes.antt =====
-- kernel/process.c: waking and dispatching keep the run queues in order.
use pro_os.Prelude.{
  ℕ, ◌<◌, ◌≡◌, refl, ap, ◌∙◌, true, ◌||◌, inl, inr, Option, none, some, List, [], ◌∷◌, arith, leb,
  ◌==◌, length, length-set, Bool-cases,
}
use pro_os.Sched.{
  Sched, Thread, ready, running, thread, update, is_at, is_ready, is_waiting, boost_priority,
  arm_timeslice,
}
use pro_os.Sched.Ready.{holds, unlink, put_queue, enqueue_ready, select_next, or_else}
use pro_os.Sched.Sleep.{make_ready, wake_from, wake_sleepers, wake, remove_from_sleep}
use pro_os.Sched.Calls.{choose, start, run, dispatch}
use pro_os.Sched.Queues.{IsSched, thread-update, update-IsSched}
use pro_os.Sched.Queues.Moves.{itself_test, enqueue_ready-IsSched, Taken}
use pro_os.Sched.Queues.Choice.{Chosen, select_next_lem}

pub current-IsSched :
    (s : Sched) (c : Option ℕ)
    → IsSched s
    → ((i : ℕ) → is_at c i ≡ true → i < length s.threads)
    → IsSched (record s { current = c })
current-IsSched s c k h = record {
  room = k.room;
  bits_room = k.bits_room;
  bits = k.bits;
  marks = k.marks;
  are_ready = k.are_ready;
  idle_off = k.idle_off;
  idle_in = k.idle_in;
  current_in = h;
  sleepers_in = k.sleepers_in;
}

pub sleepers-IsSched :
    (s : Sched) (l : List ℕ)
    → IsSched s
    → ((i : ℕ) → holds i l ≡ true → i < length s.threads)
    → IsSched (record s { sleepers = l })
sleepers-IsSched s l k h = record {
  room = k.room;
  bits_room = k.bits_room;
  bits = k.bits;
  marks = k.marks;
  are_ready = k.are_ready;
  idle_off = k.idle_off;
  idle_in = k.idle_in;
  current_in = k.current_in;
  sleepers_in = h;
}

-- What `unlink` leaves was there before.
pub holds-unlink : (i j : ℕ) (l : List ℕ) → holds i (unlink j l) ≡ true → holds i l ≡ true
unfolding holds unlink
holds-unlink i j [] h = h
holds-unlink i j (n ∷ l) h = elim (Bool-cases (n == j)) [
  | inl e ↦ ground (arith, e)
  | inr d ↦ ground (arith, d, holds-unlink i j l)
]

pub length-enqueue_ready :
    (s : Sched) (i : ℕ) → length (enqueue_ready s i).threads ≡ length s.threads
unfolding enqueue_ready put_queue
length-enqueue_ready s i = elim (Bool-cases (is_at s.idle i || (thread s i).on_run_queue)) [
  | inl skip ↦ rw skip refl
  | inr go ↦ rw go (length-set s.threads i (record (thread s i) { on_run_queue = true }))
]

-- A thread that becomes READY and goes into its queue
pub set_ready-IsSched :
    (s : Sched) (i : ℕ) (t : Thread)
    → IsSched s
    → i < length s.threads
    → t.on_run_queue ≡ (thread s i).on_run_queue
    → is_ready t.state ≡ true
    → IsSched (enqueue_ready (update s i t) i)
set_ready-IsSched s i t k h m r =
    enqueue_ready-IsSched (update s i t) i (update-IsSched s i t k h m (λ on. r))
      (omega (arith, h, length-set s.threads i t))
      (ap (λ x. is_ready x.state) (thread-update s i i t h) ∙ rw (itself_test i) r)

pub make_ready-IsSched :
    (s : Sched) (i : ℕ) → IsSched s → i < length s.threads → IsSched (make_ready s i)
unfolding make_ready boost_priority
make_ready-IsSched s i k h =
    set_ready-IsSched s i (record (boost_priority (thread s i)) { state = ready }) k h refl refl

pub length-make_ready : (s : Sched) (i : ℕ) → length (make_ready s i).threads ≡ length s.threads
unfolding make_ready
length-make_ready s i =
    length-enqueue_ready (update s i (record (boost_priority (thread s i)) { state = ready })) i
    ∙ length-set s.threads i (record (boost_priority (thread s i)) { state = ready })

pub wake_from-IsSched :
    (now : ℕ) (l : List ℕ) (s : Sched)
    → IsSched s
    → ((i : ℕ) → holds i l ≡ true → i < length s.threads)
    → IsSched (wake_from now l s)
unfolding wake_from holds
wake_from-IsSched now [] s k h = sleepers-IsSched s [] k h
wake_from-IsSched now (i ∷ is) s k h = elim (Bool-cases (leb (thread s i).wake_deadline now)) [
  | inr late ↦ rw (late, wake_from) (sleepers-IsSched s (i ∷ is) k h)
  | inl due ↦
      let h' : ((j : ℕ) → holds j is ≡ true → j < length s.threads) = λ j x. h j (ground arith) in
      let here : i < length s.threads = h i (ground arith) in
      let t : Thread = record (thread s i) { wake_deadline = 0 } in
      let w : Sched = update (record s { sleepers = is }) i t in
      let kw : IsSched w =
        update-IsSched (record s { sleepers = is }) i t (sleepers-IsSched s is k h') here refl
          (k.are_ready i) in
      rw (due, wake_from)
        (wake_from-IsSched now is (make_ready w i)
          (make_ready-IsSched w i kw (omega (arith, length-set s.threads i t)))
          (λ j x. omega (arith, h' j x, length-make_ready w i, length-set s.threads i t)))
]

pub wake_sleepers-IsSched : (now : ℕ) (s : Sched) → IsSched s → IsSched (wake_sleepers now s)
wake_sleepers-IsSched now s k = wake_from-IsSched now s.sleepers s k k.sleepers_in

pub remove_from_sleep-IsSched : (s : Sched) (i : ℕ) → IsSched s → IsSched (remove_from_sleep s i)
remove_from_sleep-IsSched s i k =
    sleepers-IsSched s (unlink i s.sleepers) k
      (λ j x. k.sleepers_in j (holds-unlink j i s.sleepers x))

pub wake-IsSched : (s : Sched) (i : ℕ) → IsSched s → i < length s.threads → IsSched (wake s i)
unfolding wake
wake-IsSched s i k h = elim (Bool-cases (is_waiting (thread s i).state)) [
  | inl w ↦ rw w (make_ready-IsSched (remove_from_sleep s i) i (remove_from_sleep-IsSched s i k) h)
  | inr n ↦ rw n k
]

start-IsSched : (s : Sched) (i : ℕ) → Taken s i → IsSched (start s i)
unfolding start arm_timeslice
start-IsSched s i t =
    current-IsSched (update s i new) (some i)
      (update-IsSched s i new t.good t.in_table refl (λ on. absurd (ground (arith, t.off))))
      (λ j e. ground (arith, length-set s.threads i new, t.in_table))
  where
    new : Thread
    new = arm_timeslice (record (thread s i) { state = running })

run_idle-IsSched : (o : Option ℕ) (s : Sched) → IsSched s → s.idle ≡ o → IsSched (run (o, s))
run_idle-IsSched none s k e = k
run_idle-IsSched (some i) s k e =
    let at : is_at s.idle i ≡ true = ap (λ o. is_at o i) e ∙ itself_test i in
    start-IsSched s i (record { good = k; off = k.idle_off i at; in_table = k.idle_in i at })

run-IsSched : (r : Option ℕ × Sched) → Chosen r → IsSched (run (or_else r (λ w. (w.idle, w))))
run-IsSched (some i, w) t = start-IsSched w i t
run-IsSched (none, w) k = run_idle-IsSched w.idle w k refl

pub dispatch-IsSched : (now : ℕ) (s : Sched) → IsSched s → IsSched (dispatch now s)
unfolding dispatch choose
dispatch-IsSched now s k =
    run-IsSched (select_next (wake_sleepers now s))
      (select_next_lem (wake_sleepers now s) (wake_sleepers-IsSched now s k)).0
