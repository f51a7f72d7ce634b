-- ===== src/Sched/Queues.antt =====
-- kernel/process.c: a thread is in the run queues once if it is marked so, and not at all otherwise.
pub mod Counts
pub mod Moves
pub mod Choice
pub mod Wakes
pub mod Runs
pub mod Starts
pub mod Steps
use pro_os.Prelude.{
  ℕ, inl, inr, ◌<◌, ◌≡◌, Bool, true, false, not, List, [], ◌∷◌, length, get_or, ◌==◌, if◌then◌else◌,
  arith, Bool-cases, get_or-set_self, get_or-set_ne, ap, sym, ◌∙◌, refl, set, length-set,
}
use pro_os.Sched.{Sched, Thread, thread, update, is_at, is_ready, no_thread, priority_levels}
use pro_os.Sched.Ready.{is_empty, holds, queue}
use pro_os.Sched.Queues.Counts.{total}

-- The queues, their bits and the marks of the threads agree; threads in a queue are READY, and the idle
-- thread is in none.
pub record IsSched (s : Sched) : Type 0 where
  pub room : length s.queues ≡ priority_levels
  pub bits_room : length s.ready_bitmap ≡ priority_levels
  pub bits : (p : ℕ) → get_or s.ready_bitmap p false ≡ not (is_empty (queue s p))
  pub marks : (i : ℕ) → total i s.queues ≡ (if (thread s i).on_run_queue then 1 else 0)
  pub are_ready : (i : ℕ) → (thread s i).on_run_queue ≡ true → is_ready (thread s i).state ≡ true
  pub idle_off : (i : ℕ) → is_at s.idle i ≡ true → (thread s i).on_run_queue ≡ false
  pub idle_in : (i : ℕ) → is_at s.idle i ≡ true → i < length s.threads
  pub current_in : (i : ℕ) → is_at s.current i ≡ true → i < length s.threads
  pub sleepers_in : (i : ℕ) → holds i s.sleepers ≡ true → i < length s.threads

pub thread-update :
    (s : Sched) (i j : ℕ) (t : Thread)
    → i < length s.threads
    → thread (update s i t) j ≡ (if i == j then t else thread s j)
thread-update s i j t h = elim (Bool-cases (i == j)) [
  | inl e ↦
      let k : i ≡ j = ground arith in
      rw e (ap (λ n. thread (update s i t) n) (sym k) ∙ get_or-set_self s.threads i t no_thread h)
  | inr d ↦ rw d (get_or-set_ne s.threads i j t no_thread (λ k. ground arith))
]

-- A change of a thread that keeps its mark
pub update-IsSched :
    (s : Sched) (i : ℕ) (t : Thread)
    → IsSched s
    → i < length s.threads
    → t.on_run_queue ≡ (thread s i).on_run_queue
    → (t.on_run_queue ≡ true → is_ready t.state ≡ true)
    → IsSched (update s i t)
update-IsSched s i t k h m r = record {
  room = k.room;
  bits_room = k.bits_room;
  bits = k.bits;
  marks = λ j. k.marks j ∙ ap (λ b. if b then 1 else 0) (sym (mark_kept j));
  are_ready = λ j on. elim (Bool-cases (i == j)) [
    | inl e ↦ ground (arith, thread-update s i j t h, r)
    | inr d ↦ ground (arith, thread-update s i j t h, k.are_ready j)
  ];
  idle_off = λ j a. mark_kept j ∙ k.idle_off j a;
  idle_in = λ j a. omega (arith, k.idle_in j a, length-set s.threads i t);
  current_in = λ j a. omega (arith, k.current_in j a, length-set s.threads i t);
  sleepers_in = λ j a. omega (arith, k.sleepers_in j a, length-set s.threads i t);
}
  where
    mark_kept : (j : ℕ) → (thread (update s i t) j).on_run_queue ≡ (thread s j).on_run_queue
    mark_kept j = elim (Bool-cases (i == j)) [
      | inl e ↦
          let p : i ≡ j = ground arith in
          ap (λ x. x.on_run_queue) (thread-update s i j t h)
          ∙ rw e (m ∙ ap (λ n. (thread s n).on_run_queue) p)
      | inr d ↦ ap (λ x. x.on_run_queue) (thread-update s i j t h) ∙ rw d refl
    ]
