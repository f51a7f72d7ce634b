-- ===== src/Sched/Queues/Moves.antt =====
-- kernel/process.c: putting threads into the run queues and taking them out.
use pro_os.Prelude.{
  ℕ, zero, suc, ◌+◌, ◌<◌, ◌≡◌, ◌≢◌, refl, ap, sym, subst, ◌∙◌, Bool, true, false, not, ◌||◌, inl,
  inr, List, [], ◌∷◌, ◌++◌, arith, ◌==◌, if◌then◌else◌, length, length-set, get_or, set, Bool-cases,
  Option-cases, get_or-set_self, get_or-set_ne,
}
use pro_os.Prelude.Arrays.{find_index, find_index-Found}
use pro_os.Sched.{
  Sched, Thread, thread, is_at, is_ready, no_thread, priority_levels, clamp_priority,
}
use pro_os.Sched.Ready.{
  is_empty, holds, unlink, queue, put_queue, mark, enqueue_ready, remove_from_ready,
}
use pro_os.Sched.Queues.{IsSched, thread-update}
use pro_os.Sched.Queues.Counts.{
  one_if, total, occurrences, occurrences-snoc, occurrences-unlink, total-set, total-get_or,
  total-none,
}

pub itself_test : (i : ℕ) → (i == i) ≡ true
itself_test i = ground arith

-- A thread goes into a queue or out of it, with its mark.
module _ (s : Sched) (p i : ℕ) (q : List ℕ) (b : Bool) (k : IsSched s)
    (in_levels : p < priority_levels) (in_table : i < length s.threads)
    (others : (j : ℕ) → (i == j) ≡ false → occurrences j q ≡ occurrences j (queue s p))
    (itself : occurrences i q + one_if (thread s i).on_run_queue
      ≡ occurrences i (queue s p) + one_if b)
    (is_fit : b ≡ true → is_ready (thread s i).state ≡ true)
    (not_idle : b ≡ true → is_at s.idle i ≡ false) where
  abbrev after : Sched
  after = mark b (put_queue s p q) i

  at :
      (j : ℕ)
      → thread after j ≡ (if i == j then record (thread s i) { on_run_queue = b } else thread s j)
  unfolding put_queue
  at j = thread-update (put_queue s p q) i j (record (thread s i) { on_run_queue = b }) in_table

  in_queues : p < length s.queues
  in_queues = omega (arith, k.room)

  marks : (j : ℕ) → total j (set s.queues p q) ≡ one_if (thread after j).on_run_queue
  marks j = elim (Bool-cases (i == j)) [
    | inl e ↦
        let same : i ≡ j = ground arith in
        subst (λ n. total n (set s.queues p q) ≡ one_if (thread after n).on_run_queue) same
          (rw (at i, itself_test i)
            (omega (arith, total-set i p q s.queues in_queues, itself, k.marks i)))
    | inr d ↦
        rw (at j, d) (omega (arith, total-set j p q s.queues in_queues, others j d, k.marks j))
  ]

  bits : (n : ℕ) → get_or after.ready_bitmap n false ≡ not (is_empty (queue after n))
  unfolding put_queue
  bits n = elim (Bool-cases (p == n)) [
    | inl e ↦
        let same : p ≡ n = ground arith in
        subst (λ n. get_or after.ready_bitmap n false ≡ not (is_empty (queue after n))) same
          (get_or-set_self s.ready_bitmap p (not (is_empty q)) false (omega (arith, k.bits_room))
            ∙ ap (λ x. not (is_empty x)) (sym (get_or-set_self s.queues p q [] in_queues)))
    | inr d ↦
        let apart : p ≢ n = λ e. ground arith in
        get_or-set_ne s.ready_bitmap p n (not (is_empty q)) false apart
        ∙ k.bits n
        ∙ ap (λ x. not (is_empty x)) (sym (get_or-set_ne s.queues p n q [] apart))
  ]

  pub mark-IsSched : IsSched (mark b (put_queue s p q) i)
  unfolding put_queue
  mark-IsSched = record {
    room = length-set s.queues p q ∙ k.room;
    bits_room = length-set s.ready_bitmap p (not (is_empty q)) ∙ k.bits_room;
    bits = bits;
    marks = marks;
    are_ready = λ j on. elim (Bool-cases (i == j)) [
      | inl e ↦ ground (arith, at j, is_fit)
      | inr d ↦ ground (arith, at j, k.are_ready j)
    ];
    idle_off = λ j a. elim (Bool-cases (i == j)) [
      | inl e ↦
          let same : i ≡ j = ground arith in
          elim (Bool-cases b) [
            | inl t ↦ absurd (ground (arith, not_idle t, ap (is_at s.idle) same))
            | inr f ↦ ground (arith, at j)
          ]
      | inr d ↦ ground (arith, at j, k.idle_off j a)
    ];
    idle_in = λ j a.
        omega
          (arith, k.idle_in j a, length-set s.threads i (record (thread s i) { on_run_queue = b }));
    current_in = λ j a. omega (
      arith,
      k.current_in j a,
      length-set s.threads i (record (thread s i) { on_run_queue = b }),
    );
    sleepers_in = λ j a. omega (
      arith,
      k.sleepers_in j a,
      length-set s.threads i (record (thread s i) { on_run_queue = b }),
    );
  }

clamp-lt : (n : ℕ) → clamp_priority n < priority_levels
unfolding clamp_priority
clamp-lt n = ground arith

pub enqueue_ready-IsSched :
    (s : Sched) (i : ℕ)
    → IsSched s
    → i < length s.threads
    → is_ready (thread s i).state ≡ true
    → IsSched (enqueue_ready s i)
unfolding enqueue_ready
enqueue_ready-IsSched s i k h r = elim (Bool-cases (is_at s.idle i || (thread s i).on_run_queue)) [
  | inl skip ↦ rw skip k
  | inr go ↦
      let p = clamp_priority (thread s i).dynamic_priority in
      rw go (
        mark-IsSched s p i (queue s p ++ i ∷ []) true k (clamp-lt (thread s i).dynamic_priority) h
          (λ j d. ground (arith, occurrences-snoc j i (queue s p)))
          (ground (arith, occurrences-snoc i i (queue s p))) (λ b. r) (λ b. ground arith))
]

-- Whoever is in a queue is in the table and marked.
pub queued :
    (s : Sched) (i p : ℕ)
    → IsSched s
    → 0 < occurrences i (queue s p)
    → (thread s i).on_run_queue ≡ true
queued s i p k h = elim (Bool-cases (thread s i).on_run_queue) [
  | inl on ↦ on
  | inr off ↦ absurd (ground (arith, total-get_or i p s.queues, k.marks i))
]

marked-lt : (ts : List Thread) (i : ℕ) → (get_or ts i no_thread).on_run_queue ≡ true → i < length ts
unfolding no_thread
marked-lt [] i h = ground arith
marked-lt (t ∷ ts) zero h = omega arith
marked-lt (t ∷ ts) (suc i) h = omega (arith, marked-lt ts i h)

-- What a queue gives up: a thread that is in the table, and in no queue any more.
pub record Taken (s : Sched) (i : ℕ) : Type 0 where
  pub good : IsSched s
  pub off : (thread s i).on_run_queue ≡ false
  pub in_table : i < length s.threads

pub take-Taken :
    (s : Sched) (p i : ℕ) (q : List ℕ)
    → IsSched s
    → p < priority_levels
    → ((j : ℕ) → occurrences j q + one_if (i == j) ≡ occurrences j (queue s p))
    → Taken (mark false (put_queue s p q) i) i
unfolding put_queue
take-Taken s p i q k h o =
    let on = queued s i p k (ground (arith, o i)) in
    let t = marked-lt s.threads i on in
    let new : Thread = record (thread s i) { on_run_queue = false } in
    record {
      good =
          mark-IsSched s p i q false k h t (λ j d. ground (arith, o j)) (ground (arith, o i))
            (λ b. ground arith) (λ b. ground arith);
      off =
          ap (λ x. x.on_run_queue) (thread-update (put_queue s p q) i i new t)
          ∙ rw (itself_test i) refl;
      in_table = omega (arith, length-set s.threads i new);
    }

pub remove_from_ready-Taken :
    (s : Sched) (i : ℕ)
    → IsSched s
    → (thread s i).on_run_queue ≡ true
    → Taken (remove_from_ready s i) i
unfolding remove_from_ready
remove_from_ready-Taken s i k on = elim (Option-cases (find_index (holds i) s.queues)) [
  | inl e ↦ absurd (ground (arith, total-none i s.queues e, k.marks i))
  | inr (p, e) ↦
      let f = find_index-Found (holds i) s.queues p e in
      rw (e, remove_from_ready)
        (take-Taken s p i (unlink i (queue s p)) k (omega (arith, f.in_table, k.room))
          (λ j. occurrences-unlink j i (queue s p) (f.passes [])))
]
