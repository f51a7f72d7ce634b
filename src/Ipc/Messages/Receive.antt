-- ===== src/Ipc/Messages/Receive.antt =====
-- kernel/ipc.c: a round of `ipc_recv`, from the search to the return or the block.
use pro_os.Prelude.{
  ℕ, suc, ◌<◌, ◌≡◌, refl, ap, sym, ◌∙◌, true, false, ◌⊎◌, inl, inr, Option, none, some, [], ◌∷◌,
  ◌++◌, arith, length, length-take, take, min,
}
use pro_os.Prelude.Int.{ℤ, pos, is_positive, failure}
use pro_os.Ipc.Process.{Slot, Mailbox, Process, Kind, kernel, user, endpoint_waiters}
use pro_os.Ipc.Mailbox.{matches, is_waiting, push_waiter}
use pro_os.Ipc.Mailbox.Queue.{IsValid, queue, IsValid-of_slots}
use pro_os.Ipc.Mailbox.Waiters.{waiting, push_waiter_lem}
use pro_os.Ipc.Messages.{nothing, fetch, Received, returns, blocks, finish, recv_round}
use pro_os.Ipc.Messages.Fetch.{select, allowed, answer, fetch-Searched, length-queue}

-- The result of a round, given what the specification's search finds.
pub data Ends (p : Process) (max : ℕ) : Option Slot → Received × Process → Type 0 where
  delivered :
      {s : Slot} {p' : Process}
      → p'.ipc_waiting ≡ false
      → waiting p'.mailbox ≡ waiting p.mailbox
      → Ends p max (some s) (returns (pos s.size) (take (min s.size max) s.bytes), p')
  polled :
      {p' : Process}
      → p.kind ≡ kernel
      → waiting p'.mailbox ≡ waiting p.mailbox
      → Ends p max none (returns (pos 0) [], p')
  joined :
      {p' : Process}
      → p.kind ≡ user
      → p'.ipc_waiting ≡ true
      → waiting p'.mailbox ≡ waiting p.mailbox ++ p.pid ∷ []
      → Ends p max none (blocks, p')
  stayed :
      {p' : Process}
      → p.kind ≡ user
      → p'.ipc_waiting ≡ true
      → waiting p'.mailbox ≡ waiting p.mailbox
      → is_waiting p'.mailbox.waiters p'.mailbox.waiter_count p.pid ≡ true
      → Ends p max none (blocks, p')
  refused :
      {p' : Process}
      → p.kind ≡ user
      → ((is_positive p.pid ≡ false) ⊎ (length (waiting p.mailbox) ≡ endpoint_waiters))
      → waiting p'.mailbox ≡ waiting p.mailbox
      → Ends p max none (returns failure [], p')

Kind-cases : (k : Kind) → (k ≡ kernel) ⊎ (k ≡ user)
Kind-cases kernel = inl refl
Kind-cases user = inr refl

module _ (max : ℕ) (p q : Process) (v : IsValid q.mailbox)
    (w : waiting q.mailbox ≡ waiting p.mailbox) where
  -- The state after the search, of a user process with nothing to receive, when it queues itself.
  block-Ends :
      q.kind ≡ user
      → q.pid ≡ p.pid
      → p.kind ≡ user
      → IsValid (finish max (nothing, q)).1.mailbox
        × (queue (finish max (nothing, q)).1.mailbox ≡ queue q.mailbox)
        × Ends p max none (finish max (nothing, q))
  unfolding finish
  block-Ends k i kp =
      let b = push_waiter_lem q.pid q.mailbox v.waiters in
      let m : Mailbox = (push_waiter q.pid q.mailbox).1 in
      let valid = IsValid-of_slots q.mailbox m v b.0 b.1 b.2 in
      let same : queue m ≡ queue q.mailbox = rw (b.1, b.2) refl in
      elim b.3 [
        | inl (done, unchanged, why) ↦
            rw (k, done)
              (
                valid,
                same,
                refused kp
                    (elim why [
                      | inl bad_pid ↦ inl (rw (sym i) bad_pid)
                      | inr full ↦ inr (
                          rw (sym w) (
                            omega (
                              arith,
                              length-take q.mailbox.waiter_count q.mailbox.waiters,
                              full,
                              v.waiters.room,
                            )))
                    ])
                    (ap waiting unchanged ∙ w),
              )
        | inr (inl (done, unchanged, there)) ↦
            rw (k, done)
              (valid, same, stayed kp refl (ap waiting unchanged ∙ w) (rw (unchanged, sym i) there))
        | inr (inr (done, appended)) ↦
            rw (k, done) (valid, same, joined kp refl (appended ∙ (rw (w, i) refl)))
      ]

  finish-Ends :
      (found : Option Slot)
      → q.kind ≡ p.kind
      → q.pid ≡ p.pid
      → IsValid (finish max (answer found, q)).1.mailbox
        × (queue (finish max (answer found, q)).1.mailbox ≡ queue q.mailbox)
        × Ends p max found (finish max (answer found, q))
  unfolding finish
  finish-Ends (some s) k i = (v, refl, delivered refl w)
  finish-Ends none k i = elim (Kind-cases p.kind) [
    | inl is_kernel ↦ rw (k ∙ is_kernel) (v, refl, polled is_kernel w)
    | inr is_user ↦ block-Ends (k ∙ is_user) i is_user
  ]

-- A round of `ipc_recv` always ends, and ends as the specification's search says: with the first
-- message from the source that the process may receive, its bytes cut to the buffer, and the
-- refused messages before it dropped; where there is none, the kernel polls and a user process blocks in
-- the wait queue, or fails if its pid is not positive or the wait queue is full.
pub recv_round_lem :
    (source : ℤ) (max : ℕ) (p : Process)
    → IsValid p.mailbox
    → let (found, left) = select (matches source) (allowed p) (queue p.mailbox) in
      let r = recv_round source max p in
      IsValid r.1.mailbox × (queue r.1.mailbox ≡ left) × Ends p max found r
unfolding recv_round
recv_round_lem source max p v =
    let n : length (queue p.mailbox) < suc p.mailbox.count = omega (arith, length-queue p v) in
    let s = fetch-Searched (suc p.mailbox.count) source p v n in
    let q : Process = (fetch (suc p.mailbox.count) source p).1 in
    let found : Option Slot = (select (matches source) (allowed p) (queue p.mailbox)).0 in
    let e : fetch (suc p.mailbox.count) source p ≡ (answer found, q) = ap (λ f. (f, q)) s.found in
    let f =
      finish-Ends max p q s.valid s.same_waiters found (ap (λ x. x.kind) s.only_mailbox)
        (ap (λ x. x.pid) s.only_mailbox) in
    rw e (f.0, f.1 ∙ s.left, f.2)
