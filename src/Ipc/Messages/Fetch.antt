-- ===== src/Ipc/Messages/Fetch.antt =====
-- kernel/ipc.c, the search of `ipc_recv`: which message it finds, and which it drops.
use pro_os.Prelude.{
  ℕ, zero, suc, ◌+◌, ◌<◌, ◌≡◌, refl, ap, sym, ◌∙◌, Bool, true, false, not, inl, inr, Option, none,
  some, List, [], ◌∷◌, arith, length, length-take, if◌then◌else◌, Bool-cases, Option-cases,
}
use pro_os.Prelude.Arrays.{first}
use pro_os.Prelude.Int.{ℤ}
use pro_os.Ipc.Process.{Slot, Process, right_recv}
use pro_os.Ipc.Caps.{check}
use pro_os.Ipc.Mailbox.{try_dequeue, matches}
use pro_os.Ipc.Mailbox.Queue.{IsValid, queue, try_dequeue_refines}
use pro_os.Ipc.Mailbox.Waiters.{waiting}
use pro_os.Ipc.Messages.{Fetched, got, nothing, fetch}

-- The specification, in one walk over the queue: messages from other sources stay, and those from the
-- source that are not allowed go, up to the first that is.
pub select : (Slot → Bool) → (Slot → Bool) → List Slot → Option Slot × List Slot
select from allowed [] = (none, [])
select from allowed (s ∷ q) =
    let (found, rest) = select from allowed q in
    if not (from s) then (found, s ∷ rest) else if allowed s then (some s, q) else (found, rest)

abbrev pub allowed : Process → Slot → Bool
allowed p s = check p s.sender right_recv

first-select-none :
    (from ok : Slot → Bool) (q r : List Slot)
    → first from q ≡ (none, r)
    → select from ok q ≡ (none, q)
unfolding first select
first-select-none from ok [] r e = refl
first-select-none from ok (s ∷ q) r e = ground (arith, first-select-none from ok q (first from q).1)

first_none_rest :
    (from : Slot → Bool) (q : List Slot) → (first from q).0 ≡ none → (first from q).1 ≡ q
unfolding first
first_none_rest from [] e = refl
first_none_rest from (s ∷ q) e = ground (arith, first_none_rest from q)

first-select-some :
    (from ok : Slot → Bool) (q r : List Slot) (s : Slot)
    → first from q ≡ (some s, r)
    → (select from ok q ≡ (if ok s then (some s, r) else select from ok r))
      × (length r + 1 ≡ length q)
unfolding first select
first-select-some from ok [] r s e = ground arith
first-select-some from ok (x ∷ q) r s e =
    ground (arith, first-select-some from ok q (first from q).1 s)

-- The result of a search as the specification states it.
abbrev pub answer : Option Slot → Fetched
answer none = nothing
answer (some s) = got s

-- What the search leaves of the process: another mailbox, valid and with the same waiters.
pub record Searched (p : Process) (source : ℤ) (r : Fetched × Process) : Type 0 where
  pub valid : IsValid r.1.mailbox
  pub same_waiters : waiting r.1.mailbox ≡ waiting p.mailbox
  pub only_mailbox : r.1 ≡ record p { mailbox = r.1.mailbox }
  pub found : r.0 ≡ answer (select (matches source) (allowed p) (queue p.mailbox)).0
  pub left : queue r.1.mailbox ≡ (select (matches source) (allowed p) (queue p.mailbox)).1

pub length-queue : (p : Process) → IsValid p.mailbox → length (queue p.mailbox) ≡ p.mailbox.count
length-queue p v = omega (arith, length-take p.mailbox.count p.mailbox.slots, v.room, v.bounded)

-- One turn that finds nothing, a message that is allowed, or one that is not.
module _ (source : ℤ) (p : Process) (v : IsValid p.mailbox) where
  abbrev rest : Process
  rest = record p { mailbox = (try_dequeue source p.mailbox).1 }

  turn_none : (try_dequeue source p.mailbox).0 ≡ none → Searched p source (nothing, rest)
  turn_none e =
      let t = try_dequeue_refines source p.mailbox v in
      let none_first =
        first-select-none (matches source) (allowed p) (queue p.mailbox) (queue rest.mailbox)
          (sym t.1 ∙ ap (λ o. (o, queue rest.mailbox)) e) in
      record {
        valid = t.0;
        same_waiters = t.2;
        only_mailbox = refl;
        found = ap (λ r. answer r.0) (sym none_first);
        left =
            ground (arith, none_first, t.1, first_none_rest (matches source) (queue p.mailbox), e);
      }

  turn_some :
      (s : Slot)
      → (try_dequeue source p.mailbox).0 ≡ some s
      → (select (matches source) (allowed p) (queue p.mailbox) ≡ (
          if allowed p s
          then (some s, queue rest.mailbox)
          else select (matches source) (allowed p) (queue rest.mailbox)))
        × (length (queue rest.mailbox) + 1 ≡ length (queue p.mailbox))
  turn_some s e =
      let t = try_dequeue_refines source p.mailbox v in
      first-select-some (matches source) (allowed p) (queue p.mailbox) (queue rest.mailbox) s
        (sym t.1 ∙ ap (λ o. (o, queue rest.mailbox)) e)

  select-allowed :
      (s : Slot)
      → (try_dequeue source p.mailbox).0 ≡ some s
      → allowed p s ≡ true
      → select (matches source) (allowed p) (queue p.mailbox) ≡ (some s, queue rest.mailbox)
  select-allowed s e good = rw ((turn_some s e).0, good) refl

  select-refused :
      (s : Slot)
      → (try_dequeue source p.mailbox).0 ≡ some s
      → allowed p s ≡ false
      → select (matches source) (allowed p) (queue p.mailbox)
        ≡ select (matches source) (allowed rest) (queue rest.mailbox)
  unfolding check
  select-refused s e bad = rw ((turn_some s e).0, bad) refl

pub fetch-Searched :
    (n : ℕ) (source : ℤ) (p : Process)
    → IsValid p.mailbox
    → length (queue p.mailbox) < n
    → Searched p source (fetch n source p)
unfolding fetch
fetch-Searched zero source p v h = absurd (omega arith)
fetch-Searched (suc n) source p v h =
    let t = try_dequeue_refines source p.mailbox v in
    elim (Option-cases (try_dequeue source p.mailbox).0) [
      | inl e ↦ rw (e, fetch) (turn_none source p v e)
      | inr (s, e) ↦ elim (Bool-cases (allowed p s)) [
        | inl good ↦
            let sel = select-allowed source p v s e good in
            rw (e, fetch)
              (rw good (record {
                valid = t.0;
                same_waiters = t.2;
                only_mailbox = refl;
                found = ap (λ r. answer r.0) (sym sel);
                left = ap (λ r. r.1) (sym sel);
              }))
        | inr bad ↦
            let sel = select-refused source p v s e bad in
            let ih =
              fetch-Searched n source (rest source p v) t.0
                (omega (arith, (turn_some source p v s e).1, h)) in
            rw (e, fetch)
              (rw bad (record {
                valid = ih.valid;
                same_waiters = ih.same_waiters ∙ t.2;
                only_mailbox = ih.only_mailbox;
                found = ih.found ∙ ap (λ r. answer r.0) (sym sel);
                left = ih.left ∙ ap (λ r. r.1) (sym sel);
              }))
      ]
    ]
