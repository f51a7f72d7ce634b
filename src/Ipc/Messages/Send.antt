-- ===== src/Ipc/Messages/Send.antt =====
-- kernel/ipc.c: `ipc_send` on every branch.
use pro_os.Prelude.{
  ℕ, ◌≤◌, ◌≡◌, refl, ap, Bool, true, false, ◌⊎◌, inl, inr, Option, none, some, List, [], ◌∷◌, ◌++◌,
  arith, length, get_or, set, take, Bool-cases, Option-cases, if◌then◌else◌,
}
use pro_os.Prelude.Arrays.{All, All-get_or}
use pro_os.Prelude.Int.{ℤ, pos, is_positive, failure}
use pro_os.Ipc.Process.{
  Process, no_process, msg_queue_len, msg_data_max, invalid_pid, lookup, lookup-set,
}
use pro_os.Ipc.Mailbox.{enqueue}
use pro_os.Ipc.Mailbox.Queue.{IsValid, messages, enqueue_refines, empty-IsValid}
use pro_os.Ipc.Mailbox.Waiters.{waiting}
use pro_os.Ipc.Messages.{valid_send, bytes_of, may_send, sender_pid, deliver, send}

-- What a message to the process at `t` does to the process.
pub record Takes (sender : ℤ) (bytes : List ℕ) (size : ℕ) (p p' : Process) (wake : ℤ) : Type 0 where
  pub valid : IsValid p'.mailbox
  pub only_mailbox : p' ≡ record p { mailbox = p'.mailbox }
  pub appended : messages p'.mailbox ≡ messages p.mailbox ++ (sender, take size bytes) ∷ []
  pub woken :
      ((waiting p.mailbox ≡ []) × (wake ≡ invalid_pid) × (waiting p'.mailbox ≡ []))
      ⊎ (waiting p.mailbox ≡ wake ∷ waiting p'.mailbox)

-- How `ipc_send` ends: the code, the process to wake and the processes.
pub data Sends (initialized : Bool) (target : ℤ) (msg : Option (List ℕ)) (size : ℕ)
    (current : Option ℕ) (procs : List Process) : ℤ × Option ℕ × List Process → Type 0 where
  invalid :
      valid_send initialized target msg size ≡ false
      → Sends initialized target msg size current procs (failure, none, procs)
  no_target :
      lookup target procs ≡ none
      → Sends initialized target msg size current procs (failure, none, procs)
  forbidden :
      may_send current target procs ≡ false
      → Sends initialized target msg size current procs (failure, none, procs)
  full :
      {t : ℕ}
      → lookup target procs ≡ some t
      → (get_or procs t no_process).mailbox.count ≡ msg_queue_len
      → Sends initialized target msg size current procs (failure, none, procs)
  sent :
      {t : ℕ} {p' : Process} {wake : ℤ} {to_wake : Option ℕ}
      → may_send current target procs ≡ true
      → lookup target procs ≡ some t
      → Takes (sender_pid current procs) (bytes_of msg) size (get_or procs t no_process) p' wake
      → to_wake ≡ (if is_positive wake then lookup wake procs else none)
      → Sends initialized target msg size current procs (pos size, to_wake, set procs t p')

-- The last part, on a target that has been found.
deliver-Sends :
    (ini : Bool) (target : ℤ) (msg : Option (List ℕ)) (size : ℕ) (current : Option ℕ)
    (procs : List Process) (t : ℕ)
    → IsValid (get_or procs t no_process).mailbox
    → size ≤ msg_data_max
    → size ≤ length (bytes_of msg)
    → may_send current target procs ≡ true
    → lookup target procs ≡ some t
    → Sends ini target msg size current procs
        (deliver (sender_pid current procs) (bytes_of msg) size t procs)
unfolding deliver
deliver-Sends ini target msg size current procs t v fits given may l =
    let p : Process = get_or procs t no_process in
    let e =
      enqueue_refines (sender_pid current procs) (bytes_of msg) size 0 p.mailbox v fits given in
    let r = enqueue (sender_pid current procs) (bytes_of msg) size 0 p.mailbox in
    let p' : Process = record p { mailbox = r.2 } in
    elim e.1 [
      | inl (done, is_full, same, code) ↦ rw done (full l is_full)
      | inr (done, appended, woken) ↦ rw done (
          sent may l
            (record { valid = e.0; only_mailbox = refl; appended = appended; woken = woken })
            (ap (λ o. if is_positive r.1 then o else none) (lookup-set r.1 procs t p' refl refl)))
    ]

valid_send_fits :
    (ini : Bool) (target : ℤ) (msg : Option (List ℕ)) (size : ℕ)
    → valid_send ini target msg size ≡ true
    → ((b : List ℕ) → msg ≡ some b → size ≤ length b)
    → (size ≤ msg_data_max) × (size ≤ length (bytes_of msg))
unfolding valid_send
valid_send_fits ini target none size ok given = ground arith
valid_send_fits ini target (some b) size ok given = let g = given b refl in ground arith

-- `ipc_send` fails only for bad arguments, an unknown target, a sender without the right or a mailbox
-- with sixteen messages, and then changes nothing; otherwise it returns the size, the
-- message joins the end of the target's queue with the sender's pid, and the target's oldest waiter
-- leaves the wait queue and is woken if it is still in the process table.
pub send_lem :
    (ini : Bool) (target : ℤ) (msg : Option (List ℕ)) (size : ℕ) (current : Option ℕ)
    (procs : List Process)
    → All (λ p. IsValid p.mailbox) procs
    → ((b : List ℕ) → msg ≡ some b → size ≤ length b)
    → Sends ini target msg size current procs (send ini target msg size current procs)
unfolding send
send_lem ini target msg size current procs vs given =
    elim (Bool-cases (valid_send ini target msg size)) [
      | inr bad ↦ rw bad (invalid bad)
      | inl ok ↦ elim (Option-cases (lookup target procs)) [
        | inl l ↦ rw (ok, l) (no_target l)
        | inr (t, l) ↦ elim (Bool-cases (may_send current target procs)) [
          | inr denied ↦ rw (ok, l) (rw denied (forbidden denied))
          | inl may ↦
              let v = All-get_or (λ p. IsValid p.mailbox) procs t no_process vs empty-IsValid in
              let f = valid_send_fits ini target msg size ok given in
              rw (ok, l)
                (rw may (deliver-Sends ini target msg size current procs t v f.0 f.1 may l))
        ]
      ]
    ]
