-- ===== src/Ipc/Messages.antt =====
-- kernel/ipc.c: `ipc_send` and `ipc_recv`. The current process is the index that `process_current()`
-- gives, `none` for NULL. `ipc_recv` is given by its rounds: one pass through its `for (;;)`, up to a
-- return or to `process_block_current`.
pub mod Fetch
pub mod Receive
pub mod Send
mod Tests
use pro_os.Prelude.{
  ℕ, zero, suc, ◌+◌, Bool, true, false, not, ◌&&◌, ◌||◌, Option, none, some, List, [], ltb, ◌==◌,
  if◌then◌else◌, get_or, set, take, min,
}
use pro_os.Prelude.Int.{ℤ, pos, is_positive, failure}
use pro_os.Ipc.Process.{
  Slot, Process, Kind, kernel, user, no_process, msg_data_max, right_send, right_recv, lookup,
}
use pro_os.Ipc.Caps.{check}
use pro_os.Ipc.Mailbox.{try_dequeue, enqueue, push_waiter}

abbrev pub is_null : Option (List ℕ) → Bool
is_null none = true
is_null (some bytes) = false

-- The checks of `ipc_send` on its arguments; `msg` is `none` for NULL.
pub valid_send : Bool → ℤ → Option (List ℕ) → ℕ → Bool
valid_send initialized target msg size =
    initialized
    && (is_positive target && (not (ltb msg_data_max size) && not (ltb 0 size && is_null msg)))

-- The bytes of the message, where there are any.
abbrev pub bytes_of : Option (List ℕ) → List ℕ
bytes_of none = []
bytes_of (some bytes) = bytes

-- Whether the sender may send; a call outside any process may.
pub may_send : Option ℕ → ℤ → List Process → Bool
may_send none target procs = true
may_send (some i) target procs = check (get_or procs i no_process) target right_send

pub sender_pid : Option ℕ → List Process → ℤ
sender_pid none procs = pos 0
sender_pid (some i) procs = (get_or procs i no_process).pid

-- `mailbox_enqueue` on the target: the code, the process to wake, the processes. The intermediate
-- copy of the message in `ipc_send` has the same bytes.
pub deliver : ℤ → List ℕ → ℕ → ℕ → List Process → ℤ × Option ℕ × List Process
deliver sender bytes size t procs =
    let target = get_or procs t no_process in
    let (done, wake, m) = enqueue sender bytes size 0 target.mailbox in
    let procs' = set procs t (record target { mailbox = m }) in
    if done
    then (pos size, (if is_positive wake then lookup wake procs' else none), procs')
    else (failure, none, procs)

-- `ipc_send`
pub send : Bool → ℤ → Option (List ℕ) → ℕ → Option ℕ → List Process → ℤ × Option ℕ × List Process
send initialized target msg size current procs =
    if not (valid_send initialized target msg size)
    then (failure, none, procs)
    else elim (lookup target procs) [
      | none ↦ (failure, none, procs)
      | some t ↦
          if not (may_send current target procs)
          then (failure, none, procs)
          else deliver (sender_pid current procs) (bytes_of msg) size t procs
    ]

-- What the inner part of the loop of `ipc_recv` finds: a message that the process may receive, no
-- message from the source, or no end of the search within the fuel.
pub data Fetched : Type 0 where
  got : Slot → Fetched
  nothing : Fetched
  exhausted : Fetched

-- Messages that the process may not receive are dropped, one on each turn of the loop.
pub fetch : ℕ → ℤ → Process → Fetched × Process
fetch zero source p = (exhausted, p)
fetch (suc n) source p =
    let (found, m) = try_dequeue source p.mailbox in
    elim found [
      | none ↦ (nothing, record p { mailbox = m })
      | some s ↦ elim (check p s.sender right_recv) [
        | true ↦ (got s, record p { mailbox = m })
        | false ↦ fetch n source (record p { mailbox = m })
      ]
    ]

-- How a round of `ipc_recv` ends: with a code and the bytes written to the buffer, or blocked, or not
-- within the fuel.
pub data Received : Type 0 where
  returns : ℤ → List ℕ → Received
  blocks : Received
  unfinished : Received

-- The round after the search. `max` is the size of the buffer.
pub finish : ℕ → Fetched × Process → Received × Process
finish max (got s, p) =
    (returns (pos s.size) (take (min s.size max) s.bytes), record p { ipc_waiting = false })
finish max (exhausted, p) = (unfinished, p)
finish max (nothing, p) = elim p.kind [
  | kernel ↦ (returns (pos 0) [], p)
  | user ↦
      let (queued, m) = push_waiter p.pid p.mailbox in
      if queued
      then (blocks, record p { mailbox = m; ipc_waiting = true })
      else (returns failure [], record p { mailbox = m })
]

-- A round of `ipc_recv` for a process. Each turn of the search takes a message out, so one turn more
-- than there are messages is enough.
pub recv_round : ℤ → ℕ → Process → Received × Process
recv_round source max p = finish max (fetch (suc p.mailbox.count) source p)

-- What a process does when it runs again after a round that blocked, before the next round.
pub resume : Process → Process
resume p = record p { ipc_waiting = false }

-- A round of `ipc_recv` with its checks; `has_buffer` says that `buffer` is not NULL.
pub recv : Bool → ℤ → Bool → ℕ → Option ℕ → List Process → Received × List Process
recv initialized source has_buffer max current procs =
    if not initialized then (returns failure [], procs) else elim current [
      | none ↦ (returns failure [], procs)
      | some i ↦
          if ltb 0 max && not has_buffer
          then (returns failure [], procs)
          else let (r, p) = recv_round source max (get_or procs i no_process) in (r, set procs i p)
    ]
