-- ===== src/Ipc/Channels/Calls.antt =====
-- kernel/ipc.c: the calls on channels, over the table of channels and the processes.
pub mod Creation
pub mod Sends
mod Tests
use pro_os.Prelude.{
  ℕ, zero, suc, ◌+◌, ◌-◌, Bool, true, false, not, ◌||◌, Option, none, some, List, [], ◌∷◌, min, ltb,
  ◌==◌, if◌then◌else◌, get_or, set, take, replicate,
}
use pro_os.Prelude.Arrays.{find_index}
use pro_os.Prelude.Blocks.{copy}
use pro_os.Prelude.Int.{ℤ, pos, is_positive, failure, success}
use pro_os.Ipc.Process.{Process, no_process, channel_slots_max, msg_data_max, lookup}
use pro_os.Ipc.Channels.{
  Channel, Channels, ChannelResult, name_max, no_channel, find_channel, has_channel, remove_channel,
  unsubscribe, join, post_message, receive_round, is_kernel_channel,
}

-- The length of the name where the caller gives none: up to the first zero byte, at most `n`.
pub name_length : ℕ → List ℕ → ℕ
name_length zero cs = 0
name_length (suc n) [] = 0
name_length (suc n) (c ∷ cs) = if c == 0 then 0 else suc (name_length n cs)

-- `effective_len` in `ipc_channel_create`, the name not NULL
pub effective_length : List ℕ → ℕ → ℕ
effective_length name len = if len == 0 then name_length (name_max - 1) name else len

-- `channel_name_copy` into an array of CONFIG_IPC_CHANNEL_NAME_MAX bytes
pub name_copy : List ℕ → Option (List ℕ) → ℕ → List ℕ
name_copy dst none len =
    let limit = min (name_max - 1) len in set (copy dst (replicate limit 0) limit) limit 0
name_copy dst (some src) len =
    let limit = min (name_max - 1) len in set (copy dst src limit) limit 0

-- What `ipc_channel_create` makes of an unused entry; the messages and pids in the arrays stay.
unfoldable pub opened : Channel → ℤ → Option (List ℕ) → ℕ → ℕ → Channel
opened c id name len flags = record c {
  used = true;
  id = id;
  flags = flags;
  head = 0;
  tail = 0;
  count = 0;
  waiter_count = 0;
  subscriber_count = 0;
  name = elim name [
    | none ↦ name_copy c.name none len
    | some s ↦ name_copy c.name (some s) (effective_length s len)
  ];
}

-- `ipc_channel_create`
unfoldable pub channel_create : Option (List ℕ) → ℕ → ℕ → Channels → ℤ × Channels
channel_create name len flags s = elim (find_index (λ c. not c.used) s.table) [
  | none ↦ (failure, s)
  | some i ↦ (
    pos s.next_id,
    record {
      table = set s.table i (opened (get_or s.table i no_channel) (pos s.next_id) name len flags);
      next_id = s.next_id + 1;
    },
  )
]

-- `ipc_channel_join`; the process is its index, `none` for NULL.
pub channel_join : Option ℕ → ℤ → List Process → Channels → ℤ × List Process × Channels
channel_join none id procs s = (failure, procs, s)
channel_join (some i) id procs s = elim (find_channel id s.table) [
  | none ↦ (failure, procs, s)
  | some k ↦
      let (code, p, c) = join i (get_or procs i no_process) id (get_or s.table k no_channel) in
      (code, set procs i p, record s { table = set s.table k c })
]

-- `ipc_channel_leave`
pub channel_leave : Option ℕ → ℤ → List Process → Channels → ℤ × List Process × Channels
channel_leave none id procs s = (failure, procs, s)
channel_leave (some i) id procs s = elim (find_channel id s.table) [
  | none ↦ (failure, procs, s)
  | some k ↦ (
    success,
    set procs i (remove_channel (get_or procs i no_process) id),
    record s { table = set s.table k (unsubscribe (get_or s.table k no_channel) i) },
  )
]

-- Whether the sender exists and may use the channel.
unfoldable pub sender_allowed : ℤ → ℤ → Channel → List Process → Bool
sender_allowed sender id c procs =
    if is_positive sender
    then elim (lookup sender procs) [
      | none ↦ false
      | some i ↦ has_channel (get_or procs i no_process) id || is_kernel_channel c
    ]
    else true

-- The process that is woken no longer waits for the channel.
unfoldable pub stop_waiting : Option ℕ → List Process → List Process
stop_waiting none procs = procs
stop_waiting (some w) procs =
    set procs w (record (get_or procs w no_process) { wait_channel = failure })

-- `ipc_channel_send`: the code, the process to wake, the processes, the channels.
unfoldable pub channel_send :
    ℤ
    → ℤ
    → ℕ
    → ℕ
    → Option (List ℕ)
    → ℕ
    → ℕ
    → List Process
    → Channels
    → ℤ × Option ℕ × List Process × Channels
channel_send id sender header msg_type payload size flags procs s =
    if ltb msg_data_max size then (failure, none, procs, s) else elim (find_channel id s.table) [
      | none ↦ (failure, none, procs, s)
      | some k ↦
          let c = get_or s.table k no_channel in
          if not (sender_allowed sender id c procs)
          then (failure, none, procs, s)
          else let (done, w, c') = post_message sender header msg_type payload size flags c in
            if done
            then (pos size, w, stop_waiting w procs, record s { table = set s.table k c' })
            else (failure, none, procs, s)
    ]

-- A round of `ipc_channel_receive` with its checks, `none` where these fail.
unfoldable pub channel_receive :
    Bool
    → Bool
    → ℕ
    → Option ℕ
    → ℤ
    → List Process
    → Channels
    → Option ChannelResult × List Process × Channels
channel_receive nonblock has_buffer max none id procs s = (none, procs, s)
channel_receive nonblock has_buffer max (some i) id procs s = elim (find_channel id s.table) [
  | none ↦ (none, procs, s)
  | some k ↦
      let p = get_or procs i no_process in
      let c = get_or s.table k no_channel in
      if not (has_channel p id || is_kernel_channel c)
      then (none, procs, s)
      else let (r, p', c') = receive_round nonblock has_buffer max i p id c in
        (some r, set procs i p', record s { table = set s.table k c' })
]

-- `ipc_channel_peek`
pub channel_peek : ℤ → List Channel → ℤ
channel_peek id table = elim (find_channel id table) [
  | none ↦ failure
  | some k ↦ if ltb 0 (get_or table k no_channel).count then pos 1 else pos 0
]

-- The loop of `ipc_process_cleanup` over the channels that the process has joined.
pub leave_all : ℕ → List ℤ → List Channel → List Channel
leave_all i [] table = table
leave_all i (id ∷ ids) table = leave_all i ids (elim (find_channel id table) [
  | none ↦ table
  | some k ↦ set table k (unsubscribe (get_or table k no_channel) i)
])

-- `ipc_process_cleanup` on the channels and the channel fields, after `ipc_detach_process`.
pub cleanup : ℕ → Process → List Channel → Process × List Channel
cleanup i p table = (
  record p {
    channel_slots = replicate channel_slots_max failure;
    channel_count = 0;
    wait_channel = failure;
  },
  leave_all i (take p.channel_count p.channel_slots) table,
)
