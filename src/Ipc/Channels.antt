-- ===== src/Ipc/Channels.antt =====
-- kernel/ipc.c: the channels. A channel is a ring of messages with the processes that wait for one and
-- those that have joined. A pointer to a process is its index in the process table.
pub mod Lists
pub mod Calls
pub mod Ring
pub mod Receive
pub mod Joining
pub mod Sent
use Prim.Native.Nat.{bit_and, bit_or}
use pro_os.Prelude.{
  ℕ, zero, suc, ◌+◌, ◌-◌, ◌%◌, Bool, true, false, not, ◌&&◌, ◌||◌, Option, none, some, List, [],
  ◌∷◌, min, ltb, leb, ◌==◌, if◌then◌else◌, get_or, set, take, replicate, length,
}
use pro_os.Prelude.Arrays.{shift_down, find_index}
use pro_os.Prelude.Blocks.{copy}
use pro_os.Prelude.Int.{ℤ, pos, ◌==ℤ◌, is_positive, failure, success}
use pro_os.Ipc.Process.{Process, no_process, channel_slots_max, msg_data_max, lookup}

-- CONFIG_IPC_MAX_CHANNELS, CONFIG_IPC_CHANNEL_QUEUE_LEN, CONFIG_IPC_CHANNEL_NAME_MAX,
-- CONFIG_IPC_CHANNEL_WAITERS, CONFIG_IPC_CHANNEL_SUBSCRIBERS, IPC_CHANNEL_FLAG_KERNEL
abbrev pub max_channels : ℕ
max_channels = 32

abbrev pub queue_len : ℕ
queue_len = 32

abbrev pub name_max : ℕ
name_max = 32

abbrev pub channel_waiters : ℕ
channel_waiters = 8

abbrev pub channel_subscribers : ℕ
channel_subscribers = 8

abbrev pub channel_flag_kernel : ℕ
channel_flag_kernel = 0x1

-- IPC_MESSAGE_TRUNCATED
abbrev pub message_truncated : ℕ
message_truncated = 0x1

-- `struct ipc_message_slot`
pub record MessageSlot : Type 0 where
  pub header : ℕ
  pub msg_type : ℕ
  pub size : ℕ
  pub flags : ℕ
  pub sender_pid : ℤ
  pub bytes : List ℕ

-- `struct ipc_channel`, without its lock
pub record Channel : Type 0 where
  pub used : Bool
  pub id : ℤ
  pub flags : ℕ
  pub name : List ℕ
  pub queue : List MessageSlot
  pub head : ℕ
  pub tail : ℕ
  pub count : ℕ
  pub waiters : List (Option ℕ)
  pub waiter_count : ℕ
  pub subscribers : List (Option ℕ)
  pub subscriber_count : ℕ

-- `channel_table` and `next_channel_id`
pub record Channels : Type 0 where
  pub table : List Channel
  pub next_id : ℕ

unfoldable pub blank_message : MessageSlot
blank_message = record {
  header = 0;
  msg_type = 0;
  size = 0;
  flags = 0;
  sender_pid = failure;
  bytes = replicate msg_data_max 0;
}

abbrev pub no_channel : Channel
no_channel = record {
  used = false;
  id = pos 0;
  flags = 0;
  name = replicate name_max 0;
  queue = replicate queue_len blank_message;
  head = 0;
  tail = 0;
  count = 0;
  waiters = replicate channel_waiters none;
  waiter_count = 0;
  subscribers = replicate channel_subscribers none;
  subscriber_count = 0;
}

-- The test `pointer == proc`.
abbrev pub is_at : ℕ → Option ℕ → Bool
is_at p none = false
is_at p (some q) = p == q

-- `channel->flags & IPC_CHANNEL_FLAG_KERNEL`
unfoldable pub is_kernel_channel : Channel → Bool
is_kernel_channel c = not (bit_and c.flags channel_flag_kernel == 0)

-- The loop that removes the first match from an array with a count: the entries behind it move up, and
-- the last place is emptied.
pub remove_from {ℓ} : {A : Type ℓ} → A → (A → Bool) → List A → ℕ → List A × ℕ
remove_from d test xs n = elim (find_index test (take n xs)) [
  | none ↦ (xs, n)
  | some i ↦ (set (shift_down d xs i (n - (i + 1))) (n - 1) d, n - 1)
]

pub is_among {ℓ} : {A : Type ℓ} → (A → Bool) → List A → ℕ → Bool
is_among test xs n = elim (find_index test (take n xs)) [ none ↦ false | some i ↦ true ]

unfoldable pub find_channel : ℤ → List Channel → Option ℕ
find_channel id table =
    if is_positive id then find_index (λ c. c.used && (c.id ==ℤ id)) table else none

pub has_channel : Process → ℤ → Bool
has_channel p id = is_among (λ x. x ==ℤ id) p.channel_slots p.channel_count

-- `process_add_channel`
pub add_channel : Process → ℤ → ℤ × Process
add_channel p id =
    if has_channel p id
    then (success, p)
    else if leb channel_slots_max p.channel_count
    then (failure, p)
    else (
      success,
      record p {
        channel_slots = set p.channel_slots p.channel_count id;
        channel_count = (p.channel_count + 1) % 256;
      },
    )

-- `process_remove_channel`
pub remove_channel : Process → ℤ → Process
remove_channel p id =
    let (xs, n) = remove_from failure (λ x. x ==ℤ id) p.channel_slots p.channel_count in
    record p { channel_slots = xs; channel_count = n }

-- `channel_remove_waiter`
pub remove_waiter : Channel → ℕ → Channel
remove_waiter c p =
    let (xs, n) = remove_from none (is_at p) c.waiters c.waiter_count in
    record c { waiters = xs; waiter_count = n }

-- The same loop over the subscribers, in `ipc_channel_leave` and `ipc_process_cleanup`.
pub remove_subscriber : Channel → ℕ → Channel
remove_subscriber c p =
    let (xs, n) = remove_from none (is_at p) c.subscribers c.subscriber_count in
    record c { subscribers = xs; subscriber_count = n }

-- The part of `ipc_channel_join` under the lock: the process `p` becomes a subscriber, if it is none.
pub subscribe : Channel → ℕ → Option Channel
subscribe c p =
    if is_among (is_at p) c.subscribers c.subscriber_count
    then some c
    else if leb channel_subscribers c.subscriber_count
    then none
    else some (record c {
      subscribers = set c.subscribers c.subscriber_count (some p);
      subscriber_count = (c.subscriber_count + 1) % 256;
    })

-- The rest of `ipc_channel_join`, after `process_add_channel`, for the process at index `i`.
pub complete : ℕ → ℤ → Channel → ℤ × Process → ℤ × Process × Channel
complete i id c (code, p) =
    if not (code ==ℤ success) then (failure, p, c) else elim (subscribe c i) [
      | none ↦ (failure, remove_channel p id, c)
      | some c' ↦ (success, p, c')
    ]

-- `ipc_channel_join` on the process at index `i` and the channel with the id.
pub join : ℕ → Process → ℤ → Channel → ℤ × Process × Channel
join i p id c = complete i id c (add_channel p id)

-- The part of `ipc_channel_leave` and `ipc_process_cleanup` under the lock.
pub unsubscribe : Channel → ℕ → Channel
unsubscribe c i = remove_waiter (remove_subscriber c i) i

-- The bytes of a slot after a message: where `data` is NULL they stay.
abbrev pub slot_bytes : List ℕ → Option (List ℕ) → ℕ → List ℕ
slot_bytes old none size = old
slot_bytes old (some payload) size = copy old payload size

-- The message at the tail of the ring.
unfoldable pub put_message : ℤ → ℕ → ℕ → Option (List ℕ) → ℕ → ℕ → Channel → Channel
put_message sender header msg_type payload size flags c = record c {
  queue = set c.queue c.tail (record {
    header = header;
    msg_type = msg_type;
    size = size;
    flags = flags;
    sender_pid = sender;
    bytes = slot_bytes (get_or c.queue c.tail blank_message).bytes payload size;
  });
  tail = (c.tail + 1) % queue_len;
  count = (c.count + 1) % 256;
}

-- The oldest waiter leaves the array.
unfoldable pub pop_waiter : Channel → Option ℕ × Channel
pop_waiter c = if c.waiter_count == 0 then (none, c) else (
  get_or c.waiters 0 none,
  record c {
    waiters = set (shift_down none c.waiters 0 (c.waiter_count - 1)) (c.waiter_count - 1) none;
    waiter_count = c.waiter_count - 1;
  },
)

-- The part of `ipc_channel_send` under the lock: whether the message was taken, the process to wake.
unfoldable pub post_message :
    ℤ → ℕ → ℕ → Option (List ℕ) → ℕ → ℕ → Channel → Bool × Option ℕ × Channel
post_message sender header msg_type payload size flags c =
    if leb queue_len c.count
    then (false, none, c)
    else let (w, c') = pop_waiter (put_message sender header msg_type payload size flags c) in
      (true, w, c')

-- How a round of `ipc_channel_receive` ends: with a message, its header, type, size and sender as they
-- go to `out`, and the bytes that go to the buffer; with nothing, where it may not block; with no place
-- among the waiters; or blocked.
pub data ChannelResult : Type 0 where
  message : ℕ → ℕ → ℕ → ℤ → List ℕ → ChannelResult
  empty : ChannelResult
  no_place : ChannelResult
  waits : ChannelResult

-- The header as `out` gets it.
unfoldable pub out_header : MessageSlot → ℕ → ℕ
out_header m max = if ltb max m.size then bit_or m.header message_truncated else m.header

-- The message that is taken, for a buffer of `max` bytes, if there is one.
unfoldable pub taken : MessageSlot → Bool → ℕ → ChannelResult
taken m has_buffer max =
    message (out_header m max) m.msg_type m.size m.sender_pid
      (if has_buffer then take (min m.size max) m.bytes else [])

-- One pass of the loop of `ipc_channel_receive` by the process at index `i`, up to a return or to
-- `process_block_current`.
unfoldable pub receive_round :
    Bool → Bool → ℕ → ℕ → Process → ℤ → Channel → ChannelResult × Process × Channel
receive_round nonblock has_buffer max i p id c =
    if ltb 0 c.count
    then (
      taken (get_or c.queue c.head blank_message) has_buffer max,
      record p { wait_channel = failure },
      record c { head = (c.head + 1) % queue_len; count = c.count - 1 },
    )
    else if nonblock
    then (empty, p, c)
    else if is_among (is_at i) c.waiters c.waiter_count
    then (waits, p, c)
    else if leb channel_waiters c.waiter_count
    then (no_place, p, c)
    else (
      waits,
      record p { wait_channel = id },
      record c {
        waiters = set c.waiters c.waiter_count (some i);
        waiter_count = (c.waiter_count + 1) % 256;
      },
    )
