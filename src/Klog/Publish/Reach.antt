-- ===== src/Klog/Publish/Reach.antt =====
-- kernel/klog.c over kernel/ipc.c: an entry that no log service takes is received from the loggers' channel.
use pro_os.Prelude.{
  ℕ, ◌≤◌, ◌<◌, ◌≡◌, refl, ap, ◌∙◌, Bool, true, false, ◌||◌, Option, some, List, [], ◌∷◌, map, arith,
  length, get_or, set, take, take_all,
}
use pro_os.Prelude.Arrays.{find_index}
use pro_os.Prelude.Blocks.{take-copy}
use pro_os.Prelude.Int.{ℤ, pos, failure, is_positive}
use pro_os.Klog.{Entry, module_name_len, entry_len}
use pro_os.Klog.Publish.{
  Listeners, payload, length-payload, payload_size, service_logger, publish, publish_on_channel,
}
use pro_os.Ipc.Process.{Process, no_process}
use pro_os.Ipc.Channels.{
  MessageSlot, Channel, Channels, message, blank_message, no_channel, channel_flag_kernel,
  find_channel, has_channel, is_kernel_channel, put_message, pop_waiter, post_message, out_header,
  taken, receive_round,
}
use pro_os.Ipc.Channels.Calls.{
  opened, channel_create, sender_allowed, stop_waiting, channel_send, channel_receive,
}
use pro_os.Ipc.Start.{
  Ipc, reset_message, reset_channel, service, create_services, system_init, get_service_channel,
}

-- The ring of the channel has a first slot, with room for the message.
abbrev pub HasRoom : Channel → Type 0
HasRoom c = (0 < length c.queue) × (payload_size ≤ length (get_or c.queue 0 blank_message).bytes)

first_slot :
    (queue : List MessageSlot) (m : MessageSlot)
    → 0 < length queue
    → get_or (set (map reset_message queue) 0 m) 0 blank_message ≡ m
first_slot [] m h = absurd (omega arith)
first_slot (x ∷ xs) m h = refl

first_bytes :
    (queue : List MessageSlot)
    → 0 < length queue
    → (get_or (map reset_message queue) 0 blank_message).bytes
      ≡ (get_or queue 0 blank_message).bytes
unfolding reset_message
first_bytes [] h = absurd (omega arith)
first_bytes (x ∷ xs) h = refl

-- The loggers' channel as `ipc_system_init` leaves it, with one message.
abbrev with_message : ℕ → List ℕ → Channel → Channel
with_message level bytes c = put_message (pos 0) 0 level (some bytes) payload_size 0 (
    opened (reset_channel c) (pos 3) (some (service (b'l' ∷ b'o' ∷ b'g' ∷ b'g' ∷ b'e' ∷ b'r' ∷ [])))
      0 channel_flag_kernel)

received :
    (level i : ℕ) (bytes : List ℕ) (c : Channel) (p : Process) (nonblock : Bool)
    → HasRoom c
    → payload_size ≤ length bytes
    → (receive_round nonblock true payload_size i p (pos 3) (with_message level bytes c)).0
      ≡ message 0 level payload_size (pos 0) (take payload_size bytes)
unfolding receive_round taken out_header put_message opened reset_channel
received level i bytes c p nonblock h l = rw (first_slot c.queue _ h.0) (
    ap (message 0 level payload_size (pos 0)) (
      take-copy (get_or (map reset_message c.queue) 0 blank_message).bytes bytes payload_size
        (rw (first_bytes c.queue h.0) h.1) l))

-- The table after the message
published :
    (s : Ipc) (bytes : List ℕ) (e : Entry) (procs : List Process) (cs : List Channel)
    → 4 ≤ length cs
    → let l =
        (publish_on_channel e.level bytes (record {
          procs = procs;
          ipc = system_init (record s { channels = record s.channels { table = cs } });
          logger_channel = failure;
        })).1 in
      (get_service_channel service_logger l.ipc ≡ pos 3)
      × (find_channel (pos 3) l.ipc.channels.table ≡ some 2)
      × (get_or l.ipc.channels.table 2 no_channel
          ≡ with_message e.level bytes (get_or cs 2 no_channel))
unfolding stop_waiting publish_on_channel system_init get_service_channel create_services
    channel_create opened reset_channel find_channel find_index is_kernel_channel sender_allowed
    channel_send post_message pop_waiter put_message
published s bytes e procs [] h = absurd (omega arith)
published s bytes e procs (a ∷ []) h = absurd (omega arith)
published s bytes e procs (a ∷ b ∷ []) h = absurd (omega arith)
published s bytes e procs (a ∷ b ∷ c ∷ []) h = absurd (omega arith)
published s bytes e procs (a ∷ b ∷ c ∷ d ∷ cs) h = (refl, refl, refl)

-- A kernel channel is received from by any process.
kernel_receive :
    (nonblock : Bool) (i k : ℕ) (id : ℤ) (procs : List Process) (s : Channels)
    → find_channel id s.table ≡ some k
    → is_kernel_channel (get_or s.table k no_channel) ≡ true
    → (channel_receive nonblock true payload_size (some i) id procs s).0
      ≡ some
          (receive_round nonblock true payload_size i
            (get_or procs i no_process)
            id
            (get_or s.table k no_channel)).0
unfolding channel_receive
kernel_receive nonblock i k id procs s f open_to_all =
    rw (f, channel_receive)
      (rw (open_to_all, or_true (has_channel (get_or procs i no_process) id)) refl)
  where
    or_true : (b : Bool) → (b || true) ≡ true
    or_true true = refl
    or_true false = refl

with_message-kernel :
    (level : ℕ) (bytes : List ℕ) (c : Channel)
    → is_kernel_channel (with_message level bytes c) ≡ true
unfolding is_kernel_channel put_message opened
with_message-kernel level bytes c = refl

-- What `publish` hands to the channel
abbrev pub started : List Process → Ipc → Listeners
started procs s = record { procs = procs; ipc = system_init s; logger_channel = failure }

publish-on_channel :
    (s : Ipc) (logd : ℤ) (current : Option ℕ) (tag_array text_array : List ℕ) (e : Entry)
    (procs : List Process)
    → is_positive logd ≡ false
    → publish logd current tag_array text_array e (started procs s)
      ≡ publish_on_channel e.level (payload tag_array text_array e) (started procs s)
unfolding publish system_init
publish-on_channel s logd current tag_array text_array e procs gone = rw gone refl

-- Without a log service, after `ipc_system_init` on a table of at least four channels with room in their
-- slots, an entry of the log whose texts fit reaches the loggers: any process that receives from their
-- channel is given the whole message of the entry.
pub publish-receive :
    (s : Ipc) (logd : ℤ) (current : Option ℕ) (tag_array text_array : List ℕ) (e : Entry)
    (procs : List Process) (i : ℕ) (nonblock : Bool)
    → is_positive logd ≡ false
    → 4 ≤ length s.channels.table
    → HasRoom (get_or s.channels.table 2 no_channel)
    → (length tag_array ≡ module_name_len) × (length text_array ≡ entry_len)
    → (length e.tag < module_name_len) × (length e.text < entry_len)
    → let l = (publish logd current tag_array text_array e (started procs s)).1 in
      (channel_receive nonblock true payload_size
        (some i)
        (get_service_channel service_logger l.ipc)
        l.procs
        l.ipc.channels).0
      ≡ some (message 0 e.level payload_size (pos 0) (payload tag_array text_array e))
publish-receive s logd current tag_array text_array e procs i nonblock gone four room arrays fits =
    let bytes : List ℕ = payload tag_array text_array e in
    let size : length bytes ≡ payload_size =
      length-payload tag_array text_array e arrays.0 arrays.1 fits.0 fits.1 in
    let l : Listeners = (publish_on_channel e.level bytes (started procs s)).1 in
    let p = published s bytes e procs s.channels.table four in
    let c : Channel = get_or s.channels.table 2 no_channel in
    let open_to_all : is_kernel_channel (get_or l.ipc.channels.table 2 no_channel) ≡ true =
      ap is_kernel_channel p.2 ∙ with_message-kernel e.level bytes c in
    let whole : take payload_size bytes ≡ bytes =
      take_all payload_size bytes (omega (arith, size)) in
    let q : Process = get_or l.procs i no_process in
    rw (publish-on_channel s logd current tag_array text_array e procs gone) (
      rw p.0 (
        kernel_receive nonblock i 2 (pos 3) l.procs l.ipc.channels p.1 open_to_all
        ∙ ap some (
            ap (λ x. (receive_round nonblock true payload_size i q (pos 3) x).0) p.2
            ∙ received e.level i bytes c q nonblock room (omega (arith, size))
            ∙ ap (message 0 e.level payload_size (pos 0)) whole)))
