-- ===== src/Ipc/Channels/Calls/Tests.antt =====
-- Runs of the channels of kernel/ipc.c, and their theorems at concrete channels.
use pro_os.Prelude.{◌≡◌, refl, true, some, List, [], ◌∷◌, arith, take, get_or, replicate}
use pro_os.Prelude.Arrays.{All, All-replicate, find_index}
use pro_os.Prelude.Blocks.{copy}
use pro_os.Prelude.Int.{pos, failure, success}
use pro_os.Ipc.Process.{Process, no_process, lookup}
use pro_os.Ipc.Channels.{
  Channel, Channels, message, blank_message, no_channel, queue_len, max_channels, find_channel,
  is_among, has_channel, add_channel, subscribe, complete, join, put_message, pop_waiter,
  post_message, receive_round, taken, out_header, is_kernel_channel,
}
use pro_os.Ipc.Channels.Calls.{
  channel_create, channel_join, channel_leave, channel_send, channel_receive, channel_peek, cleanup,
  opened, name_copy, name_length, effective_length, sender_allowed, stop_waiting, leave_all,
}
use pro_os.Ipc.Channels.Ring.{IsValid, HasBytes, blank_message-HasBytes, post_message_refines}
use pro_os.Ipc.Channels.Calls.Sends.{no_channel-IsValid, Sends, channel_send_lem}
use pro_os.Ipc.Channels.Joining.{HasSlots, Joins, join_lem}

abbrev none_open : Channels
none_open = record { table = replicate max_channels no_channel; next_id = 1 }

abbrev procs : List Process
procs = no_process ∷ record no_process { alive = true; pid = pos 4 } ∷ []

-- One channel, with room
abbrev one_open : Channels
one_open = record { table = record no_channel { used = true; id = pos 1 } ∷ []; next_id = 2 }

one_open-IsValid : IsValid (record no_channel { used = true; id = pos 1 })
one_open-IsValid = record {
  room = refl;
  head_in = omega arith;
  bounded = omega arith;
  tail_at = refl;
  arrays = All-replicate HasBytes queue_len blank_message blank_message-HasBytes;
  waiter_room = refl;
  waiters_bounded = omega arith;
  subscriber_room = refl;
  subscribers_bounded = omega arith;
}

no_process-HasSlots : HasSlots no_process
no_process-HasSlots = record { room = refl; bounded = omega arith }

-- A channel named "io" is made, joined, used and left.
abbrev opened_one : Channels
opened_one = (channel_create (some (105 ∷ 111 ∷ 0 ∷ [])) 0 0 none_open).1

first_id : (channel_create (some (105 ∷ 111 ∷ 0 ∷ [])) 0 0 none_open).0 ≡ pos 1
unfolding channel_create find_index
first_id = refl

named : take 3 (get_or opened_one.table 0 no_channel).name ≡ 105 ∷ 111 ∷ 0 ∷ []
unfolding channel_create find_index opened name_copy name_length effective_length copy
named = refl

strangers_may_not_send :
    (channel_send (pos 1) (pos 4) 0 0 (some (5 ∷ [])) 1 0 procs opened_one).0 ≡ failure
unfolding channel_create channel_send find_channel find_index opened sender_allowed has_channel
    is_among lookup is_kernel_channel
strangers_may_not_send = refl

peeks : channel_peek (pos 1) opened_one.table ≡ pos 0
unfolding channel_peek channel_create find_channel find_index opened
peeks = refl

-- Process 4 joins and sends three bytes to itself; a buffer of two bytes sets the truncation flag.
sent_and_received :
    let j = channel_join (some 1) (pos 1) procs opened_one in
    let s = channel_send (pos 1) (pos 4) 6 9 (some (5 ∷ 6 ∷ 7 ∷ [])) 3 0 j.1 j.2 in
    (channel_receive true true 2 (some 1) (pos 1) s.2 s.3).0
    ≡ some (message 7 9 3 (pos 4) (5 ∷ 6 ∷ []))
unfolding channel_create find_channel find_index opened channel_join join complete add_channel
    subscribe has_channel is_among channel_send sender_allowed lookup post_message put_message
    pop_waiter stop_waiting channel_receive receive_round taken out_header copy blank_message
sent_and_received = refl

left_unjoined : (channel_leave (some 1) (pos 1) procs opened_one).0 ≡ success
unfolding channel_leave channel_create find_channel find_index opened
left_unjoined = refl

joined_then_left :
    let s = channel_join (some 1) (pos 1) procs opened_one in
    (cleanup 1 (get_or s.1 1 no_process) s.2.table).0.channel_count ≡ 0
unfolding cleanup leave_all
joined_then_left = refl

channel_send_lem_example :
    let r = channel_send (pos 1) (pos 0) 1 2 (some (5 ∷ 6 ∷ [])) 2 0 procs one_open in
    All IsValid r.3.table × Sends (pos 1) (pos 0) 1 2 (some (5 ∷ 6 ∷ [])) 2 0 procs one_open r
channel_send_lem_example =
    channel_send_lem (pos 1) (pos 0) 1 2 (some (5 ∷ 6 ∷ [])) 2 0 procs one_open
      (one_open-IsValid, tt)

-- A channel with a message of two bytes
abbrev used_channel : Channel
used_channel = (post_message (pos 4) 1 2 (some (5 ∷ 6 ∷ [])) 2 0 no_channel).2

used_channel-IsValid : IsValid used_channel
used_channel-IsValid =
    (post_message_refines (pos 4) 1 2 (some (5 ∷ 6 ∷ [])) 2 0 no_channel no_channel-IsValid).0

-- An empty channel whose first slot still has the bytes of a message that was taken.
abbrev drained : Channel
drained = record no_channel {
  queue = record blank_message { bytes = 7 ∷ 8 ∷ replicate 254 0 } ∷ replicate 31 blank_message;
}

drained-IsValid : IsValid drained
drained-IsValid = record {
  room = refl;
  head_in = omega arith;
  bounded = omega arith;
  tail_at = refl;
  arrays = (refl, All-replicate HasBytes 31 blank_message blank_message-HasBytes);
  waiter_room = refl;
  waiters_bounded = omega arith;
  subscriber_room = refl;
  subscribers_bounded = omega arith;
}

join_lem_example :
    let r = join 1 no_process (pos 1) no_channel in
    IsValid r.2 × HasSlots r.1 × Joins 1 no_process (pos 1) no_channel r
unfolding has_channel is_among find_index
join_lem_example =
    join_lem 1 no_process (pos 1) no_channel no_channel-IsValid no_process-HasSlots refl
