-- ===== src/Ipc/Channels/Calls/Sends.antt =====
-- kernel/ipc.c: `ipc_channel_send` on all its branches.
use pro_os.Prelude.{
  ℕ, Bool, if◌then◌else◌, ◌≤◌, ◌<◌, ◌≡◌, refl, ◌⊎◌, inl, inr, true, false, Option, none, some, List,
  [], ◌∷◌, ◌++◌, arith, ltb, get_or, set, Bool-cases, Option-cases,
}
use pro_os.Prelude.Arrays.{All, All-get_or, All-set, All-replicate}
use pro_os.Prelude.Int.{ℤ, pos, failure}
use pro_os.Ipc.Process.{Process, msg_data_max}
use pro_os.Ipc.Channels.{
  Channel, Channels, blank_message, no_channel, queue_len, find_channel, post_message,
}
use pro_os.Ipc.Channels.Ring.{
  IsValid, HasBytes, blank_message-HasBytes, stored, waiting, new_message, post_message_refines,
}
use pro_os.Ipc.Channels.Calls.{sender_allowed, stop_waiting, channel_send}

pub no_channel-IsValid : IsValid no_channel
no_channel-IsValid = record {
  room = refl;
  head_in = omega arith;
  bounded = omega arith;
  tail_at = refl;
  arrays = All-replicate HasBytes queue_len blank_message blank_message-HasBytes;
  waiter_room = refl;
  waiters_bounded = omega arith;
  subscriber_room = refl;
  subscribers_bounded = omega arith;
}

abbrev pub channel_at : Channels → ℕ → Channel
channel_at s k = get_or s.table k no_channel

-- Why a message is refused
pub data Refused (id sender : ℤ) (size : ℕ) (procs : List Process) (s : Channels) : Type 0 where
  too_long : msg_data_max < size → Refused id sender size procs s
  no_such_channel : find_channel id s.table ≡ none → Refused id sender size procs s
  not_allowed :
      (k : ℕ)
      → find_channel id s.table ≡ some k
      → sender_allowed sender id (channel_at s k) procs ≡ false
      → Refused id sender size procs s
  full :
      (k : ℕ)
      → find_channel id s.table ≡ some k
      → (channel_at s k).count ≡ queue_len
      → Refused id sender size procs s

module _ (id sender : ℤ) (header msg_type : ℕ) (payload : Option (List ℕ)) (size flags : ℕ)
    (procs : List Process) (s : Channels) where
  -- A message that is taken: the channel in entry `k` is then `c`, and `w` is woken.
  pub record Taken (k : ℕ) (c : Channel) (w : Option ℕ) : Type 0 where
    pub fits : size ≤ msg_data_max
    pub found : find_channel id s.table ≡ some k
    pub allowed : sender_allowed sender id (channel_at s k) procs ≡ true
    pub queued :
        stored c
        ≡ stored (channel_at s k)
          ++ new_message sender header msg_type payload size flags (channel_at s k) ∷ []
    pub wakes :
        ((waiting (channel_at s k) ≡ []) × (w ≡ none) × (waiting c ≡ []))
        ⊎ (waiting (channel_at s k) ≡ w ∷ waiting c)

  -- How a call ends: its code, the process to wake, the processes and the channels
  pub data Sends : ℤ × Option ℕ × List Process × Channels → Type 0 where
    refuses : Refused id sender size procs s → Sends (failure, none, procs, s)
    takes :
        (k : ℕ) (c : Channel) (w : Option ℕ)
        → Taken k c w
        → Sends (pos size, w, stop_waiting w procs, record s { table = set s.table k c })

  abbrev result : ℤ × Option ℕ × List Process × Channels
  result = channel_send id sender header msg_type payload size flags procs s

  module _ (v : All IsValid s.table) (k : ℕ) (found : find_channel id s.table ≡ some k)
      (fits : size ≤ msg_data_max)
      (allowed : sender_allowed sender id (channel_at s k) procs ≡ true) where
    abbrev posted : Bool × Option ℕ × Channel
    posted = post_message sender header msg_type payload size flags (channel_at s k)

    abbrev ending : Bool × Option ℕ × Channel → ℤ × Option ℕ × List Process × Channels
    ending (done, w, c) =
        if done
        then (pos size, w, stop_waiting w procs, record s { table = set s.table k c })
        else (failure, none, procs, s)

    ending-Sends : All IsValid (ending posted).3.table × Sends (ending posted)
    ending-Sends =
        let at_k = All-get_or IsValid s.table k no_channel v no_channel-IsValid in
        let p =
          post_message_refines sender header msg_type payload size flags (channel_at s k) at_k in
        elim p.1 [
          | inl (left, all_stored, same, nobody) ↦ rw left (v, refuses (full k found all_stored))
          | inr (done, queued, wakes) ↦ rw done (
            All-set IsValid s.table k posted.2 v p.0,
            takes k posted.2 posted.1 (record {
              fits = fits;
              found = found;
              allowed = allowed;
              queued = queued;
              wakes = wakes;
            }),
          )
        ]

  -- `ipc_channel_send`, all channels well formed: they stay so. It refuses a message, and then changes nothing and
  -- wakes nobody, only if it is longer than 256 bytes, there is no channel of the id, the sender does not exist or may
  -- not use the channel, or thirty-two messages are stored. Otherwise its code is the size, the message stands at the
  -- end of that channel's queue with its bytes, or with those that an earlier message left in the slot if
  -- `data` is NULL, the oldest waiter leaves the channel and is woken, and no other channel changes.
  pub channel_send_lem : All IsValid s.table → All IsValid result.3.table × Sends result
  unfolding channel_send
  channel_send_lem v = elim (Bool-cases (ltb msg_data_max size)) [
    | inl long ↦ rw (long, channel_send) (v, refuses (too_long (ground arith)))
    | inr short ↦ elim (Option-cases (find_channel id s.table)) [
      | inl e ↦ rw (short, e, channel_send) (v, refuses (no_such_channel e))
      | inr (k, e) ↦ elim (Bool-cases (sender_allowed sender id (channel_at s k) procs)) [
        | inr barred ↦ rw (short, e, channel_send) (rw barred (v, refuses (not_allowed k e barred)))
        | inl may ↦ rw (short, e, channel_send) (rw may (ending-Sends v k e (ground arith) may))
      ]
    ]
  ]
