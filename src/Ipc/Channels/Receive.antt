-- ===== src/Ipc/Channels/Receive.antt =====
-- kernel/ipc.c: a round of `ipc_channel_receive`.
use pro_os.Prelude.{
  ℕ, suc, ◌+◌, ◌-◌, ◌%◌, ◌<◌, ◌≡◌, refl, ap, ◌∙◌, Bool, true, false, inl, inr, some, [], ◌∷◌, ◌++◌,
  arith, get_or, set, length-set, leb, ltb, Bool-cases,
}
use pro_os.Prelude.Arrays.{take-set_end}
use pro_os.Prelude.Rings.{live, live-next}
use pro_os.Prelude.Int.{ℤ, failure}
use pro_os.Ipc.Process.{Process}
use pro_os.Ipc.Channels.{
  MessageSlot, Channel, blank_message, queue_len, channel_waiters, is_among, is_at, ChannelResult,
  empty, no_place, waits, taken, receive_round,
}
use pro_os.Ipc.Channels.Ring.{IsValid, stored, waiting}

none_stored : (c : Channel) → c.count ≡ 0 → stored c ≡ []
none_stored c e = ap (live blank_message queue_len c.queue c.head) e

-- What a round of `ipc_channel_receive` does: it takes the oldest message, or finds none.
pub data Receives (nonblock has_buffer : Bool) (max i : ℕ) (p : Process) (id : ℤ) (c : Channel)
    : ChannelResult × Process × Channel → Type 0 where
  takes :
      {m : MessageSlot} {c' : Channel}
      → stored c ≡ m ∷ stored c'
      → waiting c' ≡ waiting c
      → Receives nonblock has_buffer max i p id c
          (taken m has_buffer max, record p { wait_channel = failure }, c')
  finds_none :
      stored c ≡ [] → nonblock ≡ true → Receives nonblock has_buffer max i p id c (empty, p, c)
  waits_on :
      stored c ≡ []
      → nonblock ≡ false
      → is_among (is_at i) c.waiters c.waiter_count ≡ true
      → Receives nonblock has_buffer max i p id c (waits, p, c)
  has_no_place :
      stored c ≡ []
      → nonblock ≡ false
      → c.waiter_count ≡ channel_waiters
      → Receives nonblock has_buffer max i p id c (no_place, p, c)
  queues :
      {c' : Channel}
      → stored c ≡ []
      → nonblock ≡ false
      → stored c' ≡ []
      → waiting c' ≡ waiting c ++ some i ∷ []
      → Receives nonblock has_buffer max i p id c (waits, record p { wait_channel = id }, c')

head_next :
    (c : Channel)
    → IsValid c
    → 0 < c.count
    → stored c
      ≡ get_or c.queue c.head blank_message
        ∷ live blank_message queue_len c.queue ((c.head + 1) % queue_len) (c.count - 1)
head_next c v h =
    let n : c.count ≡ suc (c.count - 1) = omega arith in
    ap (live blank_message queue_len c.queue c.head) n
    ∙ live-next blank_message queue_len c.queue c.head (c.count - 1) v.head_in

joined : ℕ → Channel → Channel
joined i c = record c {
  waiters = set c.waiters c.waiter_count (some i);
  waiter_count = (c.waiter_count + 1) % 256;
}

joined_lem :
    (i : ℕ) (c : Channel)
    → IsValid c
    → c.waiter_count < channel_waiters
    → IsValid (joined i c) × (waiting (joined i c) ≡ waiting c ++ some i ∷ [])
unfolding joined
joined_lem i c v h =
    let n : (c.waiter_count + 1) % 256 ≡ suc c.waiter_count = omega arith in
    (
      record {
        room = v.room;
        head_in = v.head_in;
        bounded = v.bounded;
        tail_at = v.tail_at;
        arrays = v.arrays;
        waiter_room = length-set c.waiters c.waiter_count (some i) ∙ v.waiter_room;
        waiters_bounded = omega arith;
        subscriber_room = v.subscriber_room;
        subscribers_bounded = v.subscribers_bounded;
      },
      rw n (take-set_end c.waiters c.waiter_count (some i) (omega (arith, v.waiter_room))),
    )

-- The state after a message is taken.
after_take-IsValid :
    (c : Channel)
    → IsValid c
    → 0 < c.count
    → IsValid (record c { head = (c.head + 1) % queue_len; count = c.count - 1 })
after_take-IsValid c v h = record {
  room = v.room;
  head_in = omega (arith, v.head_in);
  bounded = omega (arith, v.bounded);
  tail_at = omega (arith, v.tail_at, v.head_in, v.bounded);
  arrays = v.arrays;
  waiter_room = v.waiter_room;
  waiters_bounded = v.waiters_bounded;
  subscriber_room = v.subscriber_room;
  subscribers_bounded = v.subscribers_bounded;
}

-- A round of `ipc_channel_receive` takes the oldest message and leaves the waiters, and where there is
-- none it returns if it may not block, or the process is or joins as the last among the waiters, unless
-- eight others wait; the channel stays well formed.
pub receive_round_lem :
    (nonblock has_buffer : Bool) (max i : ℕ) (p : Process) (id : ℤ) (c : Channel)
    → IsValid c
    → let r = receive_round nonblock has_buffer max i p id c in
      IsValid r.2 × Receives nonblock has_buffer max i p id c r
unfolding receive_round joined
receive_round_lem nonblock has_buffer max i p id c v = elim (Bool-cases (ltb 0 c.count)) [
  | inl e ↦
      let some_stored : 0 < c.count = ground arith in
      rw e (after_take-IsValid c v some_stored, takes (head_next c v some_stored) refl)
  | inr e ↦
      let none_left = none_stored c (ground arith) in
      elim (Bool-cases nonblock) [
        | inl polls ↦ rw (e, polls) (v, finds_none none_left refl)
        | inr may_block ↦ elim (Bool-cases (is_among (is_at i) c.waiters c.waiter_count)) [
          | inl there ↦ rw (e, may_block, there) (v, waits_on none_left refl there)
          | inr new ↦ elim (Bool-cases (leb channel_waiters c.waiter_count)) [
            | inl full ↦
                rw (e, may_block, new, full)
                  (v, has_no_place none_left refl (ground (arith, v.waiters_bounded)))
            | inr space ↦
                let j = joined_lem i c v (ground arith) in
                rw (e, may_block, new, space) (j.0, queues none_left refl none_left j.1)
          ]
        ]
      ]
]
