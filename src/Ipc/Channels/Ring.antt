-- ===== src/Ipc/Channels/Ring.antt =====
-- kernel/ipc.c: the messages of a channel and how `ipc_channel_send` adds one, first in, first out.
use pro_os.Prelude.{
  ℕ, suc, ◌+◌, ◌-◌, ◌%◌, ◌≤◌, ◌<◌, ◌≡◌, refl, ap, sym, ◌∙◌, true, false, ◌⊎◌, inl, inr, Option,
  none, some, List, [], ◌∷◌, ◌++◌, arith, length, take, get_or, set, length-set, leb, ◌==◌,
  Bool-cases,
}
use pro_os.Prelude.Arrays.{
  All, All-get_or, All-set, shift_down, length-shift_down, take-remove, take_front,
}
use pro_os.Prelude.Blocks.{length-copy}
use pro_os.Prelude.Rings.{live, live-set_tail}
use pro_os.Prelude.Int.{ℤ}
use pro_os.Ipc.Process.{msg_data_max}
use pro_os.Ipc.Channels.{
  MessageSlot, Channel, blank_message, queue_len, channel_waiters, channel_subscribers, slot_bytes,
  put_message, pop_waiter, post_message,
}

abbrev pub stored : Channel → List MessageSlot
stored c = live blank_message queue_len c.queue c.head c.count

-- What is sent: header, type, sender and bytes.
abbrev pub sent : MessageSlot → ℕ × ℕ × ℤ × List ℕ
sent m = (m.header, m.msg_type, m.sender_pid, take m.size m.bytes)

abbrev pub waiting : Channel → List (Option ℕ)
waiting c = take c.waiter_count c.waiters

abbrev pub HasBytes : MessageSlot → Type 0
HasBytes m = length m.bytes ≡ msg_data_max

pub record IsValid (c : Channel) : Type 0 where
  pub room : length c.queue ≡ queue_len
  pub head_in : c.head < queue_len
  pub bounded : c.count ≤ queue_len
  pub tail_at : c.tail ≡ (c.head + c.count) % queue_len
  pub arrays : All HasBytes c.queue
  pub waiter_room : length c.waiters ≡ channel_waiters
  pub waiters_bounded : c.waiter_count ≤ channel_waiters
  pub subscriber_room : length c.subscribers ≡ channel_subscribers
  pub subscribers_bounded : c.subscriber_count ≤ channel_subscribers

pub blank_message-HasBytes : HasBytes blank_message
unfolding blank_message
blank_message-HasBytes = refl

-- The slot that a message makes of the one at the tail.
abbrev pub new_message : ℤ → ℕ → ℕ → Option (List ℕ) → ℕ → ℕ → Channel → MessageSlot
new_message sender header msg_type payload size flags c = record {
  header = header;
  msg_type = msg_type;
  size = size;
  flags = flags;
  sender_pid = sender;
  bytes = slot_bytes (get_or c.queue c.tail blank_message).bytes payload size;
}

length-slot_bytes :
    (old : List ℕ) (payload : Option (List ℕ)) (size : ℕ)
    → length (slot_bytes old payload size) ≡ length old
length-slot_bytes old none size = refl
length-slot_bytes old (some bytes) size = length-copy old bytes size

module _ (sender : ℤ) (header msg_type : ℕ) (payload : Option (List ℕ)) (size flags : ℕ)
    (c : Channel) (v : IsValid c) where
  put_message-IsValid :
      c.count < queue_len → IsValid (put_message sender header msg_type payload size flags c)
  unfolding put_message
  put_message-IsValid space =
      let at_tail =
        All-get_or HasBytes c.queue c.tail blank_message v.arrays blank_message-HasBytes in
      let m : MessageSlot = new_message sender header msg_type payload size flags c in
      record {
        room = length-set c.queue c.tail m ∙ v.room;
        head_in = v.head_in;
        bounded = omega arith;
        tail_at = omega (arith, v.tail_at, v.head_in);
        arrays =
            All-set HasBytes c.queue c.tail m v.arrays (
              length-slot_bytes (get_or c.queue c.tail blank_message).bytes payload size ∙ at_tail);
        waiter_room = v.waiter_room;
        waiters_bounded = v.waiters_bounded;
        subscriber_room = v.subscriber_room;
        subscribers_bounded = v.subscribers_bounded;
      }

  stored-put_message :
      c.count < queue_len
      → stored (put_message sender header msg_type payload size flags c)
        ≡ stored c ++ new_message sender header msg_type payload size flags c ∷ []
  unfolding put_message
  stored-put_message space =
      let m : MessageSlot = new_message sender header msg_type payload size flags c in
      let n : (c.count + 1) % 256 ≡ suc c.count = omega arith in
      rw n (
        ap (λ i. live blank_message queue_len (set c.queue i m) c.head (suc c.count)) v.tail_at
        ∙ live-set_tail blank_message queue_len c.queue c.head c.count m v.room v.head_in space)

no_waiters : (c : Channel) → c.waiter_count ≡ 0 → waiting c ≡ []
no_waiters c e = ap (λ n. take n c.waiters) e

-- The oldest waiter leaves the array, and the others keep their order.
pop_waiter_lem :
    (c : Channel)
    → IsValid c
    → IsValid (pop_waiter c).1
      × (stored (pop_waiter c).1 ≡ stored c)
      × (((waiting c ≡ []) × ((pop_waiter c).0 ≡ none) × (waiting (pop_waiter c).1 ≡ []))
          ⊎ (waiting c ≡ (pop_waiter c).0 ∷ waiting (pop_waiter c).1))
unfolding pop_waiter
pop_waiter_lem c v = elim (Bool-cases (c.waiter_count == 0)) [
  | inl e ↦
      let none_waits : waiting c ≡ [] = no_waiters c (ground arith) in
      rw e (v, refl, inl (none_waits, refl, none_waits))
  | inr e ↦ rw e (
    record {
      room = v.room;
      head_in = v.head_in;
      bounded = v.bounded;
      tail_at = v.tail_at;
      arrays = v.arrays;
      waiter_room = omega (
        arith,
        length-shift_down none c.waiters 0 (c.waiter_count - 1),
        length-set (shift_down none c.waiters 0 (c.waiter_count - 1)) (c.waiter_count - 1) none,
        v.waiter_room,
      );
      waiters_bounded = omega (arith, v.waiters_bounded);
      subscriber_room = v.subscriber_room;
      subscribers_bounded = v.subscribers_bounded;
    },
    refl,
    inr (
        take_front none c.waiters c.waiter_count (ground arith)
          (omega (arith, v.waiter_room, v.waiters_bounded))
        ∙ ap (◌∷◌ (get_or c.waiters 0 none)) (
            sym (
              take-remove none c.waiters 0 c.waiter_count none (ground arith)
                (omega (arith, v.waiter_room, v.waiters_bounded))))),
  )
]

-- What `ipc_channel_send` does under the lock, after its tests of the size, the channel and the sender: it refuses a
-- message only when thirty-two are stored, and then changes nothing; otherwise the message joins the end of the queue with its bytes, or with the bytes that an earlier message left in
-- the slot if `data` is NULL, and the oldest waiter leaves the array to be woken.
pub post_message_refines :
    (sender : ℤ) (header msg_type : ℕ) (payload : Option (List ℕ)) (size flags : ℕ) (c : Channel)
    → IsValid c
    → let (done, w, c') = post_message sender header msg_type payload size flags c in
      IsValid c'
      × (((done ≡ false) × (c.count ≡ queue_len) × (c' ≡ c) × (w ≡ none))
          ⊎ ((done ≡ true)
              × (stored c'
                  ≡ stored c ++ new_message sender header msg_type payload size flags c ∷ [])
              × (((waiting c ≡ []) × (w ≡ none) × (waiting c' ≡ []))
                  ⊎ (waiting c ≡ w ∷ waiting c'))))
unfolding post_message put_message
post_message_refines sender header msg_type payload size flags c v =
    elim (Bool-cases (leb queue_len c.count)) [
      | inl full ↦ rw full (v, inl (refl, ground (arith, v.bounded), refl, refl))
      | inr space ↦
          let s : c.count < queue_len = ground arith in
          let c' : Channel = put_message sender header msg_type payload size flags c in
          let p =
            pop_waiter_lem c'
              (put_message-IsValid sender header msg_type payload size flags c v s) in
          rw space (
            p.0,
            inr (
              refl,
              p.1 ∙ stored-put_message sender header msg_type payload size flags c v s,
              p.2,
            ),
          )
    ]
