-- ===== src/Ipc/Mailbox/Queue.antt =====
-- kernel/ipc.c: a mailbox as a queue of messages.
use mathlib.Core.List.{map-append}
use pro_os.Prelude.{
  ℕ, suc, ◌+◌, ◌-◌, ◌%◌, ◌≤◌, ◌<◌, ◌≡◌, refl, ap, sym, subst, ◌∙◌, true, false, ◌⊎◌, inl, inr, some,
  List, [], ◌∷◌, ◌++◌, map, arith, length, take, get_or, length-set, length-take, length-replicate,
  remove_at, leb, Bool-cases, Option-cases,
}
use pro_os.Prelude.Arrays.{
  All, All-replicate, All-get_or, All-set, All-remove_at, All-append, All-shift_down, shift_down,
  length-shift_down, take-set_end, take-remove, find_index, find_index-Found, first, first_some,
  first_none, get_or-take,
}
use pro_os.Prelude.Blocks.{copy, length-copy, take-copy}
use pro_os.Prelude.Int.{ℤ}
use pro_os.Ipc.Process.{
  Slot, Mailbox, msg_queue_len, msg_data_max, blank_slot, invalid_pid, no_mailbox,
}
use pro_os.Ipc.Mailbox.{clear_slot, pop_waiter, matches, remove_slot, try_dequeue, put, enqueue}
use pro_os.Ipc.Mailbox.Waiters.{HasRoom, waiting, pop_waiter_lem}

-- The live slots.
abbrev pub queue : Mailbox → List Slot
queue m = take m.count m.slots

-- The sender and the bytes of a message.
abbrev pub message : Slot → ℤ × List ℕ
message s = (s.sender, take s.size s.bytes)

pub messages : Mailbox → List (ℤ × List ℕ)
messages m = map message (queue m)

abbrev pub HasBytes : Slot → Type 0
HasBytes s = length s.bytes ≡ msg_data_max

-- A live slot: in use, with no more bytes than its array has.
pub record IsLive (s : Slot) : Type 0 where
  pub in_use : s.used ≡ true
  pub small : s.size ≤ msg_data_max

pub record IsValid (m : Mailbox) : Type 0 where
  pub room : length m.slots ≡ msg_queue_len
  pub bounded : m.count ≤ msg_queue_len
  pub arrays : All HasBytes m.slots
  pub live : All IsLive (queue m)
  pub waiters : HasRoom m

pub blank_slot-HasBytes : HasBytes blank_slot
unfolding blank_slot
blank_slot-HasBytes = length-replicate {A = ℕ} msg_data_max 0

-- The mailbox of a fresh process.
pub empty-IsValid : IsValid no_mailbox
empty-IsValid = record {
  room = refl;
  bounded = omega arith;
  arrays = All-replicate HasBytes msg_queue_len blank_slot blank_slot-HasBytes;
  live = tt;
  waiters = record { room = refl; bounded = omega arith };
}

-- Taking a slot out.
remove_slot_lem :
    (i : ℕ) (m : Mailbox)
    → IsValid m
    → i < m.count
    → IsValid (remove_slot i m)
      × (queue (remove_slot i m) ≡ remove_at i (queue m))
      × (waiting (remove_slot i m) ≡ waiting m)
unfolding remove_slot clear_slot
remove_slot_lem i m v h =
    let shifted : List Slot = shift_down blank_slot m.slots i (m.count - (i + 1)) in
    let last : Slot = clear_slot (get_or shifted (m.count - 1) blank_slot) in
    let kept =
      All-shift_down HasBytes blank_slot blank_slot-HasBytes m.slots i (m.count - (i + 1))
        v.arrays in
    let q = take-remove blank_slot m.slots i m.count last h (omega (arith, v.room, v.bounded)) in
    (
      record {
        room = omega (
          arith,
          length-set shifted (m.count - 1) last,
          length-shift_down blank_slot m.slots i (m.count - (i + 1)),
          v.room,
        );
        bounded = omega (arith, v.bounded);
        arrays =
            All-set HasBytes shifted (m.count - 1) last kept
              (All-get_or HasBytes shifted (m.count - 1) blank_slot kept blank_slot-HasBytes);
        live = subst (All IsLive) (sym q) (All-remove_at IsLive i (queue m) v.live);
        waiters = record { room = v.waiters.room; bounded = v.waiters.bounded };
      },
      q,
      refl,
    )

-- `mailbox_try_dequeue` takes out the oldest message from the source, or from anybody if the source is
-- -1, keeps all others in order, and leaves the waiters alone.
pub try_dequeue_refines :
    (source : ℤ) (m : Mailbox)
    → IsValid m
    → let (found, m') = try_dequeue source m in
      IsValid m' × ((found, queue m') ≡ first (matches source) (queue m)) × (waiting m' ≡ waiting m)
unfolding try_dequeue
try_dequeue_refines source m v = elim (Option-cases (find_index (matches source) (queue m))) [
  | inl e ↦ rw (e, try_dequeue) (v, sym (first_none (matches source) (queue m) e), refl)
  | inr (i, e) ↦
      let f = find_index-Found (matches source) (queue m) i e in
      let i_lt : i < m.count = omega (arith, f.in_table, length-take m.count m.slots) in
      let r = remove_slot_lem i m v i_lt in
      rw (e, try_dequeue)
        (
          r.0,
          ap (λ q. (some (get_or m.slots i blank_slot), q)) r.1
              ∙ ap (λ s. (some s, remove_at i (queue m)))
                  (sym (get_or-take m.slots m.count i blank_slot i_lt))
              ∙ sym (first_some (matches source) (queue m) i blank_slot e),
          r.2,
        )
]

-- The slot that `put` writes.
abbrev new_slot : ℤ → List ℕ → ℕ → ℕ → Mailbox → Slot
new_slot sender bytes size flags m = record {
  used = true;
  sender = sender;
  flags = flags;
  size = size;
  bytes = copy (get_or m.slots m.count blank_slot).bytes bytes size;
}

module _ (sender : ℤ) (bytes : List ℕ) (size flags : ℕ) (m : Mailbox) (v : IsValid m)
    (space : m.count < msg_queue_len) (fits : size ≤ msg_data_max)
    (given : size ≤ length bytes) where
  array_at : HasBytes (get_or m.slots m.count blank_slot)
  array_at = All-get_or HasBytes m.slots m.count blank_slot v.arrays blank_slot-HasBytes

  queue-put :
      queue (put sender bytes size flags m) ≡ queue m ++ new_slot sender bytes size flags m ∷ []
  unfolding put
  queue-put =
      let n : (m.count + 1) % 256 ≡ suc m.count = omega arith in
      rw n
        (take-set_end m.slots m.count (new_slot sender bytes size flags m) (omega (arith, v.room)))

  put-IsValid : IsValid (put sender bytes size flags m)
  unfolding put
  put-IsValid = record {
    room = omega (arith, length-set m.slots m.count (new_slot sender bytes size flags m), v.room);
    bounded = omega arith;
    arrays =
        All-set HasBytes m.slots m.count (new_slot sender bytes size flags m) v.arrays (
          omega
            (arith, length-copy (get_or m.slots m.count blank_slot).bytes bytes size, array_at));
    live = subst (All IsLive) (sym queue-put) (
        All-append IsLive (queue m) (new_slot sender bytes size flags m ∷ []) v.live
          (record { in_use = refl; small = fits }, tt));
    waiters = record { room = v.waiters.room; bounded = v.waiters.bounded };
  }

  messages-put :
      messages (put sender bytes size flags m) ≡ messages m ++ (sender, take size bytes) ∷ []
  unfolding messages
  messages-put =
      rw (queue-put, map-append)
        (ap (λ (b : List ℕ). map message (queue m) ++ (sender, b) ∷ [])
          (take-copy (get_or m.slots m.count blank_slot).bytes bytes size (omega (arith, array_at))
            given))

waiting-put :
    (sender : ℤ) (bytes : List ℕ) (size flags : ℕ) (m : Mailbox)
    → waiting (put sender bytes size flags m) ≡ waiting m
unfolding put
waiting-put sender bytes size flags m = refl

-- The mailbox with other waiters.
messages_of_slots :
    (m m' : Mailbox) → m'.slots ≡ m.slots → m'.count ≡ m.count → messages m' ≡ messages m
unfolding messages
messages_of_slots m m' s c = rw (s, c) refl

pub IsValid-of_slots :
    (m m' : Mailbox) → IsValid m → HasRoom m' → m'.slots ≡ m.slots → m'.count ≡ m.count → IsValid m'
IsValid-of_slots m m' v h s c = record {
  room = rw s v.room;
  bounded = rw c v.bounded;
  arrays = rw s v.arrays;
  live = rw (s, c) v.live;
  waiters = h;
}

-- `mailbox_enqueue` refuses a message only when sixteen are stored, and then changes nothing; otherwise
-- the message joins the end of the queue with its sender and its bytes, and the oldest waiter leaves
-- the wait queue to be woken.
pub enqueue_refines :
    (sender : ℤ) (bytes : List ℕ) (size flags : ℕ) (m : Mailbox)
    → IsValid m
    → size ≤ msg_data_max
    → size ≤ length bytes
    → let (done, wake, m') = enqueue sender bytes size flags m in
      IsValid m'
      × (((done ≡ false) × (m.count ≡ msg_queue_len) × (m' ≡ m) × (wake ≡ invalid_pid))
          ⊎ ((done ≡ true)
              × (messages m' ≡ messages m ++ (sender, take size bytes) ∷ [])
              × (((waiting m ≡ []) × (wake ≡ invalid_pid) × (waiting m' ≡ []))
                  ⊎ (waiting m ≡ wake ∷ waiting m'))))
unfolding enqueue
enqueue_refines sender bytes size flags m v fits given =
    elim (Bool-cases (leb msg_queue_len m.count)) [
      | inl full ↦ rw full (v, inl (refl, ground (arith, v.bounded), refl, refl))
      | inr space ↦
          let s : m.count < msg_queue_len = ground arith in
          let stored : Mailbox = put sender bytes size flags m in
          let valid = put-IsValid sender bytes size flags m v s fits given in
          let p = pop_waiter_lem stored valid.waiters in
          let w = waiting-put sender bytes size flags m in
          rw space (
            IsValid-of_slots stored (pop_waiter stored).1 valid p.0 p.1 p.2,
            inr (
              refl,
              messages_of_slots stored (pop_waiter stored).1 p.1 p.2
                  ∙ messages-put sender bytes size flags m v s fits given,
              elim p.3 [
                | inl (none_waits, code, same) ↦
                    inl (sym w ∙ none_waits, code, ap waiting same ∙ none_waits)
                | inr front ↦ inr (sym w ∙ front)
              ],
            ),
          )
    ]
