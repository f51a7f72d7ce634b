-- ===== src/Ipc/Channels/Sent.antt =====
-- kernel/ipc.c: the bytes that `ipc_channel_send` stores.
use mathlib.Core.List.{map-append}
use pro_os.Prelude.{
  ℕ, ◌+◌, ◌%◌, map, ◌≤◌, ◌<◌, ◌≡◌, ap, ◌∙◌, inl, inr, Option, none, some, List, [], ◌∷◌, ◌++◌,
  arith, length, take, get_or,
}
use pro_os.Prelude.Arrays.{All-get_or}
use pro_os.Prelude.Blocks.{take-copy}
use pro_os.Prelude.Int.{ℤ}
use pro_os.Ipc.Process.{msg_data_max}
use pro_os.Ipc.Channels.{MessageSlot, Channel, blank_message, queue_len, post_message}
use pro_os.Ipc.Channels.Ring.{
  IsValid, HasBytes, blank_message-HasBytes, stored, sent, new_message, post_message_refines,
}

-- What `ipc_channel_send` puts behind the stored messages.
appended :
    (sender : ℤ) (header msg_type : ℕ) (payload : Option (List ℕ)) (size flags : ℕ) (c : Channel)
    → IsValid c
    → c.count < queue_len
    → stored (post_message sender header msg_type payload size flags c).2
      ≡ stored c ++ new_message sender header msg_type payload size flags c ∷ []
appended sender header msg_type payload size flags c v h =
    elim (post_message_refines sender header msg_type payload size flags c v).1 [
      | inl (_, full, _, _) ↦ absurd (omega (arith, full, h))
      | inr (_, e, _) ↦ e
    ]

-- With a buffer of at least `size` bytes, a message that finds room is stored with its header, type, sender and
-- bytes, behind the messages that are there.
pub post_message_with_data :
    (sender : ℤ) (header msg_type : ℕ) (bytes : List ℕ) (size flags : ℕ) (c : Channel)
    → IsValid c
    → c.count < queue_len
    → size ≤ msg_data_max
    → size ≤ length bytes
    → map sent (stored (post_message sender header msg_type (some bytes) size flags c).2)
      ≡ map sent (stored c) ++ (header, msg_type, sender, take size bytes) ∷ []
post_message_with_data sender header msg_type bytes size flags c v h fits given =
    let old : MessageSlot = get_or c.queue c.tail blank_message in
    let at_tail =
      All-get_or HasBytes c.queue c.tail blank_message v.arrays blank_message-HasBytes in
    ap (map sent) (appended sender header msg_type (some bytes) size flags c v h)
    ∙ map-append sent (stored c) (new_message sender header msg_type (some bytes) size flags c ∷ [])
    ∙ ap (λ (b : List ℕ). map sent (stored c) ++ (header, msg_type, sender, b) ∷ [])
        (take-copy old.bytes bytes size (omega (arith, at_tail, fits)) given)

-- With `data` NULL the receiver gets the bytes that an earlier message left in the slot.
pub post_message_without_data :
    (sender : ℤ) (header msg_type size flags : ℕ) (c : Channel)
    → IsValid c
    → c.count < queue_len
    → map sent (stored (post_message sender header msg_type none size flags c).2)
      ≡ map sent (stored c)
        ++ (
          header,
          msg_type,
          sender,
          take size (get_or c.queue ((c.head + c.count) % queue_len) blank_message).bytes,
        )
          ∷ []
post_message_without_data sender header msg_type size flags c v h =
    ap (map sent) (appended sender header msg_type none size flags c v h)
    ∙ map-append sent (stored c) (new_message sender header msg_type none size flags c ∷ [])
    ∙ ap
        (λ i.
          map sent (stored c)
          ++ (header, msg_type, sender, take size (get_or c.queue i blank_message).bytes) ∷ [])
        v.tail_at
