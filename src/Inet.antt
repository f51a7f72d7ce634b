-- ===== src/Inet.antt =====
-- kernel/ethernet.c, arp.c, ipv4.c and icmp.c: the state of the protocols, the words in a packet, the
-- checksum and the sending of Ethernet frames. A device is given with its driver's `transmit`
-- function; texts for the log are left out. Bytes are numbers below 256, and a buffer is the memory
-- from a pointer on, with the length that the caller names beside it.
pub mod Checksum
pub mod Seals
pub mod Frames
pub mod Exchange
pub mod Arp
pub mod Ipv4
pub mod Icmp
pub mod Input
mod Tests
use mathlib.Core.Logic.{dite}
use mathlib.Core.WellFounded.{Acc}
use native.Mathlib.Decide.{dec_lt}
use pro_os.Prelude.{
  ℕ, zero, suc, ◌+◌, ◌*◌, ◌/◌, ◌%◌, ◌^◌, ◌<◌, ◌-◌, Option, none, some, List, [], ◌∷◌, ◌++◌, ltb,
  ◌==◌, if◌then◌else◌, length, get_or, take, drop, replicate, arith,
}
use pro_os.Prelude.Int.{ℤ, failure}

-- ETHERNET_MAX_PAYLOAD, ETHERTYPE_IPV4 and ETHERTYPE_ARP
abbrev pub max_payload : ℕ
max_payload = 1500

abbrev pub ethertype_ipv4 : ℕ
ethertype_ipv4 = 2048

abbrev pub ethertype_arp : ℕ
ethertype_arp = 2054

-- The fields of `struct net_device` that the protocols read: `id` stands for the pointer, and
-- `transmit` is `none` where the device has no such function.
pub record Device : Type 0 where
  pub id : ℕ
  pub mac : List ℕ
  pub transmit : Option (List ℕ → ℤ)

-- `struct arp_cache_entry`: `device` is `none` for NULL.
pub record Entry : Type 0 where
  pub device : Option ℕ
  pub ipv4 : List ℕ
  pub mac : List ℕ
  pub updated : ℕ

-- `struct icmp_echo_reply`
pub record Reply : Type 0 where
  pub identifier : ℕ
  pub sequence : ℕ
  pub src_ipv4 : List ℕ

-- The static variables of the protocols, and the frames handed to the drivers, with their devices.
pub record Net : Type 0 where
  pub cache : List Entry
  pub replies : List Reply
  pub reply_count : ℕ
  pub ident : ℕ
  pub address : List ℕ
  pub sent : List (ℕ × List ℕ)

-- `n` bytes from place `i` on.
abbrev pub bytes_at : ℕ → ℕ → List ℕ → List ℕ
bytes_at i n bytes = take n (drop i bytes)

-- `read_be16`, at place `i` of a packet.
unfoldable pub read_be16 : List ℕ → ℕ → ℕ
read_be16 bytes i = (get_or bytes i 0 * 256 + get_or bytes (suc i) 0) % 2 ^ 16

-- The two bytes that `write_be16` writes.
unfoldable pub write_be16 : ℕ → List ℕ
write_be16 value = value / 256 % 256 ∷ value % 256 ∷ []

-- The two bytes that a plain assignment to a field of 16 bits writes: the low one first.
unfoldable pub write_le16 : ℕ → List ℕ
write_le16 value = value % 256 ∷ value / 256 % 256 ∷ []

-- `while (length > 1) { ... } if (length) ...`: the words of the buffer, into a sum of 32 bits.
unfoldable pub sum_words : List ℕ → ℕ → ℕ
sum_words [] sum = sum
sum_words (a ∷ []) sum = (sum + a * 256) % 2 ^ 32
sum_words (a ∷ b ∷ rest) sum = sum_words rest ((sum + (a * 256 + b)) % 2 ^ 32)

-- The body of `while (sum >> 16)`.
unfoldable pub fold_once : ℕ → ℕ
fold_once sum = sum % 2 ^ 16 + sum / 2 ^ 16

fold_once_lt : (sum : ℕ) → 65535 < sum → fold_once sum < sum
unfolding fold_once
fold_once_lt sum h = omega arith

-- The loop: it goes on while the sum, which falls, has more than 16 bits.
unfoldable pub fold_acc : (sum : ℕ) → Acc ◌<◌ sum → ℕ
unfolding fold_once_lt
fold_acc sum (Acc.intro _ smaller) =
    dite (dec_lt 65535 sum)
      (λ h. fold_acc (fold_once sum) (smaller (fold_once sum) (fold_once_lt sum h))) (λ _. sum)

unfoldable pub Acc-below : (k n : ℕ) → n < k → Acc ◌<◌ n
Acc-below zero n h = elim h [ ]
Acc-below (suc k) n h = Acc.intro n (λ m hm. Acc-below k m (omega arith))

unfoldable pub fold_carries : ℕ → ℕ
unfolding fold_acc Acc-below dec_lt
fold_carries sum = fold_acc sum (Acc-below (suc sum) sum (omega arith))

-- `ipv4_checksum`, which is also `icmp_checksum`: the complement of the folded sum.
unfoldable pub checksum : List ℕ → ℕ
checksum bytes = 2 ^ 16 - 1 - fold_carries (sum_words bytes 0) % 2 ^ 16

-- What is left when the payload is there: the driver's function, the size, and the frame, which is
-- noted and handed over.
hand_over : Option (List ℕ → ℤ) → ℕ → ℕ → List ℕ → Net → ℤ × Net
hand_over none id size frame s = (failure, s)
hand_over (some f) id size frame s =
    if ltb max_payload size
    then (failure, s)
    else (f frame, record s { sent = s.sent ++ (id, frame) ∷ [] })

-- `ethernet_send_frame`, its pointers not NULL. The payload is `bytes`, all of it.
unfoldable pub send_frame : Device → List ℕ → ℕ → List ℕ → Net → ℤ × Net
unfolding hand_over
send_frame dev dest ethertype bytes s =
    if length bytes == 0
    then (failure, s)
    else hand_over dev.transmit dev.id (length bytes)
        (dest ++ (dev.mac ++ (write_be16 ethertype ++ bytes))) s
