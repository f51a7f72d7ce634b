-- ===== src/Inet/Icmp.antt =====
-- kernel/icmp.c: echo requests and replies, and the table of the last eight replies. The table's lock
-- is held during each of its operations, which are single steps here.
pub mod Replies
use pro_os.Prelude.{
  ℕ, suc, ◌+◌, ◌-◌, Bool, ◌&&◌, Option, none, some, List, [], ◌∷◌, ◌++◌, min, ltb, leb, ◌==◌,
  if◌then◌else◌, length, get_or, set, take, replicate,
}
use pro_os.Prelude.Arrays.{shift_down, find_index}
use pro_os.Prelude.Int.{ℤ, failure, success}
use pro_os.Inet.{Device, Reply, Net, bytes_at, read_be16, write_be16, write_le16, checksum}
use pro_os.Inet.Ipv4

-- ICMP_REPLY_CAPACITY, the size of `struct icmp_echo_header`, and the most bytes that are echoed
abbrev pub reply_capacity : ℕ
reply_capacity = 8

abbrev pub header_size : ℕ
header_size = 8

abbrev pub echo_max : ℕ
echo_max = 1500

-- The number of the protocol in IPv4.
abbrev pub protocol : ℕ
protocol = 1

abbrev pub no_reply : Reply
no_reply = record { identifier = 0; sequence = 0; src_ipv4 = replicate 4 0 }

-- `record_reply`: a full table loses its first reply.
unfoldable pub drop_first : Net → Net
drop_first s =
    if leb reply_capacity s.reply_count
    then record s {
      replies = shift_down no_reply s.replies 0 (s.reply_count - 1);
      reply_count = s.reply_count - 1;
    }
    else s

unfoldable pub append_reply : Reply → Net → Net
append_reply r s = record s {
  replies = set s.replies s.reply_count r;
  reply_count = s.reply_count + 1;
}

-- `record_reply`, the source address not NULL.
unfoldable pub record_reply : ℕ → ℕ → List ℕ → Net → Net
record_reply identifier sequence src s =
    append_reply (record { identifier = identifier; sequence = sequence; src_ipv4 = src })
      (drop_first s)

-- A packet: the type, the code 0, the two bytes of the checksum, the identifier, the sequence number
-- and the data.
unfoldable pub message : ℕ → List ℕ → ℕ → ℕ → List ℕ → List ℕ
message type check identifier sequence bytes =
    type ∷ 0 ∷ check ++ (write_be16 identifier ++ (write_be16 sequence ++ bytes))

-- The checksum of the packet with zeros in its place is assigned to the field of 16 bits.
unfoldable pub sealed_message : ℕ → ℕ → ℕ → List ℕ → List ℕ
sealed_message type identifier sequence bytes =
    message type (write_le16 (checksum (message type (0 ∷ 0 ∷ []) identifier sequence bytes)))
      identifier sequence bytes

-- The answer to an echo request: at most `echo_max` bytes of its data.
unfoldable pub echo : Device → List ℕ → ℕ → List ℕ → Net → ℤ × Net
echo dev p size src s =
    Ipv4.send dev src protocol
      (sealed_message 0 (read_be16 p 4) (read_be16 p 6)
        (bytes_at header_size (min (size - header_size) echo_max) p))
      s

-- `icmp_receive`, the pointers not NULL, of a packet of `size` bytes.
unfoldable pub receive : Device → List ℕ → ℕ → List ℕ → Net → ℤ × Net
receive dev p size src s =
    if ltb size header_size
    then (failure, s)
    else if (get_or p 0 0 == 0) && (get_or p 1 0 == 0)
    then (success, record_reply (read_be16 p 4) (read_be16 p 6) src s)
    else if (get_or p 0 0 == 8) && (get_or p 1 0 == 0)
    then echo dev p size src s
    else (failure, s)

-- `icmp_send_echo_request`
unfoldable pub send_echo_request : Device → List ℕ → ℕ → ℕ → Net → ℤ × Net
send_echo_request dev dst identifier sequence s =
    Ipv4.send dev dst protocol (sealed_message 8 identifier sequence []) s

-- `icmp_clear_echo_replies`
unfoldable pub clear_replies : Net → Net
clear_replies s = record s { reply_count = 0 }

-- `icmp_take_reply_at_locked`: the reply that is copied out, if there is one at the place.
unfoldable pub take_reply_at : ℕ → Net → Option Reply × Net
take_reply_at index s = if leb s.reply_count index then (none, s) else (
  some (get_or s.replies index no_reply),
  record s {
    replies = shift_down no_reply s.replies index (s.reply_count - (index + 1));
    reply_count = s.reply_count - 1;
  },
)

abbrev pub is_reply : ℕ → ℕ → Reply → Bool
is_reply identifier sequence r = (r.identifier == identifier) && (r.sequence == sequence)

take_found : Option ℕ → Net → Option Reply × Net
take_found none s = (none, s)
take_found (some i) s = take_reply_at i s

-- `icmp_take_echo_reply`: the first reply with the two numbers.
unfoldable pub take_reply : ℕ → ℕ → Net → Option Reply × Net
unfolding take_found
take_reply identifier sequence s =
    take_found (find_index (is_reply identifier sequence) (take s.reply_count s.replies)) s

-- `icmp_take_any_echo_reply`
unfoldable pub take_any_reply : Net → Option Reply × Net
take_any_reply s = if ltb 0 s.reply_count then take_reply_at 0 s else (none, s)
