-- ===== src/Inet/Ipv4.antt =====
-- kernel/ipv4.c: the sending of packets and the system's address. What it does with a received packet
-- is in Inet/Input.antt, which stands on the ICMP part.
use pro_os.Prelude.{ℕ, ◌+◌, ◌%◌, ◌^◌, List, [], ◌∷◌, ◌++◌, ltb, if◌then◌else◌, length, take}
use pro_os.Prelude.Int.{ℤ, pos, failure, is_negative, is_positive}
use pro_os.Inet.{
  Device, Net, max_payload, ethertype_ipv4, write_be16, write_le16, checksum, send_frame,
}
use pro_os.Inet.Arp

-- The size of `struct ipv4_header`
abbrev pub header_size : ℕ
header_size = 20

-- The header with the two bytes of its field `checksum`.
unfoldable pub header : ℕ → ℕ → ℕ → List ℕ → List ℕ → List ℕ → List ℕ
header total_length ident protocol check src dst =
    69 ∷ 0 ∷ write_be16 total_length
    ++ (write_be16 ident ++ (write_be16 0 ++ (64 ∷ protocol ∷ check ++ (src ++ dst))))

-- The header as it is sent: the checksum is that of the header with zeros in its place, and is
-- assigned to the field of 16 bits.
unfoldable pub sealed_header : ℕ → ℕ → ℕ → List ℕ → List ℕ → List ℕ
sealed_header total_length ident protocol src dst =
    header total_length ident protocol
      (write_le16 (checksum (header total_length ident protocol (0 ∷ 0 ∷ []) src dst))) src dst

-- The packet is built with the next identification and handed to the device.
unfoldable pub transmit : Device → List ℕ → List ℕ → ℕ → List ℕ → Net → ℤ × Net
transmit dev mac dst protocol bytes s =
    let ident : ℕ = (s.ident + 1) % 2 ^ 16 in
    send_frame dev mac ethertype_ipv4
      (sealed_header (header_size + length bytes) ident protocol s.address dst ++ bytes)
      (record s { ident = ident })

-- `ipv4_send`, the pointers not NULL: without a hardware address for its target the packet
-- is not sent, and 1 says that a request for the address went out.
unfoldable pub send : Device → List ℕ → ℕ → List ℕ → Net → ℤ × Net
send dev dst protocol bytes s =
    let (code, mac, s') = Arp.resolve dev dst s in
    if ltb max_payload ((header_size + length bytes) % 2 ^ 32)
    then (failure, s)
    else if is_negative code
    then (failure, s')
    else if is_positive code
    then (pos 1, s')
    else transmit dev mac dst protocol bytes s'

-- `ipv4_set_address`, of the four bytes at the pointer.
unfoldable pub set_address : List ℕ → Net → Net
set_address addr s = record s { address = take 4 addr }
