-- ===== src/Inet/Input.antt =====
-- `ipv4_receive` of kernel/ipv4.c and `ethernet_process_frame` of kernel/ethernet.c: the way of a
-- received frame through the protocols. A frame is the memory from its first byte on.
pub mod Bounds
use pro_os.Prelude.{
  ℕ, ◌+◌, ◌-◌, ◌*◌, ◌/◌, ◌%◌, ◌^◌, Bool, not, ◌&&◌, List, drop, take, ltb, ◌==◌, if◌then◌else◌,
  get_or,
}
use pro_os.Prelude.Int.{ℤ, failure}
use pro_os.NetSocket.{Socket, notify}
use pro_os.Inet.{Device, Net, ethertype_arp, ethertype_ipv4, bytes_at, read_be16}
use pro_os.Inet.Arp
use pro_os.Inet.Ipv4
use pro_os.Inet.Icmp

-- The length of the header that the packet states, `ihl * 4`.
abbrev pub header_len : List ℕ → ℕ
header_len p = get_or p 0 0 % 16 * 4

abbrev pub total_length : List ℕ → ℕ
total_length p = read_be16 p 2

-- The version is 4 and the header has five words at least.
unfoldable pub is_version_4 : List ℕ → Bool
is_version_4 p = (get_or p 0 0 / 16 == 4) && not (ltb (get_or p 0 0 % 16) 5)

-- `payload_len`: a difference of unsigned words of 32 bits.
abbrev pub payload_len : List ℕ → ℕ
payload_len p = (total_length p + 2 ^ 32 - header_len p) % 2 ^ 32

-- `ipv4_receive`, the pointers not NULL, of a packet of `size` bytes.
unfoldable pub receive : Device → List ℕ → ℕ → Net → ℤ × Net
receive dev p size s =
    if ltb size Ipv4.header_size
    then (failure, s)
    else if not (is_version_4 p)
    then (failure, s)
    else if ltb size (header_len p)
    then (failure, s)
    else if ltb size (total_length p)
    then (failure, s)
    else if get_or p 9 0 == Icmp.protocol
    then Icmp.receive dev (drop (header_len p) p) (payload_len p) (bytes_at 12 4 p) s
    else (failure, s)

-- The size of `struct ethernet_header`
abbrev pub ethernet_header_size : ℕ
ethernet_header_size = 14

-- `ethernet_process_frame`, the pointers not NULL, of a frame of `size` bytes at the time `now`.
unfoldable pub process_frame : ℕ → Device → List ℕ → ℕ → Net → ℤ × Net
process_frame now dev frame size s =
    let payload : List ℕ = drop ethernet_header_size frame in
    let ethertype : ℕ = read_be16 frame 12 in
    if ltb size ethernet_header_size
    then (failure, s)
    else if ethertype == ethertype_arp
    then Arp.receive now dev payload (size - ethernet_header_size) s
    else if ethertype == ethertype_ipv4
    then receive dev payload (size - ethernet_header_size) s
    else (failure, s)

-- `net_receive_frame` of kernel/net.c: the raw sockets of the device get the frame first.
unfoldable pub receive_frame : ℕ → Device → List ℕ → ℕ → List Socket → Net → ℤ × List Socket × Net
receive_frame now dev frame size socks s =
    let (code, s') = process_frame now dev frame size s in
    if size == 0 then (failure, socks, s) else (code, notify dev.id (take size frame) socks, s')
