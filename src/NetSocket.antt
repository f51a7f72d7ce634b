-- ===== src/NetSocket.antt =====
-- kernel/net_socket.c and the device table of kernel/net.c: raw sockets, each with a ring of the last
-- frames that its device received. A device is named by its place in the device table; what its
-- driver does with a frame to be sent is a parameter of `send`.
pub mod Rings
pub mod Delivery
mod Tests
use pro_os.Prelude.{
  ℕ, zero, suc, ◌+◌, ◌-◌, ◌%◌, Bool, true, false, not, ◌||◌, ◌&&◌, Option, none, some, List, [],
  ◌∷◌, ◌++◌, map, ltb, leb, ◌==◌, if◌then◌else◌, get_or, set, take, replicate, length, min,
  get_elem?,
}
use pro_os.Prelude.Arrays.{find_index}
use pro_os.Prelude.Blocks.{copy}
use pro_os.Prelude.Int.{ℤ, pos, negsuc, failure}

-- NET_SOCKET_CAPACITY, NET_SOCKET_QUEUE, NET_SOCKET_FRAME_MAX and MAX_NET_DEVICES
abbrev pub capacity : ℕ
capacity = 4

abbrev pub queue_size : ℕ
queue_size = 8

abbrev pub frame_max : ℕ
frame_max = 1600

abbrev pub max_devices : ℕ
max_devices = 4

-- `struct net_raw_packet`: the array `bytes` is the field `data`.
pub record Packet : Type 0 where
  pub size : ℕ
  pub bytes : List ℕ

-- `struct net_raw_socket`, without its lock; `device` is `none` for NULL.
pub record Socket : Type 0 where
  pub used : Bool
  pub device : Option ℕ
  pub head : ℕ
  pub tail : ℕ
  pub count : ℕ
  pub packets : List Packet

-- Packets start as static memory, all zeros. The term is shut: it is long.
pub blank : Packet
blank = record { size = 0; bytes = replicate frame_max 0 }

abbrev pub no_socket : Socket
no_socket = record {
  used = false;
  device = none;
  head = 0;
  tail = 0;
  count = 0;
  packets = replicate queue_size blank;
}

-- The device table of net.c: `g_devices[0 .. g_device_count)`. A device is given with whether its
-- `ops` have a `transmit`.
pub record Device : Type 0 where
  pub name : ℕ
  pub has_transmit : Bool

-- `net_register_device`, the device argument not NULL.
pub register_device : Device → List Device → ℤ × List Device
register_device dev devices =
    if not dev.has_transmit
    then (failure, devices)
    else if leb max_devices (length devices)
    then (failure, devices)
    else (pos 0, devices ++ dev ∷ [])

-- `resolve_socket`: the index of a live socket.
pub resolve : ℤ → List Socket → Option ℕ
resolve (negsuc n) socks = none
resolve (pos zero) socks = none
resolve (pos (suc i)) socks =
    if leb capacity i then none else if (get_or socks i no_socket).used then some i else none

-- What `net_open` and `net_close` leave of a socket: the packets stay.
cleared : Bool → Option ℕ → Socket → Socket
cleared used device s = record s { used = used; device = device; head = 0; tail = 0; count = 0 }

-- `net_socket_system_init`
pub init : List Socket → List Socket
init socks = map (cleared false none) socks

-- `net_open`, with the first device of the table, if there is one.
pub open_socket : Option ℕ → List Socket → ℤ × List Socket
open_socket none socks = (failure, socks)
open_socket (some dev) socks = elim (find_index (λ s. not s.used) socks) [
  | none ↦ (failure, socks)
  | some i ↦ (pos (suc i), set socks i (cleared true (some dev) (get_or socks i no_socket)))
]

pub close : ℤ → List Socket → ℤ × List Socket
close handle socks = elim (resolve handle socks) [
  | none ↦ (failure, socks)
  | some i ↦ (pos 0, set socks i (cleared false none (get_or socks i no_socket)))
]

-- `net_send`: `transmit` is what the device's driver answers, `none` where the device has no
-- transmit function.
pub send : (ℕ → Option (List ℕ → ℤ)) → ℤ → List ℕ → List Socket → ℤ
send transmit handle frame socks = elim (resolve handle socks) [
  | none ↦ failure
  | some i ↦
      if (length frame == 0) || ltb frame_max (length frame)
      then failure
      else elim (get_or socks i no_socket).device [
        | none ↦ failure
        | some dev ↦ elim (transmit dev) [ none ↦ failure | some f ↦ f frame ]
      ]
]

-- The oldest packet leaves the ring.
advance : Socket → Socket
advance s = record s { head = (s.head + 1) % queue_size; count = s.count - 1 }

-- `net_recv` on a live socket: the code, the bytes written to the buffer of `max` bytes, the socket.
pub recv_from : ℕ → Socket → ℤ × List ℕ × Socket
recv_from max s =
    let packet = get_or s.packets s.head blank in
    if s.count == 0
    then (pos 0, [], s)
    else if ltb max packet.size
    then (failure, [], advance s)
    else (pos packet.size, take packet.size packet.bytes, advance s)

pub recv : ℤ → ℕ → List Socket → ℤ × List ℕ × List Socket
recv handle max socks = elim (resolve handle socks) [
  | none ↦ (failure, [], socks)
  | some i ↦
      if max == 0
      then (failure, [], socks)
      else let (code, bytes, s) = recv_from max (get_or socks i no_socket) in
        (code, bytes, set socks i s)
]

-- A full ring gives up its oldest packet.
make_room : Socket → Socket
make_room s = if s.count == queue_size then advance s else s

-- The frame is written at the tail.
store : List ℕ → Socket → Socket
store frame s = record s {
  packets =
      set s.packets s.tail (record packet { size = size; bytes = copy packet.bytes frame size });
  tail = (s.tail + 1) % queue_size;
  count = s.count + 1;
}
  where
    size : ℕ
    size = min (length frame) frame_max

    packet : Packet
    packet = get_or s.packets s.tail blank

abbrev pub same_device : Option ℕ → ℕ → Bool
same_device none dev = false
same_device (some d) dev = d == dev

-- The body of the loop of `net_socket_notify_frame`.
pub deliver : ℕ → List ℕ → Socket → Socket
deliver dev frame s =
    if not s.used || not (same_device s.device dev) then s else store frame (make_room s)

-- `net_socket_notify_frame`, the device not NULL: an empty frame is ignored.
pub notify : ℕ → List ℕ → List Socket → List Socket
notify dev frame socks = if length frame == 0 then socks else map (deliver dev frame) socks

-- `net_init` of net.c: no devices, and the sockets closed.
pub net_init : List Socket → List Device × List Socket
net_init socks = ([], init socks)

-- `net_get_device`, and `net_device_count` beside it
pub get_device : ℕ → List Device → Option Device
get_device i devices = get_elem? devices i

pub device_count : List Device → ℕ
device_count devices = length devices

-- `net_poll_devices`: each device's `poll`, `none` for NULL, changes a state of the driver's choice, and
-- the answers above 0 are added.
polled : ℤ → ℕ
polled (pos n) = n
polled (negsuc n) = 0

pub poll_devices {ℓ} : {S : Type ℓ} → List (Option (S → ℤ × S)) → S → ℕ × S
poll_devices [] s = (0, s)
poll_devices (none ∷ devices) s = poll_devices devices s
poll_devices (some poll ∷ devices) s =
    let (rc, s') = poll s in let (n, s'') = poll_devices devices s' in (polled rc + n, s'')
