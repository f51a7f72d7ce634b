-- ===== src/Inet/Arp.antt =====
-- kernel/arp.c: the cache of hardware addresses, and the packets of the protocol. `now` is what
-- `get_ticks` answers.
pub mod Cache
use pro_os.Prelude.{
  ℕ, zero, suc, ◌+◌, Bool, true, false, not, ◌&&◌, ◌||◌, Option, none, some, List, [], ◌∷◌, ◌++◌,
  map, ltb, ◌==◌, if◌then◌else◌, length, get_or, set, replicate, ◌^◌, ◌-◌,
}
use pro_os.Prelude.Arrays.{find_index}
use pro_os.Prelude.Int.{ℤ, pos, failure, success, is_negative}
use pro_os.Inet.{Device, Entry, Net, ethertype_arp, bytes_at, read_be16, write_be16, send_frame}

-- ARP_CACHE_CAPACITY and the size of `struct arp_header`
abbrev pub cache_capacity : ℕ
cache_capacity = 8

abbrev pub header_size : ℕ
header_size = 28

-- ARP_HTYPE_ETHERNET, ARP_PTYPE_IPV4, ARP_OPER_REQUEST and ARP_OPER_REPLY
abbrev pub htype_ethernet : ℕ
htype_ethernet = 1

abbrev pub ptype_ipv4 : ℕ
ptype_ipv4 = 2048

abbrev pub oper_request : ℕ
oper_request = 1

abbrev pub oper_reply : ℕ
oper_reply = 2

-- An entry of static memory, all zeros.
abbrev pub no_entry : Entry
no_entry = record { device = none; ipv4 = replicate 4 0; mac = replicate 6 0; updated = 0 }

-- `ipv4_equal`, its loop over four bytes written out.
unfoldable pub ipv4_equal : List ℕ → List ℕ → Bool
ipv4_equal a b =
    (get_or a 0 0 == get_or b 0 0)
    && (get_or a 1 0 == get_or b 1 0)
    && (get_or a 2 0 == get_or b 2 0)
    && (get_or a 3 0 == get_or b 3 0)

abbrev pub is_device : Option ℕ → ℕ → Bool
is_device none dev = false
is_device (some d) dev = d == dev

abbrev pub is_free : Entry → Bool
is_free e = elim e.device [ none ↦ true | some d ↦ false ]

-- The test of the loops: the entry is in use, for this device and this address.
unfoldable pub is_entry_of : ℕ → List ℕ → Entry → Bool
is_entry_of dev ipv4 e = is_device e.device dev && ipv4_equal e.ipv4 ipv4

-- How the loop of `arp_cache_store` ends: at an entry to be renewed, or with `free_index` and
-- `oldest_index`.
pub data Scan : Type 0 where
  hit : ℕ → Scan
  miss : ℕ → ℕ → Scan

-- `entry->dev && entry->updated < oldest_time`
abbrev pub is_older : Entry → ℕ → Bool
is_older e time = not (is_free e) && ltb e.updated time

-- The loop of `arp_cache_store`, from entry `i` on.
unfoldable pub scan : ℕ → List ℕ → List Entry → (i free oldest time : ℕ) → Scan
scan dev ipv4 [] i free oldest time = miss free oldest
scan dev ipv4 (e ∷ es) i free oldest time =
    let rest =
      scan dev ipv4 es (suc i) (if is_free e && (free == cache_capacity) then i else free)
        (if is_older e time then i else oldest) (if is_older e time then e.updated else time) in
    if is_entry_of dev ipv4 e then hit i else rest

-- `target`
unfoldable pub target : ℕ → ℕ → ℕ
target free oldest =
    let found : ℕ = if not (free == cache_capacity) then free else oldest in
    if found == cache_capacity then 0 else found

-- What is written where the loop ended.
unfoldable pub place : ℕ → ℕ → List ℕ → List ℕ → List Entry → Scan → List Entry
place now dev ipv4 mac cache (hit i) =
    set cache i (record (get_or cache i no_entry) { mac = mac; updated = now })
place now dev ipv4 mac cache (miss free oldest) =
    set cache (target free oldest)
      (record { device = some dev; ipv4 = ipv4; mac = mac; updated = now })

unfoldable pub cache_store : ℕ → ℕ → List ℕ → List ℕ → List Entry → List Entry
cache_store now dev ipv4 mac cache =
    place now dev ipv4 mac cache (scan dev ipv4 cache 0 cache_capacity cache_capacity (2 ^ 64 - 1))

mac_at : List Entry → Option ℕ → Option (List ℕ)
mac_at cache none = none
mac_at cache (some i) = some (get_or cache i no_entry).mac

-- `arp_cache_lookup`: the address that it writes, if it finds one.
unfoldable pub cache_lookup : ℕ → List ℕ → List Entry → Option (List ℕ)
unfolding mac_at
cache_lookup dev ipv4 cache = mac_at cache (find_index (is_entry_of dev ipv4) cache)

-- A `struct arp_header` as it is filled in for Ethernet and IPv4.
unfoldable pub packet : ℕ → List ℕ → List ℕ → List ℕ → List ℕ → List ℕ
packet oper sha spa tha tpa =
    write_be16 htype_ethernet
    ++ (write_be16 ptype_ipv4 ++ (6 ∷ 4 ∷ write_be16 oper ++ (sha ++ (spa ++ (tha ++ tpa)))))

-- The `sha`, `spa` and `tpa` of a header, and its `oper`.
abbrev pub sha_of : List ℕ → List ℕ
sha_of p = bytes_at 8 6 p

abbrev pub spa_of : List ℕ → List ℕ
spa_of p = bytes_at 14 4 p

abbrev pub tpa_of : List ℕ → List ℕ
tpa_of p = bytes_at 24 4 p

abbrev pub oper_of : List ℕ → ℕ
oper_of p = read_be16 p 6

-- `arp_receive`: the test of the header's format.
unfoldable pub is_supported : List ℕ → Bool
is_supported p =
    (read_be16 p 0 == htype_ethernet)
    && (read_be16 p 2 == ptype_ipv4)
    && (get_or p 4 0 == 6)
    && (get_or p 5 0 == 4)

-- The sender goes into the cache.
unfoldable pub learn : ℕ → Device → List ℕ → Net → Net
learn now dev p s = record s { cache = cache_store now dev.id (spa_of p) (sha_of p) s.cache }

-- The answer to a request.
unfoldable pub answer : Device → List ℕ → Net → ℤ × Net
answer dev p s =
    let (code, s') =
      send_frame dev (sha_of p) ethertype_arp
        (packet oper_reply dev.mac (tpa_of p) (sha_of p) (spa_of p)) s in
    (if is_negative code then failure else success, s')

-- `arp_receive`, the pointers not NULL, of a packet of `size` bytes.
unfoldable pub receive : ℕ → Device → List ℕ → ℕ → Net → ℤ × Net
receive now dev p size s =
    if ltb size header_size
    then (failure, s)
    else if not (is_supported p)
    then (failure, s)
    else if oper_of p == oper_request
    then answer dev p (learn now dev p s)
    else if oper_of p == oper_reply
    then (success, learn now dev p s)
    else (failure, s)

-- The source address of a request: the system's own, also if that is all zeros.
abbrev pub source_of : Net → List ℕ
source_of s =
    let have_ip : Bool = not (ipv4_equal s.address (replicate 4 0)) in
    if have_ip then s.address else replicate 4 0

unfoldable pub ask : Device → List ℕ → Net → ℤ × List ℕ × Net
ask dev ipv4 s =
    let (code, s') =
      send_frame dev (replicate 6 255) ethertype_arp
        (packet oper_request dev.mac (source_of s) (replicate 6 0) ipv4) s in
    (if is_negative code then failure else pos 1, [], s')

known_or_ask : Device → List ℕ → Net → Option (List ℕ) → ℤ × List ℕ × Net
known_or_ask dev ipv4 s none = ask dev ipv4 s
known_or_ask dev ipv4 s (some mac) = (success, mac, s)

-- `arp_resolve`, the pointers not NULL: the code, the address if it is known, and the state.
unfoldable pub resolve : Device → List ℕ → Net → ℤ × List ℕ × Net
unfolding known_or_ask
resolve dev ipv4 s = known_or_ask dev ipv4 s (cache_lookup dev.id ipv4 s.cache)
