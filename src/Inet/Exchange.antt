-- ===== src/Inet/Exchange.antt =====
-- Two systems that ask and answer for a hardware address: kernel/arp.c with ethernet.c between them.
use pro_os.Prelude.{
  ℕ, ◌<◌, ◌^◌, ◌-◌, ◌≡◌, refl, false, none, some, List, [], ◌∷◌, ◌++◌, arith, length, get_or,
  replicate,
}
use pro_os.Prelude.Int.{ℤ, pos, success, is_negative}
use pro_os.Inet.{Device, Entry, Net, ethertype_arp, send_frame}
use pro_os.Inet.Frames.{frame, process_frame-arp, packet-read}
use pro_os.Inet.Arp.{
  cache_capacity, no_entry, packet, oper_request, oper_reply, cache_lookup, cache_store, source_of,
  learn, answer, ask, resolve, receive,
}
use pro_os.Inet.Arp.Cache.{cache_store_lem}
use pro_os.Inet.Input.{process_frame}

-- A device whose driver takes every frame.
pub record IsWorking (dev : Device) : Type 0 where
  pub driver : List ℕ → ℤ
  pub has_driver : dev.transmit ≡ some driver
  pub takes : (f : List ℕ) → is_negative (driver f) ≡ false
  pub address : length dev.mac ≡ 6

-- A short packet is handed to the driver in a frame.
send_frame-IsWorking :
    (dev : Device) (dest : List ℕ) (ethertype : ℕ) (bytes : List ℕ) (s : Net) (w : IsWorking dev)
    → length bytes ≡ 28
    → send_frame dev dest ethertype bytes s ≡ (
      w.driver (frame dest dev.mac ethertype bytes),
      record s { sent = s.sent ++ (dev.id, frame dest dev.mac ethertype bytes) ∷ [] },
    )
unfolding send_frame
send_frame-IsWorking dev dest ethertype bytes s w l = rw (w.has_driver, l) refl

abbrev pub request : Device → List ℕ → Net → List ℕ
request dev ipv4 s =
    frame (replicate 6 255) dev.mac ethertype_arp
      (packet oper_request dev.mac (source_of s) (replicate 6 0) ipv4)

abbrev pub reply : Device → List ℕ → List ℕ → List ℕ → List ℕ
reply dev tpa sha spa = frame sha dev.mac ethertype_arp (packet oper_reply dev.mac tpa sha spa)

length-source_of : (s : Net) → length s.address ≡ 4 → length (source_of s) ≡ 4
length-source_of s h = ground arith

-- An address that is not in the cache is asked for.
resolve-unknown :
    (dev : Device) (ipv4 : List ℕ) (s : Net)
    → IsWorking dev
    → length ipv4 ≡ 4
    → length s.address ≡ 4
    → cache_lookup dev.id ipv4 s.cache ≡ none
    → resolve dev ipv4 s
      ≡ (pos 1, [], record s { sent = s.sent ++ (dev.id, request dev ipv4 s) ∷ [] })
unfolding resolve ask
resolve-unknown dev ipv4 s w l la miss =
    let p =
      packet-read oper_request dev.mac (source_of s) (replicate 6 0) ipv4 w.address
        (length-source_of s la) refl l (omega arith) in
    rw
      (
        miss,
        send_frame-IsWorking dev (replicate 6 255) ethertype_arp
            (packet oper_request dev.mac (source_of s) (replicate 6 0) ipv4) s w p.5,
        w.takes (request dev ipv4 s),
      )
      refl

module _ (now : ℕ) (dev : Device) (sha spa tha tpa : List ℕ) (s : Net) (w : IsWorking dev)
    (lsha : length sha ≡ 6) (lspa : length spa ≡ 4) (ltha : length tha ≡ 6)
    (ltpa : length tpa ≡ 4) where
  -- A request is answered, whatever address it asks for.
  receive-request : receive now dev (packet oper_request sha spa tha tpa) 28 s ≡ (
    success,
    record s {
      cache = cache_store now dev.id spa sha s.cache;
      sent = s.sent ++ (dev.id, reply dev tpa sha spa) ∷ [];
    },
  )
  unfolding receive answer learn
  receive-request =
      let p = packet-read oper_request sha spa tha tpa lsha lspa ltha ltpa (omega arith) in
      let r = packet-read oper_reply dev.mac tpa sha spa w.address ltpa lsha lspa (omega arith) in
      rw (p.0, p.1, p.2, p.3, p.4)
        (rw
          (
            send_frame-IsWorking dev sha ethertype_arp (packet oper_reply dev.mac tpa sha spa)
                (record s { cache = cache_store now dev.id spa sha s.cache }) w r.5,
            w.takes (reply dev tpa sha spa),
          )
          refl)

  receive-reply :
      receive now dev (packet oper_reply sha spa tha tpa) 28 s
      ≡ (success, record s { cache = cache_store now dev.id spa sha s.cache })
  unfolding receive learn
  receive-reply =
      let p = packet-read oper_reply sha spa tha tpa lsha lspa ltha ltpa (omega arith) in
      rw (p.0, p.1, p.2, p.3) refl

-- A cache of eight entries, none of them with the last time.
pub record IsCache (cache : List Entry) : Type 0 where
  pub room : length cache ≡ cache_capacity
  pub timely : (j : ℕ) → (get_or cache j no_entry).updated < 2 ^ 64 - 1

store-lookup :
    (now dev : ℕ) (ipv4 mac : List ℕ) (cache : List Entry)
    → IsCache cache
    → cache_lookup dev ipv4 (cache_store now dev ipv4 mac cache) ≡ some mac
store-lookup now dev ipv4 mac cache v = (cache_store_lem now dev ipv4 mac cache v.room v.timely).2.3

resolve-known :
    (dev : Device) (ipv4 mac : List ℕ) (s : Net)
    → cache_lookup dev.id ipv4 s.cache ≡ some mac
    → resolve dev ipv4 s ≡ (success, mac, s)
unfolding resolve
resolve-known dev ipv4 mac s h = rw h refl

module _ (a b : Device) (wa : IsWorking a) (wb : IsWorking b) (ipv4 : List ℕ) (s t : Net)
    (length_ipv4 : length ipv4 ≡ 4) (length_address : length s.address ≡ 4)
    (cache_a : IsCache s.cache) (cache_b : IsCache t.cache)
    (unknown : cache_lookup a.id ipv4 s.cache ≡ none) where
  -- `a` in state `s` asks for an address that it does not know, and sends one frame, a request. A
  -- system with the device `b` that receives the frame, in state `t`, knows `a` afterwards and sends
  -- one frame, a reply, whatever its own address is. When `a` receives that, it resolves the address
  -- to the hardware address of `b`.
  pub exchange_lem :
      (now_b now_a : ℕ)
      → let (code, _, asking) = resolve a ipv4 s in
        (question response : List ℕ) × (code ≡ pos 1)
        × (asking.sent ≡ s.sent ++ (a.id, question) ∷ [])
        × (let (c, answering) = process_frame now_b b question (length question) t in
            (c ≡ success)
            × (answering.sent ≡ t.sent ++ (b.id, response) ∷ [])
            × (cache_lookup b.id (source_of s) answering.cache ≡ some a.mac))
        × (let (c, knowing) = process_frame now_a a response (length response) asking in
            (c ≡ success) × (resolve a ipv4 knowing ≡ (success, b.mac, knowing)))
  exchange_lem now_b now_a =
      let asked : Net = record s { sent = s.sent ++ (a.id, request a ipv4 s) ∷ [] } in
      let ls = length-source_of s length_address in
      let p =
        packet-read oper_request a.mac (source_of s) (replicate 6 0) ipv4 wa.address ls refl
          length_ipv4 (omega arith) in
      let r =
        packet-read oper_reply b.mac ipv4 a.mac (source_of s) wb.address length_ipv4 wa.address ls
          (omega arith) in
      rw (resolve-unknown a ipv4 s wa length_ipv4 length_address unknown) (
        request a ipv4 s,
        reply b ipv4 a.mac (source_of s),
        refl,
        refl,
        rw
            (
              process_frame-arp now_b b (replicate 6 255) a.mac
                  (packet oper_request a.mac (source_of s) (replicate 6 0) ipv4) t refl wa.address,
              p.5,
              receive-request now_b b a.mac (source_of s) (replicate 6 0) ipv4 t wb wa.address ls
                  refl length_ipv4,
            )
            (refl, refl, store-lookup now_b b.id (source_of s) a.mac t.cache cache_b),
        rw
            (
              process_frame-arp now_a a a.mac b.mac
                  (packet oper_reply b.mac ipv4 a.mac (source_of s)) asked wa.address wb.address,
              r.5,
              receive-reply now_a a b.mac ipv4 a.mac (source_of s) asked wa wb.address length_ipv4
                  wa.address ls,
            )
            (
              refl,
              resolve-known a ipv4 b.mac
                  (record asked { cache = cache_store now_a a.id ipv4 b.mac s.cache })
                  (store-lookup now_a a.id ipv4 b.mac s.cache cache_a),
            ),
      )
