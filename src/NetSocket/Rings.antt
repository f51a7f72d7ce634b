-- ===== src/NetSocket/Rings.antt =====
-- The ring of a socket against a bounded queue of frames: kernel/net_socket.c.
use native.Mathlib.Numerals.{add-one}
use mathlib.Core.List.{map-append}
use pro_os.Prelude.{
  false, not, ◌||◌, ◌&&◌, length-take, ℕ, suc, ◌+◌, ◌-◌, ◌%◌, ◌≤◌, ◌<◌, min, ◌≡◌, refl, ap, subst,
  ◌∙◌, ◌⊎◌, inl, inr, List, [], ◌∷◌, ◌++◌, map, arith, length, take, drop, get_or, length-set,
  length-map, ◌≢◌, sym, Bool-cases, ◌==◌, if◌then◌else◌,
}
use pro_os.Prelude.Arrays.{All, All-get_or, All-set}
use pro_os.Prelude.Rings.{live, live-set_tail, live-next, length-live}
use pro_os.Prelude.Blocks.{copy, length-copy, take-copy, take-min}
use pro_os.Prelude.Int.{pos, failure}
use pro_os.NetSocket.{
  Packet, Socket, queue_size, frame_max, blank, advance, recv_from, make_room, store, deliver,
  same_device,
}

-- A packet's size is that of bytes in its array.
pub record Fits (p : Packet) : Type 0 where
  pub room : length p.bytes ≡ frame_max
  pub small : p.size ≤ frame_max

-- The indices of a socket describe a ring of at most eight packets.
pub record IsValid (s : Socket) : Type 0 where
  pub room : length s.packets ≡ queue_size
  pub head_in : s.head < queue_size
  pub bounded : s.count ≤ queue_size
  pub tail_at : s.tail ≡ (s.head + s.count) % queue_size
  pub packets_fit : All Fits s.packets

abbrev pub payload : Packet → List ℕ
payload p = take p.size p.bytes

abbrev pub stored : Socket → List Packet
stored s = live blank queue_size s.packets s.head s.count

-- The frames in the socket, oldest first.
unfoldable pub frames : Socket → List (List ℕ)
frames s = map payload (stored s)

-- The specification: a queue that drops its oldest frame to take a new one, and cuts long frames.
pub enqueue : List ℕ → List (List ℕ) → List (List ℕ)
enqueue frame q = (if length q == queue_size then drop 1 q else q) ++ take frame_max frame ∷ []

pub blank-Fits : Fits blank
unfolding blank
blank-Fits = record { room = refl; small = omega arith }

length-frames : (s : Socket) → length (frames s) ≡ s.count
unfolding frames
length-frames s =
    omega
      (arith, length-map (stored s) payload, length-live blank queue_size s.packets s.head s.count)

-- The oldest packet is the one at the head; `advance` leaves the others.
frames-advance :
    (s : Socket)
    → IsValid s
    → s.count ≢ 0
    → frames s ≡ payload (get_or s.packets s.head blank) ∷ frames (advance s)
unfolding frames advance
frames-advance s v ne =
    let n : s.count ≡ suc (s.count - 1) = omega arith in
    subst
      (λ k.
        map payload (live blank queue_size s.packets s.head k)
        ≡ payload (get_or s.packets s.head blank)
          ∷ map payload (live blank queue_size s.packets ((s.head + 1) % queue_size) (s.count - 1)))
      (sym n)
      (ap (map payload) (live-next blank queue_size s.packets s.head (s.count - 1) v.head_in))

advance-IsValid : (s : Socket) → IsValid s → s.count ≢ 0 → IsValid (advance s)
unfolding advance
advance-IsValid s v ne = record {
  room = v.room;
  head_in = omega arith;
  bounded = omega (arith, v.bounded);
  tail_at = omega (arith, v.tail_at, v.head_in, v.bounded);
  packets_fit = v.packets_fit;
}

count-advance : (s : Socket) → (advance s).count ≡ s.count - 1
unfolding advance
count-advance s = refl

make_room_lem :
    (s : Socket)
    → IsValid s
    → IsValid (make_room s)
      × (make_room s).count < queue_size
      × (frames (make_room s)
          ≡ (if length (frames s) == queue_size then drop 1 (frames s) else frames s))
unfolding make_room
make_room_lem s v = elim (Bool-cases (s.count == queue_size)) [
  | inl full ↦
      rw (length-frames s, full)
        (
          advance-IsValid s v (ground arith),
          ground (arith, count-advance s),
          ap (drop 1) (sym (frames-advance s v (ground arith))),
        )
  | inr space ↦ rw (length-frames s, space) (v, ground (arith, v.bounded), refl)
]

stored_packet-Fits :
    (p : Packet) (frame : List ℕ)
    → Fits p
    → Fits (record p {
      size = min (length frame) frame_max;
      bytes = copy p.bytes frame (min (length frame) frame_max);
    })
stored_packet-Fits p frame f = record {
  room = omega (arith, length-copy p.bytes frame (min (length frame) frame_max), f.room);
  small = omega arith;
}

abbrev filled : List ℕ → Packet → Packet
filled frame p = record p {
  size = min (length frame) frame_max;
  bytes = copy p.bytes frame (min (length frame) frame_max);
}

payload-filled :
    (frame : List ℕ) (p : Packet) → Fits p → payload (filled frame p) ≡ take frame_max frame
payload-filled frame p f =
    take-copy p.bytes frame (min (length frame) frame_max) (omega (arith, f.room)) (omega arith)
    ∙ take-min frame frame_max

packet_at : (s : Socket) → IsValid s → (i : ℕ) → Fits (get_or s.packets i blank)
packet_at s v i = All-get_or Fits s.packets i blank v.packets_fit blank-Fits

store-IsValid :
    (frame : List ℕ) (s : Socket) → IsValid s → s.count < queue_size → IsValid (store frame s)
unfolding store
store-IsValid frame s v space = record {
  room =
      omega
        (arith, length-set s.packets s.tail (filled frame (get_or s.packets s.tail blank)), v.room);
  head_in = v.head_in;
  bounded = omega arith;
  tail_at = omega (arith, v.tail_at, v.head_in);
  packets_fit =
      All-set Fits s.packets s.tail (filled frame (get_or s.packets s.tail blank)) v.packets_fit
        (stored_packet-Fits (get_or s.packets s.tail blank) frame (packet_at s v s.tail));
}

stored-store :
    (frame : List ℕ) (s : Socket)
    → IsValid s
    → s.count < queue_size
    → stored (store frame s) ≡ stored s ++ filled frame (get_or s.packets s.tail blank) ∷ []
unfolding store
stored-store frame s v space =
    rw (v.tail_at, add-one s.count)
      (live-set_tail blank queue_size s.packets s.head s.count
        (filled frame (get_or s.packets ((s.head + s.count) % queue_size) blank)) v.room v.head_in
        space)

frames-store :
    (frame : List ℕ) (s : Socket)
    → IsValid s
    → s.count < queue_size
    → frames (store frame s) ≡ frames s ++ take frame_max frame ∷ []
unfolding frames
frames-store frame s v space =
    rw (stored-store frame s v space, map-append)
      (ap (λ f. map payload (stored s) ++ f ∷ [])
        (payload-filled frame (get_or s.packets s.tail blank) (packet_at s v s.tail)))

queued :
    (frame : List ℕ) (s : Socket)
    → IsValid s
    → IsValid (store frame (make_room s))
      × (frames (store frame (make_room s)) ≡ enqueue frame (frames s))
unfolding enqueue
queued frame s v =
    let r = make_room_lem s v in
    (
      store-IsValid frame (make_room s) r.0 r.1,
      frames-store frame (make_room s) r.0 r.1 ∙ ap (λ q. q ++ take frame_max frame ∷ []) r.2,
    )

make_room-keeps : (s : Socket) → ((make_room s).used ≡ s.used) × ((make_room s).device ≡ s.device)
unfolding make_room advance
make_room-keeps s = elim (Bool-cases (s.count == queue_size)) [
  | inl e ↦ rw e (refl, refl)
  | inr d ↦ rw d (refl, refl)
]

deliver-rest :
    (dev : ℕ) (frame : List ℕ) (s : Socket)
    → ((deliver dev frame s).used ≡ s.used)
      × ((deliver dev frame s).device ≡ s.device)
      × ((s.used && same_device s.device dev) ≡ false → deliver dev frame s ≡ s)
unfolding deliver store
deliver-rest dev frame s = elim (Bool-cases (not s.used || not (same_device s.device dev))) [
  | inl skip ↦ rw skip (refl, refl, λ e. refl)
  | inr go ↦
      rw go ((make_room-keeps s).0, (make_room-keeps s).1, λ e. absurd (ground (arith, go, e)))
]

-- A frame for a socket in use from its device goes into the queue as the specification says: cut at the
-- size of a packet, and in place of the oldest one where the queue is full. It keeps the socket's device and use. Any
-- other frame leaves the socket as it was. The indices stay those of a ring.
pub deliver_refines :
    (dev : ℕ) (frame : List ℕ) (s : Socket)
    → IsValid s
    → IsValid (deliver dev frame s)
      × (frames (deliver dev frame s)
          ≡ (if s.used && same_device s.device dev then enqueue frame (frames s) else frames s))
      × ((deliver dev frame s).used ≡ s.used)
      × ((deliver dev frame s).device ≡ s.device)
      × ((s.used && same_device s.device dev) ≡ false → deliver dev frame s ≡ s)
unfolding deliver
deliver_refines dev frame s v =
    let kept = deliver-rest dev frame s in
    (queued_or_kept.0, queued_or_kept.1, kept.0, kept.1, kept.2)
  where
    queued_or_kept :
        IsValid (deliver dev frame s)
        × (frames (deliver dev frame s)
            ≡ (if s.used && same_device s.device dev then enqueue frame (frames s) else frames s))
    queued_or_kept = ground (arith, queued frame s v)

length-payload : (p : Packet) → Fits p → length (payload p) ≡ p.size
length-payload p f = omega (arith, length-take p.size p.bytes, f.room, f.small)

nothing-frames : (s : Socket) → s.count ≡ 0 → frames s ≡ []
unfolding frames
nothing-frames s e = rw e refl

-- What `net_recv` does, in terms of the queue: nothing to read gives 0; a frame that does not fit the
-- buffer is lost and gives -1; any other oldest frame is copied whole and leaves the queue.
pub recv_from_refines :
    (max : ℕ) (s : Socket)
    → IsValid s
    → let (code, bytes, s') = recv_from max s in
      IsValid s'
      × (((frames s ≡ []) × (code ≡ pos 0) × (bytes ≡ []) × (s' ≡ s))
          ⊎ ((f : List ℕ) × (frames s ≡ f ∷ frames s')
              × (length f ≤ max)
              × (code ≡ pos (length f))
              × (bytes ≡ f))
          ⊎ ((f : List ℕ) × (frames s ≡ f ∷ frames s')
              × (max < length f)
              × (code ≡ failure)
              × (bytes ≡ [])))
unfolding recv_from
recv_from_refines max s v = ground (
  arith,
  length-frames s,
  nothing-frames s,
  frames-advance s v,
  advance-IsValid s v,
  length-payload (get_or s.packets s.head blank) (packet_at s v s.head),
)
