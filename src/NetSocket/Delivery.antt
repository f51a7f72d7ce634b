-- ===== src/NetSocket/Delivery.antt =====
-- The socket table of kernel/net_socket.c under all of its calls.
use pro_os.Prelude.{
  ℕ, suc, ◌<◌, ◌≡◌, refl, ap₂, Bool, true, false, not, ◌&&◌, ◌⊎◌, inl, inr, Option, none, some,
  List, [], ◌∷◌, map, arith, length, get_or, set, length-set, length-map, get_or-set_self,
  Bool-cases, Option-cases, ◌==◌, if◌then◌else◌,
}
use pro_os.Prelude.Arrays.{
  All, All-get_or, All-set, All-replicate, find_index, find_index-Found, find_index-none,
}
use pro_os.Prelude.Int.{ℤ, pos, failure}
use pro_os.NetSocket.{
  Socket, capacity, queue_size, no_socket, blank, cleared, init, resolve, open_socket, close, recv,
  same_device, deliver, notify,
}
use pro_os.NetSocket.Rings.{
  IsValid, Fits, blank-Fits, frames, enqueue, deliver_refines, recv_from_refines,
}

pub record IsTable (socks : List Socket) : Type 0 where
  pub room : length socks ≡ capacity
  pub valid : All IsValid socks

-- The calls that change the table.
pub data Call : Type 0 where
  inits : Call
  opens : Option ℕ → Call
  closes : ℤ → Call
  receives : ℤ → ℕ → Call
  notifies : ℕ → List ℕ → Call

unfoldable pub step : Call → List Socket → List Socket
step inits socks = init socks
step (opens dev) socks = (open_socket dev socks).1
step (closes handle) socks = (close handle socks).1
step (receives handle max) socks = (recv handle max socks).2
step (notifies dev frame) socks = notify dev frame socks

cleared-IsValid :
    (used : Bool) (dev : Option ℕ) (s : Socket) → IsValid s → IsValid (cleared used dev s)
unfolding cleared
cleared-IsValid used dev s v = record {
  room = v.room;
  head_in = omega arith;
  bounded = omega arith;
  tail_at = refl;
  packets_fit = v.packets_fit;
}

pub no_socket-IsValid : IsValid no_socket
no_socket-IsValid = record {
  room = refl;
  head_in = omega arith;
  bounded = omega arith;
  tail_at = refl;
  packets_fit = All-replicate Fits queue_size blank blank-Fits;
}

socket_at : (socks : List Socket) (i : ℕ) → IsTable socks → IsValid (get_or socks i no_socket)
socket_at socks i h = All-get_or IsValid socks i no_socket h.valid no_socket-IsValid

with_socket :
    (socks : List Socket) (i : ℕ) (s : Socket) → IsTable socks → IsValid s → IsTable (set socks i s)
with_socket socks i s h v = record {
  room = omega (arith, length-set socks i s, h.room);
  valid = All-set IsValid socks i s h.valid v;
}

init-IsValid : (socks : List Socket) → All IsValid socks → All IsValid (init socks)
unfolding init
init-IsValid [] h = tt
init-IsValid (s ∷ socks) h = (cleared-IsValid false none s h.0, init-IsValid socks h.1)

deliver-IsValid :
    (dev : ℕ) (frame : List ℕ) (socks : List Socket)
    → All IsValid socks
    → All IsValid (map (deliver dev frame) socks)
deliver-IsValid dev frame [] h = tt
deliver-IsValid dev frame (s ∷ socks) h =
    ((deliver_refines dev frame s h.0).0, deliver-IsValid dev frame socks h.1)

open_socket-IsTable :
    (dev : Option ℕ) (socks : List Socket) → IsTable socks → IsTable (open_socket dev socks).1
unfolding open_socket
open_socket-IsTable none socks h = h
open_socket-IsTable (some dev) socks h = elim (Option-cases (find_index (λ s. not s.used) socks)) [
  | inl e ↦ rw (e, open_socket) h
  | inr (i, e) ↦
      rw (e, open_socket)
        (with_socket socks i _ h (cleared-IsValid true (some dev) _ (socket_at socks i h)))
]

close-IsTable : (handle : ℤ) (socks : List Socket) → IsTable socks → IsTable (close handle socks).1
unfolding close
close-IsTable handle socks h = elim (Option-cases (resolve handle socks)) [
  | inl e ↦ rw (e, close) h
  | inr (i, e) ↦
      rw (e, close) (with_socket socks i _ h (cleared-IsValid false none _ (socket_at socks i h)))
]

recv-IsTable :
    (handle : ℤ) (max : ℕ) (socks : List Socket) → IsTable socks → IsTable (recv handle max socks).2
unfolding recv
recv-IsTable handle max socks h = elim (Option-cases (resolve handle socks)) [
  | inl e ↦ rw (e, recv) h
  | inr (i, e) ↦ elim (Bool-cases (max == 0)) [
    | inl z ↦ rw (e, recv) (rw z h)
    | inr n ↦
        rw (e, recv)
          (rw n (with_socket socks i _ h (recv_from_refines max _ (socket_at socks i h)).0))
  ]
]

notify-IsTable :
    (dev : ℕ) (frame : List ℕ) (socks : List Socket)
    → IsTable socks
    → IsTable (notify dev frame socks)
unfolding notify
notify-IsTable dev frame socks h = elim (Bool-cases (length frame == 0)) [
  | inl z ↦ rw z h
  | inr n ↦ rw n (record {
    room = omega (arith, length-map socks (deliver dev frame), h.room);
    valid = deliver-IsValid dev frame socks h.valid;
  })
]

-- No call breaks a ring: after any of them every socket's indices lie in its ring and describe at most
-- eight packets, none longer than a frame may be.
pub step-IsTable : (c : Call) (socks : List Socket) → IsTable socks → IsTable (step c socks)
unfolding step init
step-IsTable inits socks h = record {
  room = omega (arith, length-map socks (cleared false none), h.room);
  valid = init-IsValid socks h.valid;
}
step-IsTable (opens dev) socks h = open_socket-IsTable dev socks h
step-IsTable (closes handle) socks h = close-IsTable handle socks h
step-IsTable (receives handle max) socks h = recv-IsTable handle max socks h
step-IsTable (notifies dev frame) socks h = notify-IsTable dev frame socks h

deliver_each :
    (dev : ℕ) (frame : List ℕ) (socks : List Socket)
    → All IsValid socks
    → map frames (map (deliver dev frame) socks)
      ≡ map
          (λ s. if s.used && same_device s.device dev then enqueue frame (frames s) else frames s)
          socks
deliver_each dev frame [] h = refl
deliver_each dev frame (s ∷ socks) h =
    ap₂ ◌∷◌ (deliver_refines dev frame s h.0).1 (deliver_each dev frame socks h.1)

-- A received frame that is not empty goes to the queue of every live socket of its device, and to no
-- other; an empty frame changes nothing.
pub notify_refines :
    (dev : ℕ) (frame : List ℕ) (socks : List Socket)
    → IsTable socks
    → map frames (notify dev frame socks)
      ≡ map
          (λ s.
            if (not (length frame == 0)) && (s.used && same_device s.device dev)
            then enqueue frame (frames s)
            else frames s)
          socks
unfolding notify
notify_refines dev frame socks h = elim (Bool-cases (length frame == 0)) [
  | inl z ↦ rw z refl
  | inr n ↦ rw n (deliver_each dev frame socks h.valid)
]

frames-cleared : (used : Bool) (dev : Option ℕ) (s : Socket) → frames (cleared used dev s) ≡ []
unfolding frames cleared
frames-cleared used dev s = refl

device-cleared : (used : Bool) (dev : Option ℕ) (s : Socket) → (cleared used dev s).device ≡ dev
unfolding cleared
device-cleared used dev s = refl

abbrev opened : ℕ → ℕ → List Socket → List Socket
opened dev i socks = set socks i (cleared true (some dev) (get_or socks i no_socket))

entry-opened :
    (dev i : ℕ) (socks : List Socket)
    → i < length socks
    → get_or (opened dev i socks) i no_socket ≡ cleared true (some dev) (get_or socks i no_socket)
entry-opened dev i socks k = get_or-set_self socks i _ no_socket k

resolve-opened :
    (dev i : ℕ) (socks : List Socket)
    → length socks ≡ capacity
    → i < length socks
    → resolve (pos (suc i)) (opened dev i socks) ≡ some i
unfolding resolve cleared
resolve-opened dev i socks h k = ground (arith, entry-opened dev i socks k)

close-opened :
    (dev i : ℕ) (socks : List Socket)
    → length socks ≡ capacity
    → i < length socks
    → ((close (pos (suc i)) (opened dev i socks)).0 ≡ pos 0)
      × (resolve (pos (suc i)) (close (pos (suc i)) (opened dev i socks)).1 ≡ none)
unfolding close resolve cleared
close-opened dev i socks h k = ground (
  arith,
  entry-opened dev i socks k,
  length-set socks i (cleared true (some dev) (get_or socks i no_socket)),
  get_or-set_self (opened dev i socks) i
      (cleared false none (cleared true (some dev) (get_or socks i no_socket))) no_socket,
)

-- `net_open` on the first device either finds every socket in use and changes nothing, or gives a
-- handle that resolves to a socket which was free and now is on that device with no frames; closing
-- that handle succeeds, and it no longer resolves.
pub open_close :
    (dev : ℕ) (socks : List Socket)
    → IsTable socks
    → let (handle, socks') = open_socket (some dev) socks in
      ((handle ≡ failure)
        × (socks' ≡ socks)
        × ((j : ℕ) → j < capacity → (get_or socks j no_socket).used ≡ true))
      ⊎ ((i : ℕ) × (handle ≡ pos (suc i))
          × ((get_or socks i no_socket).used ≡ false)
          × (resolve handle socks' ≡ some i)
          × ((get_or socks' i no_socket).device ≡ some dev)
          × (frames (get_or socks' i no_socket) ≡ [])
          × ((close handle socks').0 ≡ pos 0)
          × (resolve handle (close handle socks').1 ≡ none))
unfolding open_socket
open_close dev socks h = elim (Option-cases (find_index (λ s. not s.used) socks)) [
  | inl e ↦
      rw (e, open_socket)
        (inl (
          refl,
          refl,
          λ j k. ground (arith, find_index-none (λ s. not s.used) socks j no_socket e, h.room),
        ))
  | inr (i, e) ↦
      let f = find_index-Found (λ s. not s.used) socks i e in
      let c = close-opened dev i socks h.room f.in_table in
      rw (e, open_socket)
        (inr (
          i,
          refl,
          ground (arith, f.passes no_socket),
          resolve-opened dev i socks h.room f.in_table,
          rw (entry-opened dev i socks f.in_table)
              (device-cleared true (some dev) (get_or socks i no_socket)),
          rw (entry-opened dev i socks f.in_table)
              (frames-cleared true (some dev) (get_or socks i no_socket)),
          c.0,
          c.1,
        ))
]
