-- ===== src/Inet/Input/Bounds.antt =====
-- The part of a packet that `ipv4_receive` of kernel/ipv4.c hands on.
use pro_os.Prelude.{
  ℕ, zero, suc, ◌+◌, ◌-◌, ◌≤◌, ◌<◌, ◌≡◌, refl, ap, sym, ◌∙◌, true, false, inl, inr, List, [], ◌∷◌,
  take, drop, arith, min, ltb, get_or, Bool-cases,
}
use pro_os.Prelude.Arrays.{get_or-take}
use pro_os.Prelude.Int.{success}
use pro_os.Inet.{Device, Net, bytes_at, read_be16}
use pro_os.Inet.Input.{header_len, total_length, payload_len, is_version_4, receive}
use pro_os.Inet.Icmp
use pro_os.Inet.Ipv4

module _ {ℓ} {A : Type ℓ} where
  take_nothing : (n : ℕ) → take {A = A} n [] ≡ []
  take_nothing zero = refl
  take_nothing (suc n) = refl

  -- Bytes in front of the end of a packet are there whatever follows.
  bytes_kept :
      (xs : List A) (k n size : ℕ)
      → k + n ≤ size
      → take n (drop k (take size xs)) ≡ take n (drop k xs)
  bytes_kept [] k n size h = ap (λ l. take n (drop k l)) (take_nothing size)
  bytes_kept (x ∷ xs) zero zero size h = refl
  bytes_kept (x ∷ xs) zero (suc n) zero h = absurd (omega (arith, h))
  bytes_kept (x ∷ xs) zero (suc n) (suc size) h =
      ap (◌∷◌ x) (bytes_kept xs zero n size (omega (arith, h)))
  bytes_kept (x ∷ xs) (suc k) zero zero h = absurd (omega (arith, h))
  bytes_kept (x ∷ xs) (suc k) (suc n) zero h = absurd (omega (arith, h))
  bytes_kept (x ∷ xs) (suc k) n (suc size) h = bytes_kept xs k n size (omega (arith, h))

-- A number in front of the end
be16_kept : (p : List ℕ) (i size : ℕ) → suc i < size → read_be16 (take size p) i ≡ read_be16 p i
unfolding read_be16
be16_kept p i size h =
    rw (get_or-take p size i 0 (omega (arith, h)), get_or-take p size (suc i) 0 h) refl

-- `icmp_receive` reads the packet's bytes only.
icmp-take :
    (dev : Device) (p : List ℕ) (size : ℕ) (src : List ℕ) (s : Net)
    → Icmp.receive dev (take size p) size src s ≡ Icmp.receive dev p size src s
unfolding Icmp.receive Icmp.echo
icmp-take dev p size src s = elim (Bool-cases (ltb size Icmp.header_size)) [
  | inl short ↦ rw short refl
  | inr long ↦
      let room : 8 ≤ size = ground arith in
      rw
        (
          long,
          get_or-take p size 0 0 (omega (arith, room)),
          get_or-take p size 1 0 (omega (arith, room)),
          be16_kept p 4 size (omega (arith, room)),
          be16_kept p 6 size (omega (arith, room)),
          bytes_kept p 8 (min (size - 8) Icmp.echo_max) size (omega (arith, room)),
        )
        refl
]

header_len-20 : (p : List ℕ) → is_version_4 p ≡ true → ltb (header_len p) 20 ≡ false
unfolding is_version_4
header_len-20 p v = ground arith

-- A packet that ends with its header, and states less than that, gives an echo reply all the same: its
-- numbers are what lies behind the packet.
pub receive-short :
    (dev : Device) (p : List ℕ) (s : Net)
    → is_version_4 p ≡ true
    → total_length p < header_len p
    → get_or p 9 0 ≡ Icmp.protocol
    → get_or (drop (header_len p) p) 0 0 ≡ 0
    → get_or (drop (header_len p) p) 1 0 ≡ 0
    → receive dev p (header_len p) s ≡ (
      success,
      Icmp.record_reply
          (read_be16 (drop (header_len p) p) 4)
          (read_be16 (drop (header_len p) p) 6)
          (bytes_at 12 4 p)
          s,
    )
unfolding receive Icmp.receive
receive-short dev p s v l k a b =
    let words : ltb (header_len p) 20 ≡ false = header_len-20 p v in
    let large : ltb (payload_len p) 8 ≡ false = ground arith in
    let same : ltb (header_len p) (header_len p) ≡ false = ground arith in
    let stated : ltb (header_len p) (total_length p) ≡ false = ground arith in
    rw (words, v, same, stated, k, large, a, b) refl

is_version_4-take :
    (p : List ℕ) (size : ℕ)
    → get_or (take size p) 0 0 ≡ get_or p 0 0
    → is_version_4 (take size p) ≡ is_version_4 p
unfolding is_version_4
is_version_4-take p size e = rw e refl

icmp_part :
    (dev : Device) (p : List ℕ) (size : ℕ) (src : List ℕ) (s : Net)
    → header_len p ≤ total_length p
    → total_length p ≤ size
    → Icmp.receive dev (drop (header_len p) (take size p)) (payload_len p) src s
      ≡ Icmp.receive dev (drop (header_len p) p) (payload_len p) src s
icmp_part dev p size src s h g =
    let n : ℕ = payload_len p in
    let whole : header_len p + n ≤ size = omega (arith, h, g) in
    sym (icmp-take dev (drop (header_len p) (take size p)) n src s)
    ∙ ap (λ x. Icmp.receive dev x n src s) (bytes_kept p (header_len p) n size whole)
    ∙ icmp-take dev (drop (header_len p) p) n src s

-- If the total length that a packet states is not below that of its header, `ipv4_receive` reads none of the bytes
-- behind the packet: its answer, what it sends and what it records are those for the packet cut at its size.
pub receive-take :
    (dev : Device) (p : List ℕ) (size : ℕ) (s : Net)
    → header_len p ≤ total_length p
    → receive dev (take size p) size s ≡ receive dev p size s
unfolding receive
receive-take dev p size s h = elim (Bool-cases (ltb size Ipv4.header_size)) [
  | inl short ↦ rw short refl
  | inr long ↦
      let room : 20 ≤ size = ground arith in
      let first : get_or (take size p) 0 0 ≡ get_or p 0 0 =
        get_or-take p size 0 0 (omega (arith, room)) in
      let version : is_version_4 (take size p) ≡ is_version_4 p = is_version_4-take p size first in
      let inner : (ltb size (total_length p)) ≡ false
          → Icmp.receive dev (drop (header_len p) (take size p)) (payload_len p) (bytes_at 12 4 p) s
            ≡ Icmp.receive dev (drop (header_len p) p) (payload_len p) (bytes_at 12 4 p) s =
        λ e. icmp_part dev p size (bytes_at 12 4 p) s h (ground (arith, e)) in
      rw
        (
          long,
          version,
          first,
          be16_kept p 2 size (omega (arith, room)),
          get_or-take p size 9 0 (omega (arith, room)),
          bytes_kept p 12 4 size (omega (arith, room)),
        )
        (elim (Bool-cases (ltb size (total_length p))) [
          | inl over ↦ rw over refl
          | inr within ↦ rw (within, inner within) refl
        ])
]
