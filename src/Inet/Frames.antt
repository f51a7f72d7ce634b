-- ===== src/Inet/Frames.antt =====
-- What kernel/ethernet.c and arp.c read in a frame that one of them wrote.
use mathlib.Core.List.{append_assoc}
use pro_os.Prelude.{
  ltb, false, ◌-◌, sym, ℕ, suc, ◌+◌, ◌/◌, ◌%◌, ◌<◌, ◌≡◌, refl, ap, ◌∙◌, true, List, ◌∷◌, ◌++◌,
  arith, length, drop, length-append, take_all, take_front_part, drop_past, get_or_past,
}
use pro_os.Inet.{Device, Net, read_be16, write_be16, ethertype_arp}
use pro_os.Inet.Arp.{packet, is_supported, oper_of, sha_of, spa_of, tpa_of}
use pro_os.Inet.Arp
use pro_os.Inet.Input.{process_frame}

-- A word of 16 bits, in the order of the network, is read as it was written.
pub read_be16-write_be16 :
    (pre rest : List ℕ) (w i : ℕ)
    → length pre ≡ i
    → w < 65536
    → read_be16 (pre ++ (write_be16 w ++ rest)) i ≡ w
unfolding read_be16 write_be16
read_be16-write_be16 pre rest w i h l =
    rw
      (
        get_or_past pre (w / 256 % 256 ∷ w % 256 ∷ rest) i 0 i 0 h (omega arith),
        get_or_past pre (w / 256 % 256 ∷ w % 256 ∷ rest) i 1 (suc i) 0 h (omega arith),
      )
      (omega arith)

-- The frame that `ethernet_send_frame` builds.
abbrev pub frame : List ℕ → List ℕ → ℕ → List ℕ → List ℕ
frame dest src ethertype bytes = dest ++ (src ++ (write_be16 ethertype ++ bytes))

module _ (dest src bytes : List ℕ) (ethertype : ℕ) (ld : length dest ≡ 6)
    (ls : length src ≡ 6) where
  pub ethertype-frame :
      ethertype < 65536 → read_be16 (frame dest src ethertype bytes) 12 ≡ ethertype
  ethertype-frame h =
      ap (λ f. read_be16 f 12) (sym (append_assoc dest src (write_be16 ethertype ++ bytes)))
      ∙ read_be16-write_be16 (dest ++ src) bytes ethertype 12
          (omega (arith, length-append dest src)) h

  pub payload-frame : drop 14 (frame dest src ethertype bytes) ≡ bytes
  unfolding write_be16
  payload-frame =
      drop_past dest (src ++ (write_be16 ethertype ++ bytes)) 6 8 14 ld refl
      ∙ drop_past src (write_be16 ethertype ++ bytes) 6 2 8 ls refl

  pub length-frame : length (frame dest src ethertype bytes) ≡ 14 + length bytes
  unfolding write_be16
  length-frame = omega (
    arith,
    length-append dest (src ++ (write_be16 ethertype ++ bytes)),
    length-append src (write_be16 ethertype ++ bytes),
  )

-- A received frame of one of the two types goes to its protocol, with what stands behind the header.
module _ (now : ℕ) (dev : Device) (dest src bytes : List ℕ) (s : Net) (ld : length dest ≡ 6)
    (ls : length src ≡ 6) where
  abbrev whole : ℕ → List ℕ
  whole ethertype = frame dest src ethertype bytes

  pub process_frame-arp :
      process_frame now dev (whole ethertype_arp) (length (whole ethertype_arp)) s
      ≡ Arp.receive now dev bytes (length bytes) s
  unfolding process_frame
  process_frame-arp =
      let l : ltb (14 + length bytes) 14 ≡ false = ground arith in
      let n : 14 + length bytes - 14 ≡ length bytes = omega arith in
      rw
        (
          length-frame dest src bytes ethertype_arp ld ls,
          ethertype-frame dest src bytes ethertype_arp ld ls (omega arith),
          payload-frame dest src bytes ethertype_arp ld ls,
        )
        (rw (l, n) refl)

module _ (oper : ℕ) (sha spa tha tpa : List ℕ) (lsha : length sha ≡ 6) (lspa : length spa ≡ 4)
    (ltha : length tha ≡ 6) (ltpa : length tpa ≡ 4) where
  -- The fields of a packet are read as they were written.
  pub packet-read :
      oper < 65536
      → (is_supported (packet oper sha spa tha tpa) ≡ true)
        × (oper_of (packet oper sha spa tha tpa) ≡ oper)
        × (sha_of (packet oper sha spa tha tpa) ≡ sha)
        × (spa_of (packet oper sha spa tha tpa) ≡ spa)
        × (tpa_of (packet oper sha spa tha tpa) ≡ tpa)
        × (length (packet oper sha spa tha tpa) ≡ 28)
  unfolding packet is_supported read_be16 write_be16
  packet-read h = (
    refl,
    omega arith,
    take_front_part sha (spa ++ (tha ++ tpa)) 6 lsha,
    rw (drop_past sha (spa ++ (tha ++ tpa)) 6 0 6 lsha refl)
        (take_front_part spa (tha ++ tpa) 4 lspa),
    rw
        (
          drop_past sha (spa ++ (tha ++ tpa)) 6 10 16 lsha refl,
          drop_past spa (tha ++ tpa) 4 6 10 lspa refl,
          drop_past tha tpa 6 0 6 ltha refl,
        )
        (take_all 4 tpa (omega arith)),
    omega (
      arith,
      length-append sha (spa ++ (tha ++ tpa)),
      length-append spa (tha ++ tpa),
      length-append tha tpa,
    ),
  )
