-- ===== src/Inet/Seals.antt =====
-- What a receiver finds when it checks the checksums that kernel/ipv4.c and icmp.c put into their
-- packets.
use pro_os.Prelude.{
  ℕ, ◌+◌, ◌*◌, ◌/◌, ◌%◌, ◌^◌, ◌<◌, ◌≤◌, ◌-◌, ◌≡◌, ◌↔◌, refl, List, [], ◌∷◌, ◌++◌, leb,
  if◌then◌else◌, length, arith, length-append, ap, ◌∙◌,
}
use pro_os.Prelude.Arrays.{All-append}
use pro_os.Inet.{sum_words, checksum, write_be16, write_le16}
use pro_os.Inet.Checksum.{IsBytes, fold_carries_closed}
use pro_os.Inet.Ipv4.{header, sealed_header}
use pro_os.Inet.Icmp.{message, sealed_message}

-- The sum of the words, without a bound.
word_sum : List ℕ → ℕ
word_sum [] = 0
word_sum (a ∷ []) = a * 256
word_sum (a ∷ b ∷ rest) = a * 256 + b + word_sum rest

sum_words-word_sum :
    (bytes : List ℕ) (sum : ℕ)
    → IsBytes bytes
    → sum + length bytes * 65536 < 2 ^ 32
    → (sum_words bytes sum ≡ sum + word_sum bytes) × (word_sum bytes ≤ length bytes * 65536)
unfolding sum_words word_sum
sum_words-word_sum [] sum b h = (omega arith, omega arith)
sum_words-word_sum (x ∷ []) sum b h = (omega arith, omega arith)
sum_words-word_sum (x ∷ y ∷ rest) sum b h =
    let r = sum_words-word_sum rest (sum + (x * 256 + y)) b.1.1 (omega arith) in ground (arith, r)

word_sum-append :
    (pre : List ℕ) (rest : List ℕ)
    → length pre % 2 ≡ 0
    → word_sum (pre ++ rest) ≡ word_sum pre + word_sum rest
unfolding word_sum
word_sum-append [] rest h = omega arith
word_sum-append (x ∷ []) rest h = absurd (omega arith)
word_sum-append (x ∷ y ∷ pre) rest h = omega (arith, word_sum-append pre rest (omega arith))

-- The checksum of a buffer with a given sum of its words.
seal : ℕ → ℕ
seal w = if leb 1 w then 65534 - (w - 1) % 65535 else 65535

seal_le : (w : ℕ) → seal w ≤ 65535
unfolding seal
seal_le w = ground arith

seal_be16 : (w : ℕ) → seal (w + (seal w / 256 % 256 * 256 + seal w % 256)) ≡ 0
unfolding seal
seal_be16 w = ground arith

seal_le16 :
    (w : ℕ)
    → (seal (w + (seal w % 256 * 256 + seal w / 256 % 256)) ≡ 0) ↔ (seal w / 256 ≡ seal w % 256)
unfolding seal
seal_le16 w = ground arith

-- The checksum of a buffer by the sum of its words.
checksum-word_sum :
    (bytes : List ℕ) → IsBytes bytes → length bytes < 65535 → checksum bytes ≡ seal (word_sum bytes)
unfolding checksum seal
checksum-word_sum bytes b h =
    let s = sum_words-word_sum bytes 0 b (omega arith) in
    ground (arith, s, fold_carries_closed (sum_words bytes 0))

module _ (pre rest : List ℕ) (b : IsBytes pre) (c : IsBytes rest) (even : length pre % 2 ≡ 0)
    (short : length pre + length rest < 65000) where
  -- Two bytes in the place of the checksum.
  checksum-at :
      (x y : ℕ)
      → x < 256
      → y < 256
      → checksum (pre ++ x ∷ y ∷ rest) ≡ seal (word_sum pre + word_sum rest + (x * 256 + y))
  unfolding word_sum
  checksum-at x y h k =
      checksum-word_sum (pre ++ x ∷ y ∷ rest)
        (All-append (λ a. a < 256) pre (x ∷ y ∷ rest) b (h, (k, c)))
        (omega (arith, length-append pre (x ∷ y ∷ rest)))
      ∙ ap seal (omega (arith, word_sum-append pre (x ∷ y ∷ rest) even))

  -- Written high byte first the checksum checks; written low byte first it does so only if its two
  -- bytes are equal.
  checksum-write :
      let sum = checksum (pre ++ 0 ∷ 0 ∷ rest) in
      (checksum (pre ++ (write_be16 sum ++ rest)) ≡ 0)
      × ((checksum (pre ++ (write_le16 sum ++ rest)) ≡ 0) ↔ (sum / 256 ≡ sum % 256))
  unfolding write_be16 write_le16
  checksum-write =
      let w : ℕ = word_sum pre + word_sum rest in
      let z : checksum (pre ++ 0 ∷ 0 ∷ rest) ≡ seal w =
        checksum-at 0 0 (omega arith) (omega arith) ∙ ap seal (omega arith) in
      rw z (
        checksum-at (seal w / 256 % 256) (seal w % 256) (omega arith) (omega arith) ∙ seal_be16 w,
        rw (checksum-at (seal w % 256) (seal w / 256 % 256) (omega arith) (omega arith))
            (seal_le16 w),
      )

-- The header that goes out, of bytes: with its checksum in the order of the
-- network it would check at the receiver; as it is written, low byte first, it checks only if the two
-- bytes of the checksum are equal.
pub sealed_header_lem :
    (total_length ident protocol : ℕ) (src dst : List ℕ)
    → protocol < 256
    → IsBytes src × IsBytes dst × (length src ≡ 4) × (length dst ≡ 4)
    → let sum = checksum (header total_length ident protocol (0 ∷ 0 ∷ []) src dst) in
      (checksum (header total_length ident protocol (write_be16 sum) src dst) ≡ 0)
      × ((checksum (sealed_header total_length ident protocol src dst) ≡ 0)
          ↔ (sum / 256 ≡ sum % 256))
unfolding header sealed_header write_be16
sealed_header_lem t i p src dst hp (bs, bd, ls, ld) =
    checksum-write
      (69 ∷ 0 ∷ t / 256 % 256 ∷ t % 256 ∷ i / 256 % 256 ∷ i % 256 ∷ 0 ∷ 0 ∷ 64 ∷ p ∷ [])
      (src ++ dst) (omega arith) (All-append (λ a. a < 256) src dst bs bd) refl
      (omega (arith, length-append src dst))

-- The same of an echo request or reply with at most 1500 bytes of data.
pub sealed_message_lem :
    (type identifier sequence : ℕ) (bytes : List ℕ)
    → type < 256
    → IsBytes bytes
    → length bytes ≤ 1500
    → let sum = checksum (message type (0 ∷ 0 ∷ []) identifier sequence bytes) in
      (checksum (message type (write_be16 sum) identifier sequence bytes) ≡ 0)
      × ((checksum (sealed_message type identifier sequence bytes) ≡ 0) ↔ (sum / 256 ≡ sum % 256))
unfolding message sealed_message write_be16
sealed_message_lem t i q bytes ht b l =
    checksum-write (t ∷ 0 ∷ []) (i / 256 % 256 ∷ i % 256 ∷ q / 256 % 256 ∷ q % 256 ∷ bytes)
      (omega arith) (omega (arith), (omega arith, (omega arith, (omega arith, b)))) refl
      (omega arith)
