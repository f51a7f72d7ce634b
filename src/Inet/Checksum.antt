-- ===== src/Inet/Checksum.antt =====
-- The checksum of kernel/ipv4.c and icmp.c against the sum of ones' complement arithmetic, and what a
-- receiver finds when it checks it.
use mathlib.Core.WellFounded.{Acc}
use mathlib.Core.Logic.{dif_neg}
use native.Mathlib.Decide.{dec_lt}
use pro_os.Prelude.{
  ℕ, suc, ◌+◌, ◌*◌, ◌%◌, ◌^◌, ◌<◌, ◌≤◌, ◌-◌, ◌≡◌, refl, List, [], ◌∷◌, leb, if◌then◌else◌, length,
  arith,
}
use pro_os.Prelude.Arrays.{All}
use pro_os.Inet.{sum_words, fold_once, fold_acc, fold_carries, Acc-below, checksum}

abbrev pub IsBytes : List ℕ → Type 0
IsBytes bytes = All (λ b. b < 256) bytes

-- Addition of 16-bit words in ones' complement: the carry comes back at the low end.
unfoldable pub ones_add : ℕ → ℕ → ℕ
ones_add a b = if leb 65536 (a + b) then a + b - 65535 else a + b

-- The sum that the protocols define: the words of the bytes, an odd byte filled up with zero, added one
-- after another.
unfoldable pub ones_sum : List ℕ → ℕ → ℕ
ones_sum [] sum = sum
ones_sum (a ∷ []) sum = ones_add sum (a * 256)
ones_sum (a ∷ b ∷ rest) sum = ones_sum rest (ones_add sum (a * 256 + b))

fold_acc_done : (sum : ℕ) (w : Acc ◌<◌ sum) → sum < 65536 → fold_acc sum w ≡ sum
unfolding fold_acc
fold_acc_done sum (Acc.intro _ smaller) h = rw (dif_neg (dec_lt 65535 sum) (omega arith)) refl

fold_acc_once : (sum : ℕ) (w : Acc ◌<◌ sum) → fold_once sum < 65536 → fold_acc sum w ≡ fold_once sum
unfolding fold_acc fold_once
fold_acc_once sum (Acc.intro _ smaller) h = grind (
  arith,
  λ (p : fold_once sum < sum). fold_acc_done (fold_once sum) (smaller (fold_once sum) p) h,
)

fold_acc_rounds :
    (sum : ℕ) (w : Acc ◌<◌ sum) → sum < 2 ^ 32 → fold_acc sum w ≡ fold_once (fold_once sum)
unfolding fold_acc fold_once
fold_acc_rounds sum (Acc.intro _ smaller) h = grind (
  arith,
  λ (p : fold_once sum < sum).
      fold_acc_once (fold_once sum) (smaller (fold_once sum) p) (omega arith),
)

-- For every sum of 32 bits the loop ends after two rounds at most, with a sum of 16 bits.
pub fold_carries_rounds :
    (sum : ℕ)
    → sum < 2 ^ 32
    → (fold_carries sum ≡ fold_once (fold_once sum)) × (fold_carries sum < 2 ^ 16)
unfolding fold_carries fold_once
fold_carries_rounds sum h =
    let e = fold_acc_rounds sum (Acc-below (suc sum) sum (omega arith)) h in (e, ground (arith, e))

-- The folded sum is 0 for 0 only, and else the remainder by 65535 that lies between 1 and 65535.
pub fold_carries_closed :
    (sum : ℕ) → sum < 2 ^ 32 → fold_carries sum ≡ (if leb 1 sum then (sum - 1) % 65535 + 1 else 0)
unfolding fold_once
fold_carries_closed sum h = ground (arith, fold_carries_rounds sum h)

fold_carries-add :
    (sum w : ℕ)
    → sum + w < 2 ^ 32
    → w < 65536
    → fold_carries (sum + w) ≡ ones_add (fold_carries sum) w
unfolding ones_add
fold_carries-add sum w h hw = ground (arith, fold_carries_closed (sum + w), fold_carries_closed sum)

sum_words_lem :
    (bytes : List ℕ) (sum : ℕ)
    → IsBytes bytes
    → sum + length bytes * 65536 < 2 ^ 32
    → (fold_carries (sum_words bytes sum) ≡ ones_sum bytes (fold_carries sum))
      × (sum_words bytes sum ≤ sum + length bytes * 65536)
unfolding sum_words ones_sum
sum_words_lem [] sum b h = (refl, omega arith)
sum_words_lem (x ∷ []) sum b h = ground (arith, fold_carries-add sum (x * 256))
sum_words_lem (x ∷ y ∷ rest) sum b h =
    ground (arith, fold_carries-add sum (x * 256 + y), sum_words_lem rest (sum + (x * 256 + y)))

-- For a buffer of less than 65535 bytes, the checksum is the complement of the ones' complement sum
-- of its words: no carry is lost in the sum of 32 bits.
pub checksum-ones_sum :
    (bytes : List ℕ)
    → IsBytes bytes
    → length bytes < 65535
    → checksum bytes ≡ 2 ^ 16 - 1 - ones_sum bytes 0
unfolding checksum
checksum-ones_sum bytes b h =
    let l = sum_words_lem bytes 0 b (omega arith) in
    let r = fold_carries_rounds (sum_words bytes 0) (omega arith) in
    let z = fold_carries_closed 0 (omega arith) in ground (arith, l, r, z)
