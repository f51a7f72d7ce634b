-- ===== src/Prelude/Bits.antt =====
-- Laws of `&`, `|` and of the complement `~` of a word, by recursion on the binary digits.
use Prim.Native.Nat.{bit_and, bit_or, max, digits, bit_and-bitwise, bit_or-bitwise}
use native.Mathlib.Nat.{pow-suc, one-le-pow}
use pro_os.Prelude.{ℕ, zero, suc, ◌+◌, ◌-◌, ◌*◌, ◌/◌, ◌%◌, ◌^◌, ◌≤◌, ◌<◌, min, ◌≡◌, refl, arith}

-- `~x` for a word of `k` bits.
abbrev pub complement : ℕ → ℕ → ℕ
complement k x = 2 ^ k - 1 - x

module _ (z : ℕ → ℕ) (f : ℕ → ℕ → ℕ) where
  any_fuel : (k l x y : ℕ) → x ≤ k → x ≤ l → digits z f k x y ≡ digits z f l x y
  any_fuel zero zero x y h i = refl
  any_fuel (suc k) zero zero y h i = refl
  any_fuel (suc k) zero (suc x) y h i = absurd (omega arith)
  any_fuel zero (suc l) zero y h i = refl
  any_fuel zero (suc l) (suc x) y h i = absurd (omega arith)
  any_fuel (suc k) (suc l) zero y h i = refl
  any_fuel (suc k) (suc l) (suc x) y h i =
      rw (any_fuel k l (suc x / 2) (y / 2) (omega arith) (omega arith))

pub and_digit : (x y : ℕ) → bit_and x y ≡ bit_and (x / 2) (y / 2) * 2 + min (x % 2) (y % 2)
and_digit zero y = omega (arith, bit_and-bitwise 0 y, bit_and-bitwise 0 (y / 2))
and_digit (suc x) y = omega (
  arith,
  bit_and-bitwise (suc x) y,
  bit_and-bitwise (suc x / 2) (y / 2),
  any_fuel (λ b. 0) min x (suc x / 2) (suc x / 2) (y / 2) (omega arith) (omega arith),
)

pub or_digit : (x y : ℕ) → bit_or x y ≡ bit_or (x / 2) (y / 2) * 2 + max (x % 2) (y % 2)
or_digit zero y = omega (arith, bit_or-bitwise 0 y, bit_or-bitwise 0 (y / 2))
or_digit (suc x) y = omega (
  arith,
  bit_or-bitwise (suc x) y,
  bit_or-bitwise (suc x / 2) (y / 2),
  any_fuel (λ b. b) max x (suc x / 2) (suc x / 2) (y / 2) (omega arith) (omega arith),
)

-- Each law by recursion on a bound of the operands, which halve.
and_or_below : (n x y : ℕ) → x ≤ n → y ≤ n → bit_and (bit_or x y) y ≡ y
and_or_below zero zero zero h i = refl
and_or_below zero (suc x) y h i = absurd (omega arith)
and_or_below zero zero (suc y) h i = absurd (omega arith)
and_or_below (suc n) x y h i = ground (
  arith,
  or_digit x y,
  and_digit (bit_or x y) y,
  and_or_below n (x / 2) (y / 2) (omega arith) (omega arith),
)

-- `(x | y) & y == y`
pub and_or_absorb : (x y : ℕ) → bit_and (bit_or x y) y ≡ y
and_or_absorb x y = and_or_below (x + y) x y (omega arith) (omega arith)

or_keeps_below :
    (n x y s : ℕ) → x ≤ n → y ≤ n → s ≤ n → bit_and x s ≡ s → bit_and (bit_or x y) s ≡ s
or_keeps_below zero zero zero s h i j e = e
or_keeps_below zero (suc x) y s h i j e = absurd (omega arith)
or_keeps_below zero zero (suc y) s h i j e = absurd (omega arith)
or_keeps_below (suc n) x y s h i j e = ground (
  arith,
  or_digit x y,
  and_digit x s,
  and_digit (bit_or x y) s,
  or_keeps_below n (x / 2) (y / 2) (s / 2) (omega arith) (omega arith) (omega arith)
      (omega (arith, and_digit x s, e)),
)

-- Bits of `s` that `x` has stay when more are set.
pub or_keeps : (x y s : ℕ) → bit_and x s ≡ s → bit_and (bit_or x y) s ≡ s
or_keeps x y s e = or_keeps_below (x + y + s) x y s (omega arith) (omega arith) (omega arith) e

and_nothing_below : (n x : ℕ) → x ≤ n → bit_and x 0 ≡ 0
and_nothing_below n zero h = refl
and_nothing_below zero (suc x) h = absurd (omega arith)
and_nothing_below (suc n) (suc x) h =
    omega (arith, and_digit (suc x) 0, and_nothing_below n (suc x / 2) (omega arith))

pub and_nothing : (x : ℕ) → bit_and x 0 ≡ 0
and_nothing x = and_nothing_below x x (omega arith)

-- A word and the mask of all its bits.
pub and_ones : (k x : ℕ) → x < 2 ^ k → bit_and x (2 ^ k - 1) ≡ x
and_ones zero zero h = refl
and_ones zero (suc x) h = absurd (omega arith)
and_ones (suc k) x h =
    ground (arith, and_digit x (2 ^ suc k - 1), pow-suc 2 k, one-le-pow k 2, and_ones k (x / 2))

complement_half :
    (k y : ℕ)
    → y < 2 ^ suc k
    → (complement (suc k) y / 2 ≡ complement k (y / 2)) × (complement (suc k) y % 2 ≡ 1 - y % 2)
complement_half k y h = omega (arith, pow-suc 2 k)

-- The lowest digit of `x & ~y`, and the others.
and_complement_digit :
    (k x y : ℕ)
    → y < 2 ^ suc k
    → (bit_and x (complement (suc k) y) / 2 ≡ bit_and (x / 2) (complement k (y / 2)))
      × (bit_and x (complement (suc k) y) % 2 ≡ min (x % 2) (1 - y % 2))
and_complement_digit k x y h =
    ground (arith, and_digit x (complement (suc k) y), complement_half k y h)

-- The bits that are cleared are gone.
pub and_complement_self : (k x y : ℕ) → y < 2 ^ k → bit_and (bit_and x (complement k y)) y ≡ 0
and_complement_self zero x y h = ground (arith, and_nothing (bit_and x (complement 0 y)))
and_complement_self (suc k) x y h = ground (
  arith,
  and_complement_digit k x y h,
  and_digit (bit_and x (complement (suc k) y)) y,
  pow-suc 2 k,
  and_complement_self k (x / 2) (y / 2),
)

-- Bits of `s` that `x` has stay when others are cleared.
pub and_complement_keeps :
    (k x y s : ℕ)
    → y < 2 ^ k
    → s < 2 ^ k
    → bit_and x s ≡ s
    → bit_and y s ≡ 0
    → bit_and (bit_and x (complement k y)) s ≡ s
and_complement_keeps zero x y s h i e d = ground (arith, and_nothing (bit_and x (complement 0 y)))
and_complement_keeps (suc k) x y s h i e d = ground (
  arith,
  and_complement_digit k x y h,
  and_digit (bit_and x (complement (suc k) y)) s,
  and_digit x s,
  and_digit y s,
  pow-suc 2 k,
  and_complement_keeps k (x / 2) (y / 2) (s / 2),
)

pub zero-bit_and : (x : ℕ) → bit_and 0 x ≡ 0
zero-bit_and x = bit_and-bitwise 0 x
