-- ===== src/Prelude/Int.antt =====
-- The C `int` as an integer over the native numbers. The kernel uses it for process numbers, handles
-- and return codes, which it compares and whose sign it tests, and for the counts of semaphores, to which
-- it adds 1 on 32 bits.
use pro_os.Prelude.{ℕ, zero, suc, ◌+◌, ◌≡◌, ◌↔◌, Bool, true, false, arith, ltb, ◌==◌, if◌then◌else◌}

-- `negsuc n` is -(n + 1).
pub data ℤ : Type 0 where
  pos : ℕ → ℤ
  negsuc : ℕ → ℤ

infix 50 ◌==ℤ◌
abbrev pub ◌==ℤ◌ : ℤ → ℤ → Bool
pos a ==ℤ pos b = a == b
pos a ==ℤ negsuc b = false
negsuc a ==ℤ pos b = false
negsuc a ==ℤ negsuc b = a == b

-- `x > 0`
abbrev pub is_positive : ℤ → Bool
is_positive (pos n) = ltb 0 n
is_positive (negsuc n) = false

-- `x < 0`
abbrev pub is_negative : ℤ → Bool
is_negative (pos n) = false
is_negative (negsuc n) = true

-- INT_MAX
abbrev pub int_max : ℕ
int_max = 2147483647

-- `x + 1` on a 32-bit `int`, which wraps around to -2 ^ 31 behind INT_MAX
abbrev pub increment : ℤ → ℤ
increment (pos n) = if n == int_max then negsuc int_max else pos (n + 1)
increment (negsuc zero) = pos 0
increment (negsuc (suc n)) = negsuc n

-- `x - 1` on a 32-bit `int`
abbrev pub decrement : ℤ → ℤ
decrement (pos zero) = negsuc 0
decrement (pos (suc n)) = pos n
decrement (negsuc n) = if n == int_max then pos int_max else negsuc (n + 1)

pub ==ℤ_iff : (a b : ℤ) → ((a ==ℤ b) ≡ true) ↔ (a ≡ b)
==ℤ_iff a b = ground arith

pub ==ℤ_refl : (a : ℤ) → (a ==ℤ a) ≡ true
==ℤ_refl a = ground arith

-- The error code of the kernel's functions, -1.
abbrev pub failure : ℤ
failure = negsuc 0

abbrev pub success : ℤ
success = pos 0

pub ==ℤ_sym : (a b : ℤ) → (a ==ℤ b) ≡ (b ==ℤ a)
==ℤ_sym a b = ground arith
