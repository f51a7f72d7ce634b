-- ===== src/Memory/Words.antt =====
-- kernel/memory.c, `align_up`: rounding up to a multiple of 16, in 32 bits.
use pro_os.Prelude.{ℕ, ◌+◌, ◌*◌, ◌/◌, ◌%◌, ◌^◌, ◌<◌, ◌≡◌, arith}
use Prim.Native.Nat.{bit_and}
use pro_os.Prelude.Bits.{complement, and_ones, and_digit}
use pro_os.Memory.{align_up}

-- Clearing the four low bits.
clear_low : (x : ℕ) → x < 2 ^ 32 → bit_and x (complement 32 15) ≡ x / 16 * 16
clear_low x h = ground (
  arith,
  and_digit x (complement 32 15),
  and_digit (x / 2) (complement 32 15 / 2),
  and_digit (x / 2 / 2) (complement 32 15 / 2 / 2),
  and_digit (x / 2 / 2 / 2) (complement 32 15 / 2 / 2 / 2),
  and_ones 28 (x / 2 / 2 / 2 / 2) (omega arith),
)

-- `align_up(size, 16)` on a 32-bit word: the least multiple of 16 that is not below the size, if that
-- fits a word, and 0 if it does not.
pub align_up-16 : (size : ℕ) → size < 2 ^ 32 → align_up size 16 ≡ (size + 15) % 2 ^ 32 / 16 * 16
unfolding align_up
align_up-16 size h = clear_low ((size + 15) % 2 ^ 32) (omega arith)
