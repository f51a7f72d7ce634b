-- ===== src/Memory.antt =====
-- kernel/memory.c: the kernel's bump allocator over one fixed region. Addresses and sizes are 32-bit
-- words; an address that leaves 32 bits wraps. Memory is a function from addresses to bytes.
pub mod Words
pub mod Blocks
mod Tests
use Prim.Native.Nat.{bit_and}
use pro_os.Prelude.{
  ℕ, zero, suc, ◌+◌, ◌-◌, ◌%◌, ◌^◌, Bool, true, false, Option, none, some, ltb, leb, ◌==◌,
  if◌then◌else◌,
}
use pro_os.Prelude.Bits.{complement}

-- HEAP_START_ADDR and HEAP_SIZE_BYTES
abbrev pub heap_start : ℕ
heap_start = 0x0030_0000

abbrev pub heap_size : ℕ
heap_size = 0x0010_0000

abbrev pub heap_end : ℕ
heap_end = heap_start + heap_size

-- `heap_ptr`, and the bytes of memory.
pub record Heap : Type 0 where
  pub next : ℕ
  pub bytes : ℕ → ℕ

-- `memory_init`
pub init : Heap → Heap
init h = record h { next = heap_start }

-- `align_up`, on `size_t`
pub align_up : ℕ → ℕ → ℕ
align_up value alignment =
    let mask = alignment - 1 in bit_and ((value + mask) % 2 ^ 32) (complement 32 mask)

pub kalloc : ℕ → Heap → Option ℕ × Heap
kalloc size h =
    if size == 0
    then (none, h)
    else let aligned = align_up size 16 in
      if ltb heap_end ((h.next + aligned) % 2 ^ 32)
      then (none, h)
      else (some h.next, record h { next = (h.next + aligned) % 2 ^ 32 })

-- The loop of `kalloc_zero`, from offset `i` on, `n` rounds.
pub zero_bytes : (ℕ → ℕ) → ℕ → ℕ → (ℕ → ℕ)
zero_bytes bytes ptr zero = bytes
zero_bytes bytes ptr (suc n) =
    zero_bytes (λ a. if a == ptr % 2 ^ 32 then 0 else bytes a) (ptr + 1) n

pub kalloc_zero : ℕ → Heap → Option ℕ × Heap
kalloc_zero size h =
    let (p, h') = kalloc size h in
    elim p [
      | none ↦ (none, h')
      | some ptr ↦ (some ptr, record h' { bytes = zero_bytes h'.bytes ptr size })
    ]

-- `memory_total_bytes`
pub total_bytes : ℕ
total_bytes = heap_size

-- `memory_used_bytes`: the difference of two pointers, as a `size_t`.
pub used_bytes : Heap → ℕ
used_bytes h = (h.next + 2 ^ 32 - heap_start) % 2 ^ 32

-- `memory_free_bytes`
pub free_bytes : Heap → ℕ
unfolding used_bytes
free_bytes h = if leb heap_size (used_bytes h) then 0 else heap_size - used_bytes h
