-- ===== src/Memory/Blocks.antt =====
-- kernel/memory.c: the blocks that the allocator hands out.
use pro_os.Prelude.{
  ℕ, zero, suc, ◌+◌, ◌-◌, ◌%◌, ◌^◌, ◌≤◌, ◌<◌, ◌≡◌, Bool, ◌⊎◌, Option, none, some, List, [], ◌∷◌,
  arith, ltb, leb, ◌==◌, ◌&&◌, if◌then◌else◌,
}
use pro_os.Prelude.Arrays.{All}
use pro_os.Memory.{Heap, heap_start, heap_end, kalloc, zero_bytes, kalloc_zero, free_bytes}
use pro_os.Memory.Words.{align_up-16}

-- The pointer lies in the region, at a multiple of 16.
pub record IsValid (h : Heap) : Type 0 where
  pub above : heap_start ≤ h.next
  pub below : h.next ≤ heap_end
  pub aligned : h.next % 16 ≡ 0

-- Sizes for which neither the rounding nor the address wraps.
abbrev pub max_request : ℕ
max_request = 2 ^ 32 - heap_end - 16

-- What an answer means: none, and nothing has changed, because the rounded size does not fit or is 0;
-- or the old pointer, a multiple of 16 with `size` bytes of the region behind it, all of them in front
-- of the new pointer, which has moved by the rounded size.
abbrev pub Allocated : ℕ → Heap → Option ℕ × Heap → Type 0
Allocated size h (p, h') =
    ((p ≡ none) × (h' ≡ h) × ((size ≡ 0) ⊎ (free_bytes h < size)))
    ⊎ ((p ≡ some h.next)
        × (h.next % 16 ≡ 0)
        × (0 < size)
        × (h.next + size ≤ h'.next)
        × (h'.next < h.next + size + 16)
        × (h'.next ≤ heap_end))

-- Every request of a sane size is answered from the front of the free region or refused for lack of
-- space, and the heap stays well formed.
pub kalloc_lem :
    (size : ℕ) (h : Heap)
    → IsValid h
    → size ≤ max_request
    → Allocated size h (kalloc size h) × IsValid (kalloc size h).1
unfolding kalloc free_bytes
kalloc_lem size h v small = ground (arith, align_up-16 size)

-- A request so large that the address wraps is granted: it returns the old pointer, and the pointer
-- does not move forward.
pub kalloc_wraps :
    (size : ℕ) (h : Heap)
    → IsValid h
    → size < 2 ^ 32
    → 2 ^ 32 ≤ h.next + size
    → ((kalloc size h).0 ≡ some h.next) × ((kalloc size h).1.next ≤ h.next)
unfolding kalloc
kalloc_wraps size h v word huge = ground (arith, align_up-16 size)

-- The blocks that a sequence of requests is given, each with its size.
unfoldable pub run : List ℕ → Heap → List (ℕ × ℕ)
run [] h = []
run (size ∷ sizes) h =
    let (p, h') = kalloc size h in
    let rest = run sizes h' in elim p [ none ↦ rest | some ptr ↦ (ptr, size) ∷ rest ]

-- Blocks one behind the other from `low` on, inside the region and at multiples of 16.
abbrev pub Ascending : ℕ → List (ℕ × ℕ) → Type 0
Ascending low [] = Unit {0}
Ascending low ((p, size) ∷ blocks) =
    (low ≤ p) × (p % 16 ≡ 0) × (p + size ≤ heap_end) × Ascending (p + size) blocks

Ascending-mono :
    (low high : ℕ) (bs : List (ℕ × ℕ)) → low ≤ high → Ascending high bs → Ascending low bs
Ascending-mono low high [] h a = tt
Ascending-mono low high ((p, size) ∷ bs) h a = (omega (arith, h, a.0), a.1, a.2, a.3)

-- Whatever sizes are requested, none so large that a word wraps, the blocks do not overlap: each lies
-- in the region, at a multiple of 16 and behind all the earlier ones.
pub run-Ascending :
    (sizes : List ℕ) (h : Heap)
    → IsValid h
    → All (λ size. size ≤ max_request) sizes
    → Ascending h.next (run sizes h)
unfolding run
run-Ascending [] h v a = tt
run-Ascending (size ∷ sizes) h v a = ground (
  arith,
  kalloc_lem size h v a.0,
  run-Ascending sizes (kalloc size h).1 (kalloc_lem size h v a.0).1 a.1,
  Ascending-mono (h.next + size) (kalloc size h).1.next (run sizes (kalloc size h).1),
)

-- Whether an address lies in the `n` bytes at `ptr`.
abbrev pub within : ℕ → ℕ → ℕ → Bool
within ptr n a = leb ptr a && ltb a (ptr + n)

zero_bytes_lem :
    (bytes : ℕ → ℕ) (ptr n a : ℕ)
    → ptr + n ≤ 2 ^ 32
    → zero_bytes bytes ptr n a ≡ (if within ptr n a then 0 else bytes a)
unfolding zero_bytes
zero_bytes_lem bytes ptr zero a h = ground arith
zero_bytes_lem bytes ptr (suc n) a h =
    ground (arith, zero_bytes_lem (λ b. if b == ptr % 2 ^ 32 then 0 else bytes b) (ptr + 1) n a)

bytes-kalloc : (size : ℕ) (h : Heap) → (kalloc size h).1.bytes ≡ h.bytes
unfolding kalloc
bytes-kalloc size h = ground arith

-- `kalloc_zero` is granted and moves the pointer as `kalloc` does; a granted block is all zeros, and no
-- other byte of memory changes.
pub kalloc_zero_lem :
    (size : ℕ) (h : Heap) (a : ℕ)
    → IsValid h
    → size ≤ max_request
    → let (p, h') = kalloc_zero size h in
      (p ≡ (kalloc size h).0)
      × (h'.next ≡ (kalloc size h).1.next)
      × (((p ≡ none) × (h'.bytes a ≡ h.bytes a))
          ⊎ ((p ≡ some h.next) × (h'.bytes a ≡ (if within h.next size a then 0 else h.bytes a))))
unfolding kalloc_zero
kalloc_zero_lem size h a v small =
    ground
      (arith, kalloc_lem size h v small, bytes-kalloc size h, zero_bytes_lem h.bytes h.next size a)
