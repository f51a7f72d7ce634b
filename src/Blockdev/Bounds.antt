-- ===== src/Blockdev/Bounds.antt =====
-- kernel/partition.c: which blocks an access through a partition reaches.
use pro_os.Prelude.{
  ℕ, suc, ◌+◌, ◌-◌, ◌%◌, ◌^◌, ◌≤◌, ◌<◌, ◌≡◌, refl, ap, true, false, not, ◌&&◌, ◌⊎◌, inl, inr,
  Option, some, List, arith, ltb, ◌==◌, get_or, Bool-cases,
}
use pro_os.Blockdev.{
  Device, driver, partition, no_device, Outcome, refused, asked, op_guard, access,
}

-- What an access of `count` blocks at `lba` through a partition may lead to
pub data Reaches (k lba_start lba_length lba count : ℕ) : Option Outcome → Type 0 where
  turned_down : Reaches k lba_start lba_length lba count (some refused)
  inside :
      lba + count ≤ lba_length
      → Reaches k lba_start lba_length lba count (some (asked k (lba_start + lba) count))
  wrapped :
      2 ^ 64 ≤ lba + count
      → Reaches k lba_start lba_length lba count (some (asked k ((lba_start + lba) % 2 ^ 64) count))

driver_access :
    (devices : List Device) (q k lba count fuel : ℕ)
    → (get_or devices q no_device).ops ≡ driver k
    → (access (suc fuel) devices q lba count ≡ some refused)
      ⊎ (access (suc fuel) devices q lba count ≡ some (asked k lba count))
unfolding access
driver_access devices q k lba count fuel e =
    elim (Bool-cases (op_guard (get_or devices q no_device) lba count)) [
      | inl ok ↦ inr (rw (ok, e) refl)
      | inr bad ↦ inl (rw bad refl)
    ]

-- An access through a partition whose parent is a driver's device ends: it is refused, or the driver is asked for
-- blocks inside the partition, or `lba + count` wraps; then the range checks pass on the wrapped sum, and the driver
-- is asked for what the wrapped first block says. The partition is not empty and ends below block 2^64.
pub access-Reaches :
    (devices : List Device) (p q k lba_start lba_length lba count fuel : ℕ)
    → (get_or devices p no_device).ops ≡ partition q lba_start lba_length
    → (get_or devices q no_device).ops ≡ driver k
    → 0 < lba_length
    → lba_start + lba_length < 2 ^ 64
    → Reaches k lba_start lba_length lba count (access (suc (suc fuel)) devices p lba count)
unfolding access
access-Reaches devices p q k lba_start lba_length lba count fuel ep eq some_blocks bound =
    elim (Bool-cases (op_guard (get_or devices p no_device) lba count)) [
      | inr bad ↦ rw bad turned_down
      | inl ok ↦
          elim (Bool-cases (not (lba_length == 0) && ltb lba_length ((lba + count) % 2 ^ 64))) [
            | inl over ↦ rw (ok, ep, access) (rw over turned_down)
            | inr within ↦
                rw (ok, ep, access)
                  (rw within
                    (elim (driver_access devices q k ((lba_start + lba) % 2 ^ 64) count fuel eq) [
                      | inl r ↦ rw r turned_down
                      | inr a ↦ elim (Bool-cases (ltb (lba + count) (2 ^ 64))) [
                        | inl small ↦
                            let h : lba + count ≤ lba_length = ground arith in
                            let same : (lba_start + lba) % 2 ^ 64 ≡ lba_start + lba =
                              omega (arith, h, bound) in
                            rw (a, same) (inside h)
                        | inr large ↦ rw a (wrapped (ground arith))
                      ]
                    ]))
          ]
    ]

-- The sum of the last block number and 1 is 0.
guard_wraps : (d : Device) → op_guard d (2 ^ 64 - 1) 1 ≡ true
unfolding op_guard
guard_wraps d = elim (Bool-cases (d.block_count == 0)) [
  | inl z ↦ ground (arith, z)
  | inr n ↦ ground (arith, n)
]

length_wraps : (n : ℕ) → (not (n == 0) && ltb n ((2 ^ 64 - 1 + 1) % 2 ^ 64)) ≡ false
length_wraps n = elim (Bool-cases (n == 0)) [ inl z ↦ rw z refl | inr d ↦ ground (arith, d) ]

-- At the last 64-bit block number, the block in front of a partition is read, whatever the length of the partition is.
pub access_wraps :
    (devices : List Device) (p q k lba_start lba_length fuel : ℕ)
    → (get_or devices p no_device).ops ≡ partition q lba_start lba_length
    → (get_or devices q no_device).ops ≡ driver k
    → op_guard (get_or devices q no_device) (lba_start - 1) 1 ≡ true
    → 0 < lba_start
    → lba_start < 2 ^ 64
    → access (suc (suc fuel)) devices p (2 ^ 64 - 1) 1 ≡ some (asked k (lba_start - 1) 1)
unfolding access
access_wraps devices p q k lba_start lba_length fuel ep eq ok h b =
    let shift : (lba_start + (2 ^ 64 - 1)) % 2 ^ 64 ≡ lba_start - 1 = omega (arith, h, b) in
    rw (guard_wraps (get_or devices p no_device), ep, access)
      (rw (length_wraps lba_length, shift)
        (rw (ok, eq, access) (ap (λ n. some (asked k n 1)) shift)))
