-- ===== src/Blockdev/Names.antt =====
-- kernel/blockdev.c: the devices of the table by their names.
use pro_os.Prelude.{
  ℕ, zero, suc, ◌≤◌, ◌<◌, ◌≡◌, refl, ap, ◌∙◌, true, false, ◌||◌, ◌⊎◌, inl, inr, none, some, List,
  [], ◌∷◌, ◌++◌, arith, leb, length, length-append, take_all, remove_at, Bool-cases, Option-cases,
}
use mathlib.Core.Option
use pro_os.Prelude.Arrays.{find_index}
use pro_os.Prelude.Int.{ℤ, failure, success}
use pro_os.Blockdev.{
  Device, Descriptor, max_devices, name_max, str_equals, find, name_in_use, copy_name, new_device,
  register, unregister,
}

pub str_equals_refl : (a : List ℕ) → str_equals a a ≡ true
unfolding str_equals
str_equals_refl [] = refl
str_equals_refl (c ∷ a) = ground (arith, str_equals_refl a)

-- A search in a table with one more device
module _ (name : List ℕ) (d : Device) where
  find-append_some :
      (devices : List Device) (i : ℕ)
      → find devices name ≡ some i
      → find (devices ++ d ∷ []) name ≡ some i
  unfolding find find_index
  find-append_some [] i e = ground arith
  find-append_some (x ∷ devices) zero e = elim (Bool-cases (str_equals x.name name)) [
    | inl s ↦ rw s refl
    | inr n ↦ absurd (ground arith)
  ]
  find-append_some (x ∷ devices) (suc i) e = elim (Bool-cases (str_equals x.name name)) [
    | inl s ↦ absurd (ground arith)
    | inr n ↦ rw n (ap (Option.map suc) (find-append_some devices i (ground arith)))
  ]

  find-append_none :
      (devices : List Device)
      → find devices name ≡ none
      → str_equals d.name name ≡ true
      → find (devices ++ d ∷ []) name ≡ some (length devices)
  unfolding find find_index
  find-append_none [] e s = rw s refl
  find-append_none (x ∷ devices) e s = elim (Bool-cases (str_equals x.name name)) [
    | inl t ↦ absurd (ground arith)
    | inr n ↦ rw n (ap (Option.map suc) (find-append_none devices (ground arith) s))
  ]

copy_name_short : (name : List ℕ) → length name < name_max → copy_name name_max name ≡ name
copy_name_short name h =
    let small : leb name_max (length name) ≡ false = ground arith in
    rw small (take_all (length name) name (omega arith))

remove_last :
    (devices : List Device) (d : Device) → remove_at (length devices) (devices ++ d ∷ []) ≡ devices
remove_last [] d = refl
remove_last (x ∷ devices) d = ap (◌∷◌ x) (remove_last devices d)

found :
    (devices : List Device) (desc : Descriptor)
    → find devices desc.name ≡ none
    → length desc.name < name_max
    → find (devices ++ new_device desc ∷ []) desc.name ≡ some (length devices)
unfolding new_device
found devices desc absent short =
    find-append_none desc.name (new_device desc) devices absent (
      ap (λ n. str_equals n desc.name) (copy_name_short desc.name short)
      ∙ str_equals_refl desc.name)

found_again :
    (devices : List Device) (desc : Descriptor)
    → find (devices ++ new_device desc ∷ []) desc.name ≡ some (length devices)
    → unregister (devices ++ new_device desc ∷ []) desc.name ≡ (success, devices)
unfolding unregister
found_again devices desc e =
    rw (e, unregister) (ap (λ w. (success, w)) (remove_last devices (new_device desc)))

-- How `blockdev_register` ends
pub data Registers (devices : List Device) (desc : Descriptor) : ℤ × List Device → Type 0 where
  rejected :
      (max_devices ≤ length devices) ⊎ (name_in_use devices desc.name ≡ true)
      → Registers devices desc (failure, devices)
  registered :
      {w : List Device}
      → length w ≤ max_devices
      → find devices desc.name ≡ none
      → (length desc.name < name_max → find w desc.name ≡ some (length devices))
      → (length desc.name < name_max → unregister w desc.name ≡ (success, devices))
      → ((other : List ℕ) (i : ℕ) → find devices other ≡ some i → find w other ≡ some i)
      → Registers devices desc (success, w)

-- `blockdev_register` fails without a change for a full table or a name that is in use. Otherwise the new device is
-- found by its name if that has at most 31 bytes, and `blockdev_unregister` then gives the old table back; all
-- other devices are found where they were.
pub register_lem :
    (devices : List Device) (desc : Descriptor) → Registers devices desc (register devices desc)
unfolding register
register_lem devices desc =
    elim (Bool-cases (leb max_devices (length devices) || name_in_use devices desc.name)) [
      | inl bad ↦ rw bad (
          rejected (elim (Bool-cases (leb max_devices (length devices))) [
            | inl full ↦ inl (ground arith)
            | inr room ↦ inr (ground arith)
          ]))
      | inr good ↦
          let absent : find devices desc.name ≡ none =
            elim (Option-cases (find devices desc.name)) [
              | inl e ↦ e
              | inr (i, e) ↦ absurd (ground (arith, e))
            ] in
          rw good (
            registered (ground (arith, length-append devices (new_device desc ∷ []))) absent
              (found devices desc absent)
              (λ short. found_again devices desc (found devices desc absent short))
              (λ other i e. find-append_some other (new_device desc) devices i e))
    ]
