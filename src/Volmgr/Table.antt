-- ===== src/Volmgr/Table.antt =====
-- kernel/volmgr.c: the used entries are the first ones, with their indices, and no device has two volumes.
pub mod Attached
use pro_os.Prelude.{
  ℕ, zero, suc, ◌+◌, ◌%◌, ◌^◌, ◌≤◌, ◌<◌, ◌≡◌, ◌≢◌, refl, ap, sym, subst, ◌∙◌, true, not, ◌&&◌, ◌⊎◌,
  inl, inr, none, some, List, arith, ltb, ◌==◌, length, length-set, get_or, set, Bool-cases,
  Option-cases, get_or-set_self, get_or-set_ne, replicate,
}
use pro_os.Prelude.Arrays.{find_index-Found, find_index-none}
use pro_os.Blockdev.{Device, no_device, enumerate, max_devices}
use pro_os.Volmgr.{
  Volume, Volumes, no_volume, max_volumes, reset_table, is_device, find_by_device, allocate_slot,
  new_volume, is_partition, attach_device, attach_from, rescan,
}

abbrev pub entry : Volumes → ℕ → Volume
entry t i = get_or t.volumes i no_volume

pub record IsNumbered (devices : List Device) (t : Volumes) : Type 0 where
  pub room : length t.volumes ≡ max_volumes
  pub few : t.next_index ≤ max_volumes
  pub used_first : (i : ℕ) → (entry t i).used ≡ ltb i t.next_index
  pub numbered : (i : ℕ) → i < t.next_index → (entry t i).index ≡ i
  pub partitions :
      (i : ℕ)
      → i < t.next_index
      → (d : ℕ) × ((entry t i).device ≡ some d) × (is_partition (get_or devices d no_device) ≡ true)
  pub unique :
      (i j : ℕ)
      → i < t.next_index
      → j < t.next_index
      → (entry t i).device ≡ (entry t j).device
      → i ≡ j

blank_entry : (n i : ℕ) → get_or (replicate n no_volume) i no_volume ≡ no_volume
blank_entry zero i = refl
blank_entry (suc n) zero = refl
blank_entry (suc n) (suc i) = blank_entry n i

pub reset_table-IsNumbered : (devices : List Device) → IsNumbered devices reset_table
unfolding reset_table
reset_table-IsNumbered devices = record {
  room = refl;
  few = omega arith;
  used_first = λ i. ap (λ v. v.used) (blank_entry max_volumes i) ∙ ground arith;
  numbered = λ i h. absurd (omega (arith, h));
  partitions = λ i h. absurd (omega (arith, h));
  unique = λ i j h. absurd (omega (arith, h));
}

-- The slot that is allocated is the first behind the used ones.
slot :
    (devices : List Device) (t : Volumes) (i : ℕ)
    → IsNumbered devices t
    → allocate_slot t.volumes ≡ some i
    → (i ≡ t.next_index) × (i < max_volumes)
unfolding allocate_slot
slot devices t i k e =
    let f = find_index-Found (λ v. not v.used) t.volumes i e in
    let free : not (entry t i).used ≡ true = f.passes no_volume in
    let above : t.next_index ≤ i = ground (arith, free, k.used_first i) in
    let here : i ≡ t.next_index = elim (Bool-cases (ltb t.next_index i)) [
      | inl more ↦
          absurd (
            ground
              (arith, f.first t.next_index no_volume (ground arith), k.used_first t.next_index))
      | inr less ↦ ground (arith, above)
    ] in
    (here, omega (arith, f.in_table, k.room))

-- A device that has no volume is no entry's device.
no_volume_of :
    (devices : List Device) (t : Volumes) (d i : ℕ)
    → IsNumbered devices t
    → find_by_device t.volumes d ≡ none
    → i < t.next_index
    → (entry t i).device ≢ some d
unfolding find_by_device
no_volume_of devices t d i k e h same =
    let miss =
      find_index-none (λ v. v.used && is_device v.device d) t.volumes i no_volume e
        (omega (arith, h, k.few, k.room)) in
    let hit : is_device (entry t i).device d ≡ true = ap (λ o. is_device o d) same ∙ ground arith in
    absurd (ground (arith, miss, hit, k.used_first i))

-- One more volume
module _ (devices : List Device) (t : Volumes) (d : ℕ) (k : IsNumbered devices t)
    (some_room : t.next_index < max_volumes)
    (is_part : is_partition (get_or devices d no_device) ≡ true)
    (fresh : find_by_device t.volumes d ≡ none) where
  abbrev n : ℕ
  n = t.next_index

  abbrev added : Volumes
  added = record { volumes = set t.volumes n (new_volume n d); next_index = n + 1 }

  at_new : entry added n ≡ new_volume n d
  at_new = get_or-set_self t.volumes n (new_volume n d) no_volume (omega (arith, some_room, k.room))

  at_old : (i : ℕ) → n ≢ i → entry added i ≡ entry t i
  at_old i ne = get_or-set_ne t.volumes n i (new_volume n d) no_volume ne

  last_or_old : (i : ℕ) → i < n + 1 → (n ≡ i) ⊎ (i < n)
  last_or_old i h = elim (Bool-cases (ltb i n)) [
    | inl l ↦ inr (ground arith)
    | inr g ↦ inl (ground arith)
  ]

  old_device : (i : ℕ) → i < n → (entry added i).device ≡ (entry t i).device
  old_device i h = ap (λ v. v.device) (at_old i (λ e. absurd (omega (arith, e, h))))

  new_device_at : (entry added n).device ≡ some d
  unfolding new_volume
  new_device_at = ap (λ v. v.device) at_new

  added-IsNumbered : IsNumbered devices added
  unfolding new_volume
  added-IsNumbered = record {
    room = length-set t.volumes n (new_volume n d) ∙ k.room;
    few = omega (arith, some_room);
    used_first = λ i. elim (Bool-cases (n == i)) [
      | inl e ↦
          let here : n ≡ i = ground arith in
          subst (λ j. (entry added j).used ≡ ltb j (n + 1)) here
            (ap (λ v. v.used) at_new ∙ ground arith)
      | inr ne ↦
          let apart : n ≢ i = λ e. ground arith in
          ap (λ v. v.used) (at_old i apart) ∙ k.used_first i ∙ ground arith
    ];
    numbered = λ i h. elim (last_or_old i h) [
      | inl e ↦ subst (λ j. (entry added j).index ≡ j) e (ap (λ v. v.index) at_new)
      | inr l ↦ ap (λ v. v.index) (at_old i (λ e. absurd (omega (arith, e, l)))) ∙ k.numbered i l
    ];
    partitions = λ i h. elim (last_or_old i h) [
      | inl e ↦
          subst
            (λ j.
              (m : ℕ) × ((entry added j).device ≡ some m)
              × (is_partition (get_or devices m no_device) ≡ true))
            e (d, new_device_at, is_part)
      | inr l ↦ let (m, e, p) = k.partitions i l in (m, old_device i l ∙ e, p)
    ];
    unique = λ i j h g same. elim (last_or_old i h) [
      | inl e ↦ elim (last_or_old j g) [
        | inl f ↦ sym e ∙ f
        | inr m ↦ absurd (
            no_volume_of devices t d j k fresh m (
              sym (old_device j m)
              ∙ sym same
              ∙ ap (λ x. (entry added x).device) (sym e)
              ∙ new_device_at))
      ]
      | inr l ↦ elim (last_or_old j g) [
        | inl f ↦ absurd (
            no_volume_of devices t d i k fresh l (
              sym (old_device i l)
              ∙ same
              ∙ ap (λ x. (entry added x).device) (sym f)
              ∙ new_device_at))
        | inr m ↦ k.unique i j l m (sym (old_device i l) ∙ same ∙ old_device j m)
      ]
    ];
  }
