-- ===== src/Volmgr/Table/Attached.antt =====
-- kernel/volmgr.c: what `attach_device` and `volmgr_rescan` do with the table.
use pro_os.Prelude.{
  ℕ, zero, suc, ◌+◌, ◌%◌, ◌^◌, ◌≤◌, ◌<◌, ◌≡◌, refl, ap, sym, subst, ◌∙◌, true, not, ◌&&◌, ◌⊎◌, inl,
  inr, Option, none, some, List, arith, ltb, ◌==◌, get_or, set, Bool-cases, Option-cases,
}
use pro_os.Prelude.Arrays.{find_index-Found, find_index-none}
use pro_os.Blockdev.{Device, no_device, enumerate, max_devices}
use pro_os.Volmgr.{
  Volumes, no_volume, max_volumes, is_device, find_by_device, allocate_slot, new_volume,
  is_partition, attach_device, attach_from, rescan,
}
use pro_os.Volmgr.Table.{IsNumbered, entry, slot, added, added-IsNumbered, at_old, new_device_at}

-- A used entry stands for the device.
abbrev pub HasVolume : Volumes → ℕ → Type 0
HasVolume t d = (i : ℕ) × (i < t.next_index) × ((entry t i).device ≡ some d)

enumerate-le : (devices : List Device) → enumerate devices max_devices ≤ max_volumes
unfolding enumerate
enumerate-le devices = ground arith

-- What attaching one device makes of the table
record Attaches (devices : List Device) (t : Volumes) (d : ℕ) (t' : Volumes) : Type 0 where
  numbered : IsNumbered devices t'
  kept : (i : ℕ) → i < t.next_index → entry t' i ≡ entry t i
  grows : t.next_index ≤ t'.next_index
  one_more : t'.next_index ≤ t.next_index + 1
  attached :
      is_partition (get_or devices d no_device) ≡ true
      → HasVolume t' d ⊎ (t.next_index ≡ max_volumes)

is_device-some : (o : Option ℕ) (d : ℕ) → is_device o d ≡ true → o ≡ some d
is_device-some none d e = ground arith
is_device-some (some i) d e = ap some (ground arith)

module _ (devices : List Device) (t : Volumes) (d : ℕ) (k : IsNumbered devices t) where
  found-HasVolume : (i : ℕ) → find_by_device t.volumes d ≡ some i → HasVolume t d
  unfolding find_by_device
  found-HasVolume i e =
      let f = find_index-Found (λ v. v.used && is_device v.device d) t.volumes i e in
      let both : ((entry t i).used && is_device (entry t i).device d) ≡ true = f.passes no_volume in
      (i, ground (arith, both, k.used_first i), is_device-some (entry t i).device d (ground arith))

  full_table : allocate_slot t.volumes ≡ none → t.next_index ≡ max_volumes
  unfolding allocate_slot
  full_table e = elim (Bool-cases (ltb t.next_index max_volumes)) [
    | inr full ↦ ground (arith, k.few)
    | inl more ↦ absurd (
        ground (
          arith,
          find_index-none (λ v. not v.used) t.volumes t.next_index no_volume e
              (ground (arith, k.room)),
          k.used_first t.next_index,
        ))
  ]

  -- A table that does not change
  unchanged :
      (is_partition (get_or devices d no_device) ≡ true
        → HasVolume t d ⊎ (t.next_index ≡ max_volumes))
      → Attaches devices t d t
  unchanged a = record {
    numbered = k;
    kept = λ i h. refl;
    grows = omega arith;
    one_more = omega arith;
    attached = a;
  }

  added-Attaches :
      (some_room : t.next_index < max_volumes)
      (is_part : is_partition (get_or devices d no_device) ≡ true)
      (fresh : find_by_device t.volumes d ≡ none)
      → Attaches devices t d (added devices t d k some_room is_part fresh)
  added-Attaches some_room is_part fresh = record {
    numbered = added-IsNumbered devices t d k some_room is_part fresh;
    kept =
        λ i h. at_old devices t d k some_room is_part fresh i (λ e. absurd (omega (arith, e, h)));
    grows = omega arith;
    one_more = omega arith;
    attached =
        λ p. inl (t.next_index, omega arith, new_device_at devices t d k some_room is_part fresh);
  }

  attach_device-Attaches : Attaches devices t d (attach_device devices t d)
  unfolding attach_device
  attach_device-Attaches = elim (Bool-cases (is_partition (get_or devices d no_device))) [
    | inr no_part ↦ rw no_part (unchanged (λ p. absurd (ground arith)))
    | inl part ↦ elim (Option-cases (find_by_device t.volumes d)) [
      | inr (i, e) ↦ rw (part, e, attach_device) (unchanged (λ p. inl (found-HasVolume i e)))
      | inl fresh ↦ elim (Option-cases (allocate_slot t.volumes)) [
        | inl full ↦ rw (part, fresh, full, attach_device) (unchanged (λ p. inr (full_table full)))
        | inr (i, e) ↦
            let s = slot devices t i k e in
            let next : (t.next_index + 1) % 2 ^ 32 ≡ t.next_index + 1 = omega (arith, s.0, s.1) in
            rw (part, fresh, e, attach_device)
              (subst
                (λ m. Attaches devices t d (record {
                  volumes = set t.volumes i (new_volume t.next_index d);
                  next_index = m;
                }))
                (sym next)
                (subst
                  (λ j. Attaches devices t d (record {
                    volumes = set t.volumes j (new_volume t.next_index d);
                    next_index = t.next_index + 1;
                  }))
                  (sym s.0) (added-Attaches (omega (arith, s.0, s.1)) part fresh)))
      ]
    ]
  ]

-- What `volmgr_rescan` makes of the table, over `n` devices from `d` on
pub record Scans (devices : List Device) (n d : ℕ) (t t' : Volumes) : Type 0 where
  pub numbered : IsNumbered devices t'
  pub kept : (i : ℕ) → i < t.next_index → entry t' i ≡ entry t i
  pub grows : t.next_index ≤ t'.next_index
  pub attached :
      (e : ℕ)
      → d ≤ e
      → e < d + n
      → is_partition (get_or devices e no_device) ≡ true
      → HasVolume t' e ⊎ ((t'.next_index ≡ max_volumes) × (max_volumes < t.next_index + n))

attach_from-Scans :
    (devices : List Device) (n d : ℕ) (t : Volumes)
    → IsNumbered devices t
    → Scans devices n d t (attach_from devices n d t)
unfolding attach_from
attach_from-Scans devices zero d t k = record {
  numbered = k;
  kept = λ i h. refl;
  grows = omega arith;
  attached = λ e l g p. absurd (omega (arith, l, g));
}
attach_from-Scans devices (suc n) d t k =
    let a = attach_device-Attaches devices t d k in
    let u : Volumes = attach_device devices t d in
    let r = attach_from-Scans devices n (d + 1) u a.numbered in
    record {
      numbered = r.numbered;
      kept = λ i h. r.kept i (omega (arith, h, a.grows)) ∙ a.kept i h;
      grows = omega (arith, r.grows, a.grows);
      attached = λ e l g p. elim (Bool-cases (d == e)) [
        | inl same ↦
            let here : d ≡ e = ground arith in
            elim (a.attached
              (subst (λ m. is_partition (get_or devices m no_device) ≡ true) (sym here) p)) [
                | inl (i, h, dev) ↦ inl (
                  i,
                  omega (arith, h, r.grows),
                  ap (λ v. v.device) (r.kept i h) ∙ dev ∙ ap some here,
                )
                | inr full ↦
                    inr (omega (arith, full, a.grows, r.grows, r.numbered.few), omega (arith, full))
              ]
        | inr apart ↦ elim (r.attached e (ground (arith, l, apart)) (omega (arith, g)) p) [
          | inl v ↦ inl v
          | inr (full, less) ↦ inr (full, omega (arith, less, a.one_more))
        ]
      ];
    }

-- If the used volumes are the first ones, each with its index and for a partition, and no two for one device,
-- `volmgr_rescan` keeps that and the volumes that are there. Afterwards each partition among the first sixteen
-- devices has a volume, unless all sixteen volumes are in use and the volumes before and these devices were more than
-- sixteen together. From an empty table every one of these partitions gets its volume.
pub rescan_lem :
    (devices : List Device) (t : Volumes)
    → IsNumbered devices t
    → let n = enumerate devices max_devices in
      Scans devices n 0 t (rescan devices t)
      × (t.next_index ≡ 0
          → (d : ℕ) → d < n
          → is_partition (get_or devices d no_device) ≡ true
          → HasVolume (rescan devices t) d)
unfolding rescan
rescan_lem devices t k =
    let r = attach_from-Scans devices (enumerate devices max_devices) 0 t k in
    (
      r,
      λ z d h p. elim (r.attached d (omega arith) (omega (arith, h)) p) [
        | inl v ↦ v
        | inr (full, less) ↦ absurd (omega (arith, less, z, enumerate-le devices))
      ],
    )
