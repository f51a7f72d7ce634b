-- ===== src/Volmgr.antt =====
-- kernel/volmgr.c: the volumes that stand for the partitions of the table of block devices. A pointer to a device
-- is its index, and NULL is `none`.
pub mod Table
mod Tests
use pro_os.Prelude.{
  ℕ, zero, suc, ◌+◌, ◌-◌, ◌/◌, ◌%◌, ◌^◌, Bool, true, false, not, ◌&&◌, Option, none, some, List, [],
  ◌∷◌, ◌++◌, leb, ◌==◌, if◌then◌else◌, length, get_or, set, take, replicate,
}
use Prim.Native.Nat.{bit_and}
use pro_os.Prelude.Arrays.{find_index}
use pro_os.Blockdev.Scan.{autoscan}
use pro_os.Blockdev.{Device, no_device, str_equals, enumerate, max_devices}

-- VOLMGR_MAX_VOLUMES, VOLMGR_NAME_MAX, VFS_MAX_PATH and BLOCKDEV_FLAG_PARTITION
abbrev pub max_volumes : ℕ
max_volumes = 16

abbrev pub volume_name_max : ℕ
volume_name_max = 16

abbrev pub max_path : ℕ
max_path = 128

abbrev pub flag_partition : ℕ
flag_partition = 2

-- `struct volume_record`
pub record Volume : Type 0 where
  pub used : Bool
  pub name : List ℕ
  pub mount_path : List ℕ
  pub device : Option ℕ
  pub index : ℕ

-- `volume_table` and `next_index`
pub record Volumes : Type 0 where
  pub volumes : List Volume
  pub next_index : ℕ

abbrev pub no_volume : Volume
no_volume = record { used = false; name = []; mount_path = []; device = none; index = 0 }

-- `reset_table`
unfoldable pub reset_table : Volumes
reset_table = record { volumes = replicate max_volumes no_volume; next_index = 0 }

-- The decimal digits of a number, the last first: at most 12
unfoldable pub digits : ℕ → ℕ → List ℕ
digits zero value = []
digits (suc room) value =
    let rest = digits room (value / 10) in if value == 0 then [] else (b'0' + value % 10) ∷ rest

unfoldable pub reversed : List ℕ → List ℕ
reversed [] = []
reversed (c ∷ cs) = reversed cs ++ c ∷ []

-- `format_volume_name` with a capacity above 0
unfoldable pub format_volume_name : ℕ → ℕ → List ℕ
format_volume_name cap index =
    let number = if index == 0 then b'0' ∷ [] else reversed (digits 12 index) in
    take (cap - 1) (b'D' ∷ b'i' ∷ b's' ∷ b'k' ∷ number)

-- `format_mount_path` with a capacity above 0
unfoldable pub format_mount_path : ℕ → List ℕ → List ℕ
format_mount_path cap name =
    take (cap - 1) (b'/' ∷ b'V' ∷ b'o' ∷ b'l' ∷ b'u' ∷ b'm' ∷ b'e' ∷ b's' ∷ b'/' ∷ name)

abbrev pub is_device : Option ℕ → ℕ → Bool
is_device none d = false
is_device (some i) d = i == d

-- `find_by_device`
unfoldable pub find_by_device : List Volume → ℕ → Option ℕ
find_by_device volumes d = find_index (λ v. v.used && is_device v.device d) volumes

-- `allocate_slot`
unfoldable pub allocate_slot : List Volume → Option ℕ
allocate_slot = find_index (λ v. not v.used)

-- What `attach_device` enters
unfoldable pub new_volume : ℕ → ℕ → Volume
new_volume index d =
    let name = take (volume_name_max - 1) (format_volume_name volume_name_max index) in
    record {
      used = true;
      name = name;
      mount_path = format_mount_path max_path name;
      device = some d;
      index = index;
    }

abbrev pub is_partition : Device → Bool
is_partition d = not (bit_and d.flags flag_partition == 0)

-- `attach_device`
unfoldable pub attach_device : List Device → Volumes → ℕ → Volumes
attach_device devices t d =
    if not (is_partition (get_or devices d no_device))
    then t
    else elim (find_by_device t.volumes d) [
      | some i ↦ t
      | none ↦ elim (allocate_slot t.volumes) [
        | none ↦ t
        | some i ↦ record {
          volumes = set t.volumes i (new_volume t.next_index d);
          next_index = (t.next_index + 1) % 2 ^ 32;
        }
      ]
    ]

-- The loop of `volmgr_rescan`: from the device `d` on
unfoldable pub attach_from : List Device → ℕ → ℕ → Volumes → Volumes
attach_from devices zero d t = t
attach_from devices (suc n) d t = attach_from devices n (d + 1) (attach_device devices t d)

-- `volmgr_rescan`
unfoldable pub rescan : List Device → Volumes → Volumes
rescan devices t = attach_from devices (enumerate devices max_devices) 0 t

-- `volmgr_init`, with what `partition_autoscan` needs
unfoldable pub init : (ℕ → ℕ → Bool) → (ℕ → Option (List ℕ)) → List Device → List Device × Volumes
init granted sector_of devices =
    let scanned = autoscan granted sector_of devices in (scanned, rescan scanned reset_table)

-- `volmgr_volume_count`
unfoldable pub count_used : List Volume → ℕ
count_used [] = 0
count_used (v ∷ vs) = let rest = count_used vs in if v.used then suc rest else rest

-- `volmgr_volume_at`, over the volumes that are left
unfoldable pub volume_at : List Volume → ℕ → Option Volume
volume_at [] n = none
volume_at (v ∷ vs) zero = let rest = volume_at vs 0 in if v.used then some v else rest
volume_at (v ∷ vs) (suc n) =
    let used = volume_at vs n in
    let unused = volume_at vs (suc n) in if v.used then used else unused

-- `volmgr_find_device`
unfoldable pub find_device : List Volume → List ℕ → Option ℕ
find_device volumes name = elim (find_index (λ v. v.used && str_equals v.name name) volumes) [
  | none ↦ none
  | some i ↦ (get_or volumes i no_volume).device
]
