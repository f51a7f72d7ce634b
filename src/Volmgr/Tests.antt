-- ===== src/Volmgr/Tests.antt =====
-- A run of kernel/volmgr.c, and its theorem at a concrete table.
use pro_os.Prelude.{true, ℕ, ◌<◌, ◌++◌, length, get_or, replicate, ◌≡◌, refl, some, List, [], ◌∷◌}
use mathlib.Core.Option
use pro_os.Prelude.Arrays.{find_index}
use pro_os.Blockdev.{
  Device, no_device, driver, partition, str_equals, enumerate, max_devices, register, find,
  new_device,
}
use pro_os.Blockdev.Scan.{
  autoscan, scan_from, scan_device, scan_entries, mark_scanned, partition_of, make_partition_name,
  append_number, number, backwards,
}
use pro_os.Volmgr.{
  init, Volumes, reset_table, digits, reversed, format_volume_name, format_mount_path,
  find_by_device, allocate_slot, new_volume, attach_device, attach_from, rescan, count_used,
  volume_at, find_device, is_partition,
}
use pro_os.Volmgr.Table.{reset_table-IsNumbered}
use pro_os.Volmgr.Table.Attached.{Scans, HasVolume, rescan_lem}

-- A disk with two partitions
abbrev devices : List Device
devices =
    record no_device { ops = driver 3 }
    ∷ record no_device { ops = partition 0 100 50; flags = 2 }
    ∷ record no_device { ops = partition 0 200 50; flags = 2 }
    ∷ []

abbrev found : Volumes
found = rescan devices reset_table

numbers : format_volume_name 16 205 ≡ b'D' ∷ b'i' ∷ b's' ∷ b'k' ∷ b'2' ∷ b'0' ∷ b'5' ∷ []
unfolding format_volume_name digits reversed
numbers = refl

runs :
    (count_used found.volumes ≡ 2)
    × (find_device found.volumes (b'D' ∷ b'i' ∷ b's' ∷ b'k' ∷ b'1' ∷ []) ≡ some 2)
    × (Option.map (λ v. v.device) (volume_at found.volumes 0) ≡ some (some 1))
    × (count_used (rescan devices found).volumes ≡ 2)
unfolding rescan attach_from attach_device enumerate reset_table find_by_device allocate_slot
    find_index new_volume format_volume_name format_mount_path digits reversed count_used volume_at
    find_device str_equals
runs = (refl, refl, refl, refl)

-- A master boot record with one entry: type 4, 50 blocks from block 100 on
abbrev sector : List ℕ
sector =
    replicate 450 0 ++ 4 ∷ 0 ∷ 0 ∷ 0 ∷ 100 ∷ 0 ∷ 0 ∷ 0 ∷ 50 ∷ replicate 51 0 ++ 0x55 ∷ 0xaa ∷ []

abbrev booted : List Device × Volumes
booted =
    init (λ d i. true) (λ d. some sector)
      (record no_device { name = b'd' ∷ []; block_size = 512; ops = driver 3 } ∷ [])

boots :
    (length booted.0 ≡ 2)
    × ((get_or booted.0 1 no_device).name ≡ b'd' ∷ b'p' ∷ b'1' ∷ [])
    × ((get_or booted.0 1 no_device).ops ≡ partition 0 100 50)
    × (count_used booted.1.volumes ≡ 1)
unfolding init autoscan scan_from scan_device scan_entries mark_scanned partition_of
    make_partition_name append_number number backwards register find new_device rescan attach_from
    attach_device enumerate reset_table find_by_device allocate_slot find_index new_volume
    format_volume_name format_mount_path digits reversed count_used volume_at find_device str_equals
boots = (refl, refl, refl, refl)

rescan_lem_example :
    Scans devices (enumerate devices max_devices) 0 reset_table (rescan devices reset_table)
    × (reset_table.next_index ≡ 0
        → (d : ℕ) → d < enumerate devices max_devices
        → is_partition (get_or devices d no_device) ≡ true
        → HasVolume (rescan devices reset_table) d)
rescan_lem_example = rescan_lem devices reset_table (reset_table-IsNumbered devices)
