-- ===== src/Blockdev/Scan.antt =====
-- kernel/partition.c: the scan of a device for the partitions of its master boot record. What `blockdev_read`
-- gives for the first block is an argument, and so is whether `kalloc` grants the memory for an entry.
use pro_os.Prelude.{
  ℕ, zero, suc, ◌+◌, ◌-◌, ◌*◌, ◌/◌, ◌%◌, ◌≡◌, refl, ap, sym, ◌∙◌, Bool, true, not, ◌||◌, ◌⊎◌, inl,
  inr, Option, none, some, List, [], ◌∷◌, ◌++◌, ◌==◌, if◌then◌else◌, leb, length, get_or, set, take,
  Bool-cases,
}
use Prim.Native.Nat.{bit_and}
use pro_os.Prelude.Arrays.{All}
use pro_os.Blockdev.{
  Device, Descriptor, partition, no_device, name_max, max_devices, name_in_use, new_device,
  register, enumerate,
}

-- The decimal digits of a number, the last first: at most 12
unfoldable pub number : ℕ → ℕ → List ℕ
number zero value = []
number (suc room) value =
    let rest = number room (value / 10) in if value == 0 then [] else (b'0' + value % 10) ∷ rest

unfoldable pub backwards : List ℕ → List ℕ
backwards [] = []
backwards (c ∷ cs) = backwards cs ++ c ∷ []

-- `append_number` with a capacity above 0, behind a text that fits
unfoldable pub append_number : ℕ → List ℕ → ℕ → List ℕ
append_number cap text value =
    take (cap - 1) (text ++ (if value == 0 then b'0' ∷ [] else backwards (number 12 value)))

-- `make_partition_name` with a capacity above 0
unfoldable pub make_partition_name : ℕ → List ℕ → ℕ → List ℕ
make_partition_name cap base index =
    append_number cap (take (cap - 1) (take (cap - 1) base ++ b'p' ∷ [])) index

-- A 32-bit field of a sector, and the start of an entry
abbrev pub word_at : List ℕ → ℕ → ℕ
word_at sector i =
    get_or sector i 0
    + 256 * get_or sector (i + 1) 0
    + 65536 * get_or sector (i + 2) 0
    + 16777216 * get_or sector (i + 3) 0

abbrev pub entry_at : ℕ → ℕ
entry_at i = 446 + 16 * i

-- The descriptor for an entry of the table
unfoldable pub partition_of : Device → ℕ → List ℕ → ℕ → ℕ → Descriptor
partition_of device d sector i part_index = record {
  name = make_partition_name name_max device.name part_index;
  block_size = device.block_size;
  block_count = word_at sector (entry_at i + 12);
  ops = partition d (word_at sector (entry_at i + 8)) (word_at sector (entry_at i + 12));
  flags = 2;
}

-- An entry without a partition, or without memory for it
abbrev pub is_skipped : (ℕ → Bool) → List ℕ → ℕ → Bool
is_skipped granted sector i =
    (get_or sector (entry_at i + 4) 0 == 0)
    || ((word_at sector (entry_at i + 12) == 0) || not (granted i))

-- The loop over the entries, from `i` on
unfoldable pub scan_entries : (ℕ → Bool) → ℕ → List ℕ → ℕ → ℕ → ℕ → List Device → List Device
scan_entries granted d sector zero i part_index devices = devices
scan_entries granted d sector (suc n) i part_index devices =
    let skipped = scan_entries granted d sector n (i + 1) part_index devices in
    let entered =
      scan_entries granted d sector n (i + 1) (part_index + 1)
        (register devices (partition_of (get_or devices d no_device) d sector i part_index)).1 in
    if is_skipped granted sector i then skipped else entered

unfoldable pub mark_scanned : List Device → ℕ → List Device
mark_scanned devices d =
    set devices d (record (get_or devices d no_device) { scanned_partitions = true })

-- `partition_scan_device`; the sector is `none` where it cannot be read.
unfoldable pub scan_device : (ℕ → Bool) → List Device → ℕ → Option (List ℕ) → List Device
scan_device granted devices d none = devices
scan_device granted devices d (some sector) =
    let device = get_or devices d no_device in
    if not (device.block_size == 512)
      || (not (bit_and device.flags 2 == 0) || device.scanned_partitions)
    then devices
    else if not (get_or sector 510 0 == 0x55) || not (get_or sector 511 0 == 0xaa)
    then mark_scanned devices d
    else mark_scanned (scan_entries granted d sector 4 0 1 devices) d

-- The loop of `partition_autoscan`, from the device `d` on; `sector_of` is what is read of each device
unfoldable pub scan_from :
    (ℕ → ℕ → Bool) → (ℕ → Option (List ℕ)) → ℕ → ℕ → List Device → List Device
scan_from granted sector_of zero d devices = devices
scan_from granted sector_of (suc n) d devices =
    scan_from granted sector_of n (d + 1) (scan_device (granted d) devices d (sector_of d))

-- `partition_autoscan`: the devices that are there at its start
unfoldable pub autoscan : (ℕ → ℕ → Bool) → (ℕ → Option (List ℕ)) → List Device → List Device
autoscan granted sector_of devices =
    scan_from granted sector_of (enumerate devices max_devices) 0 devices

-- The devices that are entered for the partitions of device `d`
abbrev pub IsPartOf : ℕ → Device → Type 0
IsPartOf d x =
    (lba_start : ℕ) × (lba_length : ℕ) × (x.ops ≡ partition d lba_start lba_length) × (x.flags ≡ 2)

append_nil : (xs : List Device) → xs ++ [] ≡ xs
append_nil [] = refl
append_nil (x ∷ xs) = ap (◌∷◌ x) (append_nil xs)

append_assoc : (xs ys zs : List Device) → (xs ++ ys) ++ zs ≡ xs ++ (ys ++ zs)
append_assoc [] ys zs = refl
append_assoc (x ∷ xs) ys zs = ap (◌∷◌ x) (append_assoc xs ys zs)

register_adds :
    (devices : List Device) (desc : Descriptor)
    → ((register devices desc).1 ≡ devices)
      ⊎ ((register devices desc).1 ≡ devices ++ new_device desc ∷ [])
unfolding register
register_adds devices desc =
    elim (Bool-cases (leb max_devices (length devices) || name_in_use devices desc.name)) [
      | inl bad ↦ inl (rw bad refl)
      | inr good ↦ inr (rw good refl)
    ]

-- Devices with partitions of `d` behind them
abbrev Adds : ℕ → List Device → List Device → Type 0
Adds d devices w = (parts : List Device) × (w ≡ devices ++ parts) × All (IsPartOf d) parts

Adds-cons :
    (d : ℕ) (devices w : List Device) (x : Device)
    → IsPartOf d x
    → Adds d (devices ++ x ∷ []) w
    → Adds d devices w
Adds-cons d devices w x p (parts, e, a) =
    (x ∷ parts, e ∙ append_assoc devices (x ∷ []) parts, (p, a))

partition_of-IsPartOf :
    (device : Device) (d : ℕ) (sector : List ℕ) (i part_index : ℕ)
    → IsPartOf d (new_device (partition_of device d sector i part_index))
unfolding new_device partition_of
partition_of-IsPartOf device d sector i part_index =
    (word_at sector (entry_at i + 8), word_at sector (entry_at i + 12), refl, refl)

-- The loop over the entries only adds partitions of the device, behind the other devices.
pub scan_entries_adds :
    (granted : ℕ → Bool) (d : ℕ) (sector : List ℕ) (n i part_index : ℕ) (devices : List Device)
    → (parts : List Device) × (scan_entries granted d sector n i part_index devices
        ≡ devices ++ parts)
      × All (IsPartOf d) parts
unfolding scan_entries
scan_entries_adds granted d sector zero i part_index devices = ([], sym (append_nil devices), tt)
scan_entries_adds granted d sector (suc n) i part_index devices =
    let desc = partition_of (get_or devices d no_device) d sector i part_index in
    let go = scan_entries_adds granted d sector n (i + 1) in
    elim (Bool-cases (is_skipped granted sector i)) [
      | inl skip ↦ rw skip (go part_index devices)
      | inr enter ↦ rw enter (elim (register_adds devices desc) [
        | inl same ↦ rw same (go (part_index + 1) devices)
        | inr more ↦ rw more (
            Adds-cons d devices
              (scan_entries granted d sector n (i + 1) (part_index + 1)
                (devices ++ new_device desc ∷ []))
              (new_device desc)
              (partition_of-IsPartOf (get_or devices d no_device) d sector i part_index)
              (go (part_index + 1) (devices ++ new_device desc ∷ [])))
      ])
    ]
