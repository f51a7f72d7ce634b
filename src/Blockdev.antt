-- ===== src/Blockdev.antt =====
-- kernel/blockdev.c and kernel/partition.c. The table is the list of the devices up to
-- `device_count`, and a pointer to a device is its index. A name is the list of its bytes, not NULL. What a
-- driver is asked for is the result of an access; its answer is the driver's.
pub mod Bounds
pub mod Names
pub mod Scan
mod Tests
use pro_os.Prelude.{
  ℕ, zero, suc, ◌+◌, ◌-◌, ◌%◌, ◌^◌, Bool, true, false, not, ◌&&◌, ◌||◌, Option, none, some, List,
  [], ◌∷◌, ◌++◌, ltb, leb, ◌==◌, if◌then◌else◌, length, get_or, take, remove_at,
}
use pro_os.Prelude.Arrays.{find_index}
use pro_os.Prelude.Int.{ℤ, failure, success}

-- BLOCKDEV_MAX_DEVICES and BLOCKDEV_NAME_MAX
abbrev pub max_devices : ℕ
max_devices = 16

abbrev pub name_max : ℕ
name_max = 32

-- `ops` with `driver_data`: none (`!dev->ops`, or an operation that is NULL), a driver, or `partition_ops` with its
-- `struct partition_data`
pub data Ops : Type 0 where
  no_ops : Ops
  driver : ℕ → Ops
  partition : ℕ → ℕ → ℕ → Ops

-- `struct block_device`
pub record Device : Type 0 where
  pub name : List ℕ
  pub block_size : ℕ
  pub block_count : ℕ
  pub ops : Ops
  pub flags : ℕ
  pub scanned_partitions : Bool

abbrev pub no_device : Device
no_device = record {
  name = [];
  block_size = 0;
  block_count = 0;
  ops = no_ops;
  flags = 0;
  scanned_partitions = false;
}

-- `blockdev_init`
abbrev pub init : List Device
init = []

-- `struct blockdev_descriptor`
pub record Descriptor : Type 0 where
  pub name : List ℕ
  pub block_size : ℕ
  pub block_count : ℕ
  pub ops : Ops
  pub flags : ℕ

-- `str_equals`
unfoldable pub str_equals : List ℕ → List ℕ → Bool
str_equals [] [] = true
str_equals [] (b ∷ bs) = false
str_equals (a ∷ as') [] = false
str_equals (a ∷ as') (b ∷ bs) = (a == b) && str_equals as' bs

-- `blockdev_find`
unfoldable pub find : List Device → List ℕ → Option ℕ
find devices name = find_index (λ d. str_equals d.name name) devices

abbrev pub is_some : Option ℕ → Bool
is_some none = false
is_some (some i) = true

-- `name_in_use`
abbrev pub name_in_use : List Device → List ℕ → Bool
name_in_use devices name = is_some (find devices name)

-- `copy_name`
abbrev pub copy_name : ℕ → List ℕ → List ℕ
copy_name cap src = take (if leb cap (length src) then cap - 1 else length src) src

-- What `blockdev_register` stores
unfoldable pub new_device : Descriptor → Device
new_device desc = record {
  name = copy_name name_max desc.name;
  block_size = if desc.block_size == 0 then 512 else desc.block_size;
  block_count = desc.block_count;
  ops = desc.ops;
  flags = desc.flags;
  scanned_partitions = false;
}

-- `blockdev_register`
unfoldable pub register : List Device → Descriptor → ℤ × List Device
register devices desc =
    if leb max_devices (length devices) || name_in_use devices desc.name
    then (failure, devices)
    else (success, devices ++ new_device desc ∷ [])

-- `blockdev_unregister`
unfoldable pub unregister : List Device → List ℕ → ℤ × List Device
unregister devices name = elim (find devices name) [
  | none ↦ (failure, devices)
  | some i ↦ (success, remove_at i devices)
]

-- `blockdev_enumerate`: the indices below the result
unfoldable pub enumerate : List Device → ℕ → ℕ
enumerate devices max_count = if ltb (length devices) max_count then length devices else max_count

-- `op_guard`, on 64-bit words
unfoldable pub op_guard : Device → ℕ → ℕ → Bool
op_guard d lba count =
    (count == 0) || ((d.block_count == 0) || leb ((lba + count) % 2 ^ 64) d.block_count)

-- How an access ends: refused, or with what a driver is asked for
pub data Outcome : Type 0 where
  refused : Outcome
  asked : ℕ → ℕ → ℕ → Outcome

-- `blockdev_read` and `blockdev_write` with `partition_read` and `partition_write`, on fuel. An entry
-- behind the table is cleared, and has no operations: `none` where it does
-- not suffice for the chain of parents
unfoldable pub access : ℕ → List Device → ℕ → ℕ → ℕ → Option Outcome
access zero devices i lba count = none
access (suc fuel) devices i lba count =
    let d = get_or devices i no_device in
    let inner : Option Outcome = elim d.ops [
      | no_ops ↦ some refused
      | driver k ↦ some (asked k lba count)
      | partition parent lba_start lba_length ↦
          let rest = access fuel devices parent ((lba_start + lba) % 2 ^ 64) count in
          if not (lba_length == 0) && ltb lba_length ((lba + count) % 2 ^ 64)
          then some refused
          else rest
    ] in
    if op_guard d lba count then inner else some refused
