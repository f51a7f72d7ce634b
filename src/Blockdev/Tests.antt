-- ===== src/Blockdev/Tests.antt =====
-- Runs of kernel/blockdev.c and kernel/partition.c, and their theorems at a concrete table.
use pro_os.Prelude.{ℕ, ◌-◌, ◌^◌, ◌≡◌, refl, none, some, List, [], ◌∷◌, arith, replicate}
use pro_os.Prelude.Arrays.{find_index}
use pro_os.Prelude.Int.{failure, success}
use pro_os.Blockdev.{
  Device, Descriptor, driver, partition, refused, asked, str_equals, find, new_device, register,
  unregister, enumerate, op_guard, access,
}
use pro_os.Blockdev.Bounds.{Reaches, access-Reaches}

abbrev disk : Descriptor
disk = record { name = b'd' ∷ []; block_size = 0; block_count = 1000; ops = driver 3; flags = 0 }

abbrev part : Descriptor
part = record {
  name = b'd' ∷ b'p' ∷ b'1' ∷ [];
  block_size = 512;
  block_count = 50;
  ops = partition 0 100 50;
  flags = 2;
}

abbrev devices : List Device
devices = (register (register [] disk).1 part).1

runs :
    (find devices part.name ≡ some 1)
    × ((register devices part).0 ≡ failure)
    × ((unregister devices part.name).1 ≡ (register [] disk).1)
    × (enumerate devices 9 ≡ 2)
unfolding register unregister find find_index str_equals new_device enumerate
runs = (refl, refl, refl, refl)

-- The first block, a block behind the end, and the block in front of the partition
accesses :
    (access 2 devices 1 0 1 ≡ some (asked 3 100 1))
    × (access 2 devices 1 50 1 ≡ some refused)
    × (access 2 devices 1 (2 ^ 64 - 1) 1 ≡ some (asked 3 99 1))
unfolding register find find_index str_equals new_device access op_guard
accesses = (refl, refl, refl)

-- Two names with the same first 31 bytes: both devices are stored under the same name, and the name that was given
-- finds neither.
abbrev long_name : List ℕ
long_name = replicate 32 b'x'

twins :
    ((register
        (register [] (record disk { name = long_name })).1
        (record disk { name = long_name })).0
      ≡ success)
    × (find (register [] (record disk { name = long_name })).1 long_name ≡ none)
unfolding register find find_index str_equals new_device
twins = (refl, refl)

access-Reaches_example : Reaches 3 100 50 7 2 (access 2 devices 1 7 2)
unfolding register find find_index str_equals new_device
access-Reaches_example =
    access-Reaches devices 1 0 3 100 50 7 2 0 refl refl (omega arith) (omega arith)
