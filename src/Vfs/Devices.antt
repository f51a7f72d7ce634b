-- ===== src/Vfs/Devices.antt =====
-- kernel/devicefs.c: the file system of the devices: four names with a meaning, and a table of small
-- files. What the drivers of the keyboard and the mouse answer is an argument.
pub mod Shown
pub mod Entries
use pro_os.Prelude.{
  ℕ, zero, suc, ◌+◌, ◌-◌, ◌%◌, ◌^◌, min, Bool, true, false, not, ◌&&◌, ◌||◌, Option, none, some,
  List, [], ◌∷◌, ◌++◌, map, ltb, leb, ◌==◌, if◌then◌else◌, length, get_or, set, take, replicate,
}
use pro_os.Prelude.Arrays.{find_index}
use pro_os.Prelude.Int.{ℤ, pos, negsuc, failure, success}
use pro_os.Blockdev
use pro_os.Blockdev.{Device, no_device}
use pro_os.Volmgr
use pro_os.Volmgr.{Volume, digits, reversed}
use pro_os.Vfs.Mounts.{Ops}
use pro_os.Vfs.Devices.Shown.{Sources, answer, disk_info, no_mouse, mouse_with, newline}

-- DEVICEFS_MAX_DATA, DEVICEFS_DATA_CAP and VFS_NODE_NAME_MAX
abbrev pub max_data : ℕ
max_data = 32

abbrev pub data_cap : ℕ
data_cap = 512

abbrev pub node_name_max : ℕ
node_name_max = 32

-- `enum devicefs_kind`
pub data Kind : Type 0 where
  keyboard : Kind
  mouse : Kind
  disk0 : Kind
  nothing : Kind

-- `alias_table`: "Keyboard", "Mouse", "Disk0" and "Null"
abbrev pub alias_table : List (List ℕ × Kind)
alias_table =
    (b'K' ∷ b'e' ∷ b'y' ∷ b'b' ∷ b'o' ∷ b'a' ∷ b'r' ∷ b'd' ∷ [], keyboard)
    ∷ (b'M' ∷ b'o' ∷ b'u' ∷ b's' ∷ b'e' ∷ [], mouse)
    ∷ (b'D' ∷ b'i' ∷ b's' ∷ b'k' ∷ b'0' ∷ [], disk0)
    ∷ (b'N' ∷ b'u' ∷ b'l' ∷ b'l' ∷ [], nothing)
    ∷ []

-- `struct devicefs_data_entry`, with the first `size` bytes of its array
pub record DataEntry : Type 0 where
  pub used : Bool
  pub name : List ℕ
  pub bytes : List ℕ

abbrev pub no_data : DataEntry
no_data = record { used = false; name = []; bytes = [] }

-- `names_equal`
unfoldable pub names_equal : List ℕ → List ℕ → Bool
names_equal [] [] = true
names_equal [] (b ∷ y) = false
names_equal (a ∷ x) [] = false
names_equal (a ∷ x) (b ∷ y) = (a == b) && names_equal x y

-- `find_alias`
unfoldable pub kind_of : List ℕ → List (List ℕ × Kind) → Option Kind
kind_of name [] = none
kind_of name ((alias, kind) ∷ table) =
    let rest = kind_of name table in if names_equal alias name then some kind else rest

unfoldable pub find_alias : List ℕ → Option Kind
find_alias name = kind_of name alias_table

-- `find_data_entry`
unfoldable pub find_data : List DataEntry → List ℕ → Option ℕ
find_data es name = find_index (λ e. e.used && names_equal e.name name) es

-- `copy_name`, and the entry that `allocate_data_entry` makes of a free one
abbrev pub new_data : List ℕ → DataEntry
new_data name = record { used = true; name = take (node_name_max - 1) name; bytes = [] }

allocate_at : List DataEntry → List ℕ → Option ℕ → Option ℕ × List DataEntry
allocate_at es name none = (none, es)
allocate_at es name (some i) = (some i, set es i (new_data name))

-- `allocate_data_entry`
unfoldable pub allocate : List DataEntry → List ℕ → Option ℕ × List DataEntry
unfolding allocate_at
allocate es name = allocate_at es name (find_index (λ e. not e.used) es)

-- `reset_data_entries`
abbrev pub reset : List DataEntry
reset = replicate max_data no_data

-- `read_alias`, into a buffer of `size` bytes
unfoldable pub read_alias : Sources → Kind → ℕ → ℤ × List ℕ
unfolding mouse_with no_mouse
read_alias src keyboard size = elim src.keyboard_read [
  | none ↦ (success, [])
  | some f ↦ answer (f size)
]
read_alias src mouse size = elim src.mouse_read [
  | none ↦ no_mouse size
  | some f ↦ mouse_with size (f size)
]
read_alias src disk0 size = disk_info src size
read_alias src nothing size = (success, [])

-- A size as an `int`, in words of 32 bits
abbrev pub to_int : ℕ → ℤ
to_int n = let w = n % 2 ^ 32 in if ltb w (2 ^ 31) then pos w else negsuc (2 ^ 32 - w - 1)

-- `write_alias`
unfoldable pub write_alias : Kind → ℕ → ℤ
write_alias keyboard n = failure
write_alias mouse n = failure
write_alias disk0 n = failure
write_alias nothing n = to_int n

-- A loop of `devicefs_list`: names and newlines while they fit.
unfoldable pub list_names : ℕ → List (List ℕ) → List ℕ → List ℕ
list_names size [] out = out
list_names size (name ∷ names) out =
    let rest = list_names size names (out ++ name ++ newline) in
    if leb (size - length out) (length name + 1) then out else rest

unfoldable pub used_names : List DataEntry → List (List ℕ)
used_names [] = []
used_names (e ∷ es) = let rest = used_names es in if e.used then e.name ∷ rest else rest

alias_names : List (List ℕ × Kind) → List (List ℕ)
alias_names = map (λ a. a.0)

-- `devicefs_list`: the last newline is cut off.
unfoldable pub list_devices : List DataEntry → List ℕ → ℕ → ℤ × List ℕ
unfolding alias_names
list_devices es path size =
    if (size == 0) || not (length path == 0)
    then (failure, [])
    else let out : List ℕ =
        list_names size (used_names es) (list_names size (alias_names alias_table) []) in
      answer (some (take (length out - 1) out))

-- What is read of an entry
abbrev pub contents_read : ℕ → DataEntry → ℤ × List ℕ
contents_read size e =
    answer (some (take (if leb size (length e.bytes) then size - 1 else length e.bytes) e.bytes))

unfoldable pub read_data : List DataEntry → ℕ → Option ℕ → ℤ × List ℕ
read_data es size none = (failure, [])
read_data es size (some i) = contents_read size (get_or es i no_data)

read_kind : Sources → List DataEntry → List ℕ → ℕ → Option Kind → ℤ × List ℕ
read_kind src es path size (some kind) = read_alias src kind size
read_kind src es path size none = read_data es size (find_data es path)

-- `devicefs_read`
unfoldable pub read_device : Sources → List DataEntry → List ℕ → ℕ → ℤ × List ℕ
unfolding read_kind read_data
read_device src es path size =
    if (length path == 0) || (size == 0)
    then (failure, [])
    else read_kind src es path size (find_alias path)

-- The end of `devicefs_write`: the entry is emptied first if `replace`, and takes what has room.
unfoldable pub write_entry : DataEntry → List ℕ → Bool → ℤ × DataEntry
write_entry e bytes replace =
    let kept : List ℕ = if replace then [] else e.bytes in
    let kept' : List ℕ = take (data_cap - 1) kept in
    let to_copy = min (length bytes) (data_cap - 1 - length kept') in
    if length bytes == 0
    then (success, record e { bytes = kept })
    else (pos to_copy, record e { bytes = kept' ++ take to_copy bytes })

unfoldable pub write_found : List DataEntry → List ℕ → Bool → Option ℕ → ℤ × List DataEntry
write_found es bytes replace none = (failure, es)
write_found es bytes replace (some i) =
    let (code, e) = write_entry (get_or es i no_data) bytes replace in (code, set es i e)

-- The entry of the name, or a new one
unfoldable pub own_or_new : List DataEntry → List ℕ → Option ℕ → Option ℕ × List DataEntry
own_or_new es name (some i) = (some i, es)
own_or_new es name none = allocate es name

write_kind : List DataEntry → List ℕ → List ℕ → Bool → Option Kind → ℤ × List DataEntry
write_kind es path bytes replace (some kind) = (write_alias kind (length bytes), es)
write_kind es path bytes replace none =
    let (found, es') = own_or_new es path (find_data es path) in write_found es' bytes replace found

-- `devicefs_write`, its data not NULL
unfoldable pub write_device : List DataEntry → List ℕ → List ℕ → Bool → ℤ × List DataEntry
unfolding write_kind write_found
write_device es path bytes replace =
    if length path == 0 then (failure, es) else write_kind es path bytes replace (find_alias path)

remove_data : List DataEntry → Option ℕ → ℤ × List DataEntry
remove_data es none = (failure, es)
remove_data es (some i) = (success, set es i no_data)

remove_kind : List DataEntry → List ℕ → Option Kind → ℤ × List DataEntry
remove_kind es path (some kind) = (failure, es)
remove_kind es path none = remove_data es (find_data es path)

-- `devicefs_remove`
unfoldable pub remove_device : List DataEntry → List ℕ → ℤ × List DataEntry
unfolding remove_kind remove_data
remove_device es path =
    if length path == 0 then (failure, es) else remove_kind es path (find_alias path)

-- `devicefs_ops`; `devicefs_mkdir` always fails.
unfoldable pub devicefs_ops : Sources → Ops (List DataEntry)
devicefs_ops src = record {
  list = some list_devices;
  read = some (read_device src);
  write = some write_device;
  remove = some remove_device;
  mkdir = some (λ es path. (failure, es));
}
