-- ===== src/Vfs/Start/Tests.antt =====
-- Runs of kernel/vfs.c's `vfs_init` and of kernel/devicefs.c, and their theorems at concrete states.
use pro_os.Prelude.{
  ℕ, ◌-◌, ◌≡◌, ◌⊎◌, ◌↔◌, refl, true, false, none, List, [], ◌∷◌, arith, min, length, replicate,
  take,
}
use pro_os.Prelude.Arrays.{All-replicate}
use pro_os.Prelude.Int.{pos, failure, success}
use pro_os.Ramfs.{Volume, max_files, no_entry}
use pro_os.Ramfs.Files.Calls.{get_or-blank}
use pro_os.Klog.{Log, no_module, max_modules}
use pro_os.Vfs.{max_path, normalize}
use pro_os.Vfs.Calls.{no_alias, no_handle, max_aliases, max_open_files, apply_alias, lookup}
use pro_os.Vfs.Keeping.{Call, linking, opening, writing, removing, making, run_calls}
use pro_os.Vfs.Devices.{
  data_cap, reset, kind_of, names_equal, find_alias, find_data, list_names, used_names,
  list_devices, write_device,
}
use pro_os.Vfs.Devices.Shown.{Sources}
use pro_os.Vfs.Devices.Entries.{Shows, write_device_lem}
use pro_os.Vfs.Start.{Files, Kernel, init}
use pro_os.Vfs.Start.Trees.{AllTrees}
use pro_os.Vfs.Start.Calls.{IsRoomy}
use pro_os.Vfs.Start.Runs.{init-AllTrees}
use pro_os.Vfs.Start.Root.{init-lookup-none}

abbrev src : Sources
src = record { keyboard_read = none; mouse_read = none; disks = []; volumes = [] }

abbrev log : Log
log = record {
  buffer = [];
  count = 0;
  head = 0;
  sequence = 0;
  level = 1;
  ready = true;
  modules = replicate max_modules no_module;
}

abbrev raw : Volume
raw = replicate max_files no_entry

-- The kernel's arrays before `vfs_init`
abbrev kernel : Kernel
kernel = record {
  vfs = record {
    mounts = [];
    aliases = replicate max_aliases no_alias;
    handles = replicate max_open_files no_handle;
    files = record { volumes = replicate 6 raw; entries = [] };
  };
  root_initialized = false;
  mounts_initialized = false;
}

-- "/Temp/a", "/t" and "hi"
abbrev path : List ℕ
path = 47 ∷ 84 ∷ 101 ∷ 109 ∷ 112 ∷ 47 ∷ 97 ∷ []

abbrev short : List ℕ
short = 47 ∷ 116 ∷ []

abbrev text : List ℕ
text = 104 ∷ 105 ∷ []

abbrev calls : List (Call Files)
calls =
    linking short path ∷ making path ∷ writing short text true ∷ opening path ∷ removing path ∷ []

raw-IsRoomy : IsRoomy raw
raw-IsRoomy = (refl, get_or-blank max_files)

init-AllTrees_example :
    let (code, k') = init src log text kernel in
    (code ≡ success) × AllTrees (run_calls calls k'.vfs).files
init-AllTrees_example =
    init-AllTrees src log text kernel calls refl refl (All-replicate IsRoomy 6 raw raw-IsRoomy)
      (omega arith) (omega arith)

init-lookup-none_example :
    let v = run_calls calls (init src log text kernel).1.vfs in
    (lookup path v ≡ none) ↔ (normalize max_path (apply_alias path v.aliases) ≡ none)
init-lookup-none_example = init-lookup-none src log text kernel calls path refl

-- The listing of "/Devices" at the start: "Keyboard", "Mouse", "Disk0" and "Null"
listed : list_devices reset [] 64 ≡ (
  pos 25,
  b'K' ∷ b'e' ∷ b'y' ∷ b'b' ∷ b'o' ∷ b'a' ∷ b'r' ∷ b'd' ∷ 10 ∷ b'M' ∷ b'o' ∷ b'u' ∷ b's' ∷ b'e' ∷ 10
      ∷ b'D' ∷ b'i' ∷ b's' ∷ b'k' ∷ b'0' ∷ 10 ∷ b'N' ∷ b'u' ∷ b'l' ∷ b'l' ∷ [],
)
unfolding list_devices list_names used_names
listed = refl

-- "log" in devicefs
abbrev log_name : List ℕ
log_name = 108 ∷ 111 ∷ 103 ∷ []

log_name_plain : find_alias log_name ≡ none
unfolding find_alias kind_of names_equal
log_name_plain = refl

write_device_lem_example :
    let (code, after) = write_device reset log_name text true in
    ((code ≡ failure) × (after ≡ reset) × (find_data reset log_name ≡ none))
    ⊎ ((code ≡ pos (min (length text) (data_cap - 1)))
        × Shows src log_name reset (take (min (length text) (data_cap - 1)) text) after)
write_device_lem_example =
    write_device_lem src reset log_name text (ground arith) (omega arith) log_name_plain
