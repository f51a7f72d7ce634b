-- ===== src/Vfs/Start.antt =====
-- kernel/vfs.c: `vfs_init`, over the volumes of kernel/ramfs.c, the files of kernel/devicefs.c and the
-- log files of kernel/klog.c.
pub mod Trees
pub mod Calls
pub mod Runs
pub mod Root
mod Tests
use mathlib.Core.Option
use pro_os.Prelude.{
  ℕ, Bool, true, false, Option, none, some, List, [], ◌∷◌, ◌++◌, map, if◌then◌else◌, get_or, set,
  replicate,
}
use pro_os.Prelude.Int.{ℤ, failure, success, is_negative}
use pro_os.Ramfs
use pro_os.Ramfs.{Volume}
use pro_os.Ramfs.Root.{root_init}
use pro_os.Klog.{Log}
use pro_os.Klog.Lines
use pro_os.Klog.Lines.{refresh, sink_path, system_path}
use pro_os.Vfs.Mounts.{Mount, Ops, no_mount, max_mounts, mount}
use pro_os.Vfs.Calls.{Vfs, no_alias, no_handle, max_aliases, max_open_files}
use pro_os.Vfs.Adapters.{volume, ramfs_ops}
use pro_os.Vfs.Keeping.{Call, mounting, writing, making, run_calls}
use pro_os.Vfs.Devices.{DataEntry, reset, devicefs_ops}
use pro_os.Vfs.Devices.Shown.{Sources}

-- The state of the file systems: the root volume and the volumes of "/System", "/Volumes", "/Users",
-- "/Apps" and "/Temp", in this order, and the table of devicefs.
pub record Files : Type 0 where
  pub volumes : List Volume
  pub entries : List DataEntry

-- The tables, with `root_initialized` and `mounts_initialized`
pub record Kernel : Type 0 where
  pub vfs : Vfs Files
  pub root_initialized : Bool
  pub mounts_initialized : Bool

-- The operations of a file system that keeps a part of the state.
abbrev pub change_volumes : Files → ℤ × List Volume → ℤ × Files
change_volumes s (code, vs) = (code, record s { volumes = vs })

abbrev pub change_entries : Files → ℤ × List DataEntry → ℤ × Files
change_entries s (code, es) = (code, record s { entries = es })

unfoldable pub on_volumes : Ops (List Volume) → Ops Files
on_volumes ops = record {
  list = Option.map (λ f s. f s.volumes) ops.list;
  read = Option.map (λ f s. f s.volumes) ops.read;
  write =
      Option.map (λ f s rel bytes replace. change_volumes s (f s.volumes rel bytes replace))
        ops.write;
  remove = Option.map (λ f s rel. change_volumes s (f s.volumes rel)) ops.remove;
  mkdir = Option.map (λ f s rel. change_volumes s (f s.volumes rel)) ops.mkdir;
}

unfoldable pub on_entries : Ops (List DataEntry) → Ops Files
on_entries ops = record {
  list = Option.map (λ f s. f s.entries) ops.list;
  read = Option.map (λ f s. f s.entries) ops.read;
  write =
      Option.map (λ f s rel bytes replace. change_entries s (f s.entries rel bytes replace))
        ops.write;
  remove = Option.map (λ f s rel. change_entries s (f s.entries rel)) ops.remove;
  mkdir = Option.map (λ f s rel. change_entries s (f s.entries rel)) ops.mkdir;
}

-- `ramfs_ops` with the volume at a place, and `devicefs_ops`
unfoldable pub ram : ℕ → Ops Files
ram k = on_volumes (ramfs_ops k)

unfoldable pub devices : Sources → Ops Files
devices src = on_entries (devicefs_ops src)

-- `add_root_directory`: a file stands where a directory cannot be made.
unfoldable pub add_root_directory : Volume → List ℕ → Volume
add_root_directory v name =
    let (code, w) = Ramfs.mkdir v name in
    if is_negative code then (Ramfs.write w name none 0).1 else w

-- "System", "Volumes", "Users", "Apps", "Temp" and "Devices"
abbrev pub top_level : List (List ℕ)
top_level =
    (b'S' ∷ b'y' ∷ b's' ∷ b't' ∷ b'e' ∷ b'm' ∷ [])
    ∷ (b'V' ∷ b'o' ∷ b'l' ∷ b'u' ∷ b'm' ∷ b'e' ∷ b's' ∷ [])
    ∷ (b'U' ∷ b's' ∷ b'e' ∷ b'r' ∷ b's' ∷ [])
    ∷ (b'A' ∷ b'p' ∷ b'p' ∷ b's' ∷ [])
    ∷ (b'T' ∷ b'e' ∷ b'm' ∷ b'p' ∷ [])
    ∷ (b'D' ∷ b'e' ∷ b'v' ∷ b'i' ∷ b'c' ∷ b'e' ∷ b's' ∷ [])
    ∷ []

-- The directories of the root volume
unfoldable pub add_directories : List (List ℕ) → Volume → Volume
add_directories [] v = v
add_directories (name ∷ names) v = add_directories names (add_root_directory v name)

-- The root volume gets its directories, and the others are emptied.
unfoldable pub prepare_volumes : List Volume → List Volume
prepare_volumes [] = []
prepare_volumes (root ∷ vs) = add_directories top_level root ∷ map Ramfs.init vs

-- A path at the root: "/" and a name
abbrev pub at_root : List ℕ → List ℕ
at_root name = b'/' ∷ name

-- "version", "meminfo", "Null" and "proOS kernel/0.5" with a newline
abbrev pub version_path : List ℕ
version_path = system_path ++ b'/' ∷ b'v' ∷ b'e' ∷ b'r' ∷ b's' ∷ b'i' ∷ b'o' ∷ b'n' ∷ []

abbrev pub meminfo_path : List ℕ
meminfo_path = system_path ++ b'/' ∷ b'm' ∷ b'e' ∷ b'm' ∷ b'i' ∷ b'n' ∷ b'f' ∷ b'o' ∷ []

abbrev pub null_path : List ℕ
null_path =
    b'/' ∷ b'D' ∷ b'e' ∷ b'v' ∷ b'i' ∷ b'c' ∷ b'e' ∷ b's' ∷ b'/' ∷ b'N' ∷ b'u' ∷ b'l' ∷ b'l' ∷ []

abbrev pub version : List ℕ
version =
    b'p' ∷ b'r' ∷ b'o' ∷ b'O' ∷ b'S' ∷ 32 ∷ b'k' ∷ b'e' ∷ b'r' ∷ b'n' ∷ b'e' ∷ b'l' ∷ b'/' ∷ b'0'
    ∷ b'.' ∷ b'5' ∷ 10 ∷ []

-- A call of the log on its files. Emptying a file passes no data.
unfoldable pub of_log : Lines.Call → Call Files
of_log (Lines.make path) = making path
of_log (Lines.clear sink) = writing (sink_path sink) [] true
of_log (Lines.append sink text) = writing (sink_path sink) text false

-- The mounts of `vfs_prepare_virtual_fs`, with that of `devicefs_mount`
unfoldable pub mount_calls : Sources → List (Call Files)
mount_calls src =
    mounting (at_root (b'S' ∷ b'y' ∷ b's' ∷ b't' ∷ b'e' ∷ b'm' ∷ [])) (ram 1)
    ∷ mounting (at_root (b'V' ∷ b'o' ∷ b'l' ∷ b'u' ∷ b'm' ∷ b'e' ∷ b's' ∷ [])) (ram 2)
    ∷ mounting (at_root (b'U' ∷ b's' ∷ b'e' ∷ b'r' ∷ b's' ∷ [])) (ram 3)
    ∷ mounting (at_root (b'A' ∷ b'p' ∷ b'p' ∷ b's' ∷ [])) (ram 4)
    ∷ mounting (at_root (b'T' ∷ b'e' ∷ b'm' ∷ b'p' ∷ [])) (ram 5)
    ∷ mounting (at_root (b'D' ∷ b'e' ∷ b'v' ∷ b'i' ∷ b'c' ∷ b'e' ∷ b's' ∷ [])) (devices src)
    ∷ []

-- The files that are written at the start: `klog_enable_proc_sink` writes the log files, and
-- `debug_publish_memory_info` the text `meminfo`.
unfoldable pub file_calls : Log → List ℕ → List (Call Files)
file_calls log meminfo =
    writing version_path version true ∷ writing null_path [] true ∷ map of_log (refresh false log)
    ++ writing meminfo_path meminfo true ∷ []

-- `vfs_prepare_virtual_fs`
unfoldable pub prepare_virtual_fs : Sources → Log → List ℕ → Vfs Files → Vfs Files
prepare_virtual_fs src log meminfo v =
    run_calls (mount_calls src ++ file_calls log meminfo)
      (record v { files = record { volumes = prepare_volumes v.files.volumes; entries = reset } })

-- The root volume after `ramfs_init`, at the first place of the volumes
unfoldable pub init_root : Bool → List Volume → List Volume
init_root initialized vs =
    set vs 0 (root_init (record { volume = volume vs 0; initialized = initialized })).volume

-- The tables that `vfs_init` starts with: no mount, and the root volume initialised.
unfoldable pub emptied : Kernel → Vfs Files
emptied k = record k.vfs {
  mounts = replicate max_mounts no_mount;
  files = record k.vfs.files { volumes = init_root k.root_initialized k.vfs.files.volumes };
}

mounted_root : Sources → Log → List ℕ → Vfs Files → ℤ × List (Mount Files) → ℤ × Kernel
mounted_root src log meminfo v (code, ms) =
    if is_negative code
    then (failure, record { vfs = v; root_initialized = true; mounts_initialized = false })
    else (
      success,
      record {
        vfs = prepare_virtual_fs src log meminfo (record v {
          mounts = ms;
          aliases = replicate max_aliases no_alias;
          handles = replicate max_open_files no_handle;
        });
        root_initialized = true;
        mounts_initialized = true;
      },
    )

-- `vfs_init`, with the log that is written to its files and the text of the memory statistics
unfoldable pub init : Sources → Log → List ℕ → Kernel → ℤ × Kernel
unfolding mounted_root
init src log meminfo k =
    if k.mounts_initialized
    then (success, k)
    else mounted_root src log meminfo (emptied k) (mount (at_root []) (ram 0) (emptied k).mounts)
