-- ===== src/Vfs/Start/Calls.antt =====
-- kernel/vfs.c: what `vfs_init` does, for its tables and its volumes.
use pro_os.Prelude.{
  ℕ, suc, ◌^◌, ◌<◌, ◌≡◌, refl, ap, Bool, true, false, inl, inr, List, [], ◌∷◌, ◌++◌, map, arith,
  length, Bool-cases,
}
use pro_os.Prelude.Arrays.{All, All-append}
use pro_os.Prelude.Int.{is_negative}
use pro_os.Ramfs
use pro_os.Ramfs.{Volume, max_files, max_file_size}
use pro_os.Ramfs.Root.{root_init, root_volume}
use pro_os.Ramfs.Text.{IsText}
use pro_os.Ramfs.Tree.{IsTree, at}
use pro_os.Ramfs.Files.Calls.{init-IsTree, write-none-IsTree, mkdir-IsTree}
use pro_os.Klog.{Entry, Log, capacity, copy_entries}
use pro_os.Klog.Names.{Sink, kernel, net, ipc, classify_sink}
use pro_os.Klog.Lines.{length-line, write_lines, refresh, ensure_logs_directory, sink_path}
use pro_os.Vfs.Keeping.{writing}
use pro_os.Vfs.Keeping.Steps.{IsGiven, AllGiven}
use pro_os.Vfs.Devices.{reset}
use pro_os.Vfs.Devices.Shown.{Sources}
use pro_os.Vfs.Start.{
  add_root_directory, top_level, add_directories, prepare_volumes, meminfo_path, of_log,
  mount_calls, file_calls, init_root,
}
use pro_os.Vfs.Start.Trees.{AllTrees, ram-Keeps, devices-Keeps}

-- A volume's arrays have their sizes, whatever is in them.
abbrev pub IsRoomy : Volume → Type 0
IsRoomy v = (length v ≡ max_files) × ((i : ℕ) → length (at v i).bytes ≡ max_file_size)

roomy-IsTree : (v : Volume) → IsRoomy v → IsTree (Ramfs.init v)
roomy-IsTree v r = init-IsTree v r.0 r.1

tree_room : (v : Volume) → IsTree v → IsRoomy v
tree_room v t = (t.room, λ i. (t.sound i).room)

root_init-IsTree :
    (initialized : Bool) (v : Volume)
    → IsRoomy v
    → IsTree (root_init (record { volume = v; initialized = initialized })).volume
unfolding root_init root_volume
root_init-IsTree true v r = roomy-IsTree v r
root_init-IsTree false v r =
    roomy-IsTree (Ramfs.init v) (tree_room (Ramfs.init v) (roomy-IsTree v r))

add_root_directory-IsTree :
    (v : Volume) (name : List ℕ) → IsTree v → IsText name → IsTree (add_root_directory v name)
unfolding add_root_directory
add_root_directory-IsTree v name t text =
    let made : IsTree (Ramfs.mkdir v name).1 = mkdir-IsTree v name t text in
    elim (Bool-cases (is_negative (Ramfs.mkdir v name).0)) [
      | inl bad ↦ rw bad (write-none-IsTree (Ramfs.mkdir v name).1 name 0 made text)
      | inr good ↦ rw good made
    ]

add_directories-IsTree :
    (names : List (List ℕ)) (v : Volume)
    → IsTree v
    → All IsText names
    → IsTree (add_directories names v)
unfolding add_directories
add_directories-IsTree [] v t h = t
add_directories-IsTree (name ∷ names) v t h =
    add_directories-IsTree names (add_root_directory v name)
      (add_root_directory-IsTree v name t h.0) h.1

init_all : (vs : List Volume) → All IsRoomy vs → All IsTree (map Ramfs.init vs)
init_all [] h = tt
init_all (v ∷ vs) h = (roomy-IsTree v h.0, init_all vs h.1)

length-init_all : (vs : List Volume) → length (map Ramfs.init vs) ≡ length vs
length-init_all [] = refl
length-init_all (v ∷ vs) = ap suc (length-init_all vs)

-- The volumes at the start
pub prepared :
    (initialized : Bool) (vs : List Volume)
    → length vs ≡ 6
    → All IsRoomy vs
    → AllTrees (record { volumes = prepare_volumes (init_root initialized vs); entries = reset })
unfolding prepare_volumes init_root
prepared initialized [] l r = absurd (omega arith)
prepared initialized (v ∷ vs) l r = (
  omega (arith, length-init_all vs),
  (
    add_directories-IsTree top_level _ (root_init-IsTree initialized v r.0) top_level_texts,
    init_all vs r.1,
  ),
)
  where
    top_level_texts : All IsText top_level
    top_level_texts = omega arith

sink_path-IsText : (sink : Sink) → IsText (sink_path sink)
unfolding sink_path
sink_path-IsText kernel = omega arith
sink_path-IsText net = omega arith
sink_path-IsText ipc = omega arith

lines-AllGiven : (es : List Entry) → AllGiven AllTrees (map of_log (write_lines es))
unfolding write_lines of_log
lines-AllGiven [] = tt
lines-AllGiven (e ∷ es) =
    let sink : Sink = classify_sink e.tag e.text in
    (
      (sink_path-IsText sink, omega (arith, length-line e)),
      ((sink_path-IsText sink, omega arith), lines-AllGiven es),
    )

refresh-AllGiven : (log : Log) → AllGiven AllTrees (map of_log (refresh false log))
unfolding refresh ensure_logs_directory of_log
refresh-AllGiven log = (
  omega arith,
  (
    omega arith,
    (
      (sink_path-IsText kernel, omega arith),
      (
        (sink_path-IsText net, omega arith),
        ((sink_path-IsText ipc, omega arith), lines-AllGiven (copy_entries capacity log)),
      ),
    ),
  ),
)

pub start-AllGiven :
    (src : Sources) (log : Log) (meminfo : List ℕ)
    → length meminfo < 2 ^ 31
    → AllGiven AllTrees (mount_calls src ++ file_calls log meminfo)
unfolding mount_calls file_calls
start-AllGiven src log meminfo h = (
  ram-Keeps 1 (omega arith),
  (
    ram-Keeps 2 (omega arith),
    (
      ram-Keeps 3 (omega arith),
      (
        ram-Keeps 4 (omega arith),
        (
          ram-Keeps 5 (omega arith),
          (
            devices-Keeps src,
            (
              (omega arith, omega arith),
              (
                (omega arith, omega arith),
                All-append (IsGiven AllTrees) (map of_log (refresh false log))
                    (writing meminfo_path meminfo true ∷ []) (refresh-AllGiven log)
                    ((omega arith, h), tt),
              ),
            ),
          ),
        ),
      ),
    ),
  ),
)
