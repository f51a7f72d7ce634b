-- ===== src/Vfs/Start/Runs.antt =====
-- kernel/vfs.c: every run of the kernel's file system, from `vfs_init` on.
use pro_os.Prelude.{
  ℕ, ◌^◌, ◌<◌, ◌≡◌, refl, true, false, some, List, [], ◌∷◌, ◌++◌, arith, length, replicate,
}
use pro_os.Prelude.Arrays.{All, All-replicate, find_index}
use pro_os.Prelude.Int.{success}
use pro_os.Ramfs.Text.{IsText}
use pro_os.Klog.{Log}
use pro_os.Vfs.{segment, split, walk, written, normalize}
use pro_os.Vfs.Mounts.{Mount, no_mount, max_mounts, is_point, mount}
use pro_os.Vfs.Calls.{Alias, Handle, Vfs, no_alias, no_handle, max_aliases, max_open_files}
use pro_os.Vfs.Keeping.{AllKeep, IsSound, Call, run_calls}
use pro_os.Vfs.Keeping.Steps.{AllGiven, run_calls-IsSound}
use pro_os.Vfs.Devices.{reset}
use pro_os.Vfs.Devices.Shown.{Sources}
use pro_os.Vfs.Start.{
  Files, Kernel, ram, prepare_volumes, mount_calls, file_calls, prepare_virtual_fs, emptied,
  at_root, init,
}
use pro_os.Vfs.Start.Trees.{AllTrees, ram-Keeps}
use pro_os.Vfs.Start.Calls.{IsRoomy, prepared, start-AllGiven}

-- The table with the root volume's mount alone
abbrev pub root_alone : List (Mount Files)
root_alone =
    record { used = true; mount_point = 47 ∷ []; prefix_len = 1; ops = some (ram 0) }
    ∷ replicate 7 no_mount

pub mount-root : mount (at_root []) (ram 0) (replicate max_mounts no_mount) ≡ (success, root_alone)
unfolding mount normalize split segment walk written find_index is_point
mount-root = refl

prepare-IsSound :
    (src : Sources) (log : Log) (meminfo : List ℕ) (v : Vfs Files)
    → length meminfo < 2 ^ 31
    → AllTrees (record { volumes = prepare_volumes v.files.volumes; entries = reset })
    → v.mounts ≡ root_alone
    → v.aliases ≡ replicate max_aliases no_alias
    → v.handles ≡ replicate max_open_files no_handle
    → IsSound AllTrees (prepare_virtual_fs src log meminfo v)
unfolding prepare_virtual_fs
prepare-IsSound src log meminfo v h t m a o =
    run_calls-IsSound AllTrees (mount_calls src ++ file_calls log meminfo) _
      (start-AllGiven src log meminfo h)
      (record {
        files = t;
        mounts = rw m (
          ram-Keeps 0 (omega arith),
          All-replicate (λ (x : Mount Files). AllKeep AllTrees x.ops) 7 no_mount tt,
        );
        aliases = rw a (All-replicate (λ (x : Alias). IsText x.target) max_aliases no_alias tt);
        handles =
            rw o (All-replicate (λ (x : Handle). IsText x.relative) max_open_files no_handle tt);
      })

-- The first `vfs_init`, on six volumes whose arrays have their sizes, succeeds whatever they hold, if
-- the text of the memory statistics is below 2 GiB. After any calls on the result, whose paths have no
-- terminator inside and whose data are below 2 GiB, mounts of file systems that keep the volumes trees
-- included, every one of the six volumes is a tree.
pub init-AllTrees :
    (src : Sources) (log : Log) (meminfo : List ℕ) (k : Kernel) (cs : List (Call Files))
    → k.mounts_initialized ≡ false
    → length k.vfs.files.volumes ≡ 6
    → All IsRoomy k.vfs.files.volumes
    → length meminfo < 2 ^ 31
    → AllGiven AllTrees cs
    → let (code, k') = init src log meminfo k in
      (code ≡ success) × AllTrees (run_calls cs k'.vfs).files
unfolding init emptied
init-AllTrees src log meminfo k cs fresh six roomy small given =
    rw (fresh, mount-root)
      (
        refl,
        (run_calls-IsSound AllTrees cs _ given (
            prepare-IsSound src log meminfo _ small
              (prepared k.root_initialized k.vfs.files.volumes six roomy) refl refl refl)).files,
      )
