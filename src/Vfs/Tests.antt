-- ===== src/Vfs/Tests.antt =====
-- Runs of kernel/vfs.c, and its theorems at concrete paths, mounts and files.
use pro_os.Prelude.{
  ℕ, ◌-◌, ◌<◌, ◌≡◌, ◌⊎◌, refl, true, false, none, some, List, [], ◌∷◌, arith, min, length, get_or,
  replicate, take,
}
use pro_os.Prelude.Arrays.{All, find_index}
use pro_os.Prelude.Int.{pos, failure}
use pro_os.Ramfs.{Volume, max_file_size}
use pro_os.Ramfs.Text.{IsText}
use pro_os.Ramfs.Files.Calls.{blank, blank-IsTree}
use pro_os.Vfs.{segment, split, step, walk, onto, build, written, normalize, is_dot, is_dot_dot}
use pro_os.Vfs.Normal.{IsNormal, normalize-IsNormal}
use pro_os.Vfs.Mounts.{
  scan, is_longer, ends_at, Mount, no_mount, same_front, serves, relative_of, resolve,
}
use pro_os.Vfs.Mounts.Longest.{NoLonger, resolve_lem}
use pro_os.Vfs.Calls.{
  is_alias_of, Vfs, no_alias, no_handle, max_aliases, max_open_files, lookup, ops_at, apply_alias,
  read_path, write_file,
}
use pro_os.Vfs.Calls.Handles.{ActsAs, open_file, open_file_lem}
use pro_os.Vfs.Adapters.{ramfs_ops, write-read}

-- "/Temp/./a/../log" and "/Temp/log"
abbrev winding : List ℕ
winding = 47 ∷ 84 ∷ 101 ∷ 109 ∷ 112 ∷ 47 ∷ 46 ∷ 47 ∷ 97 ∷ 47 ∷ 46 ∷ 46 ∷ 47 ∷ 108 ∷ 111 ∷ 103 ∷ []

abbrev straight : List ℕ
straight = 47 ∷ 84 ∷ 101 ∷ 109 ∷ 112 ∷ 47 ∷ 108 ∷ 111 ∷ 103 ∷ []

-- "/Temp" and "log"
abbrev temp : List ℕ
temp = 47 ∷ 84 ∷ 101 ∷ 109 ∷ 112 ∷ []

abbrev log_name : List ℕ
log_name = 108 ∷ 111 ∷ 103 ∷ []

abbrev text : List ℕ
text = 104 ∷ 105 ∷ []

straightened : normalize 128 winding ≡ some straight
unfolding normalize split segment walk step is_dot is_dot_dot onto build written
straightened = refl

abbrev root : Mount (List Volume)
root = record { used = true; mount_point = 47 ∷ []; prefix_len = 1; ops = some (ramfs_ops 0) }

abbrev temp_mount : Mount (List Volume)
temp_mount = record { used = true; mount_point = temp; prefix_len = 5; ops = some (ramfs_ops 1) }

abbrev vfs : Vfs (List Volume)
vfs = record {
  mounts = root ∷ temp_mount ∷ replicate 6 no_mount;
  aliases = replicate max_aliases no_alias;
  handles = replicate max_open_files no_handle;
  files = blank ∷ blank ∷ [];
}

log_name-IsText : IsText log_name
log_name-IsText = (omega arith, (omega arith, (omega arith, tt)))

aliases_none : find_index (is_alias_of straight) (replicate max_aliases no_alias) ≡ none
unfolding find_index is_alias_of
aliases_none = refl

straight_kept : normalize 128 straight ≡ some straight
unfolding normalize split segment walk step is_dot is_dot_dot onto build written
straight_kept = refl

straight_resolved : resolve straight vfs.mounts ≡ some (1, log_name)
unfolding resolve scan serves is_longer relative_of same_front ends_at
straight_resolved = refl

straight-lookup : lookup straight vfs ≡ some (1, log_name)
unfolding lookup apply_alias
straight-lookup = rw aliases_none (rw straight_kept straight_resolved)

temp_ops : ops_at vfs 1 ≡ some (ramfs_ops 1)
unfolding ops_at
temp_ops = refl

normalize-IsNormal_example : IsNormal 128 straight
normalize-IsNormal_example = normalize-IsNormal 128 winding straight straightened

resolve_lem_example :
    ((resolve straight vfs.mounts ≡ none) × All (λ m. serves straight m ≡ false) vfs.mounts)
    ⊎ ((j : ℕ) × (resolve straight vfs.mounts
          ≡ some (j, relative_of (get_or vfs.mounts j no_mount).prefix_len straight))
        × (j < length vfs.mounts)
        × (serves straight (get_or vfs.mounts j no_mount) ≡ true)
        × NoLonger straight (get_or vfs.mounts j no_mount).prefix_len vfs.mounts)
resolve_lem_example = resolve_lem straight vfs.mounts

open_file_lem_example :
    let (code, v') = open_file straight vfs in
    (code ≡ failure)
    ⊎ ((fd : ℕ) × (code ≡ pos fd) × (fd < max_open_files) × ActsAs straight vfs fd v')
open_file_lem_example = open_file_lem straight vfs refl

write-read_example :
    let (code, v') = write_file straight text vfs in
    ((code ≡ failure) × (v' ≡ vfs))
    ⊎ ((code ≡ pos (min (length text) (max_file_size - 1)))
        × ((read_path straight max_file_size v').1
            ≡ take (min (length text) (max_file_size - 1)) text))
write-read_example =
    write-read straight log_name text 1 1 vfs straight-lookup temp_ops (omega arith) refl
      blank-IsTree log_name-IsText
