-- ===== src/Ramfs/Tests.antt =====
-- Runs of kernel/ramfs.c, and its theorems at concrete volumes.
use pro_os.Prelude.{ℕ, ◌≡◌, refl, false, none, some, List, [], ◌∷◌, ◌++◌, arith, replicate}
use pro_os.Prelude.Int.{pos, failure, success}
use pro_os.Prelude.Arrays.{find_index}
use pro_os.Prelude.Blocks.{copy}
use pro_os.Ramfs.{
  Volume, no_entry, max_files, slash, str_cmp, starts_with, path_is_valid, find_entry, last_slash,
  has_parent, new_entry, create_new, create_entry, empty, free, init, read, extended, append,
  overwritten, write, below, free_below, remove, mkdir, has_slash, child_of, line, list_from,
  listable, list, difference,
}
use pro_os.Ramfs.Root.{
  Root, root_volume, on_root, root_init, root_list, root_read, root_write, root_write_file,
  root_remove, root_mkdir,
}
use pro_os.Ramfs.Text.{IsText}
use pro_os.Ramfs.Tree.{IsTree}
use pro_os.Ramfs.Tree.Remove.{Removes, remove_lem}
use pro_os.Ramfs.Files.Writes.{Writes, write_lem}
use pro_os.Ramfs.Files.Appends.{Appends, append_lem}
use pro_os.Ramfs.Files.Calls.{
  Call, appending, writing, making, run_call, run_calls, blank, blank-IsTree, calls-IsTree,
  run_calls-IsTree, get_or-blank,
}

-- The paths "d" and "d/f", and the text "hi".
abbrev dir : List ℕ
dir = b'd' ∷ []

abbrev file : List ℕ
file = b'd' ∷ slash ∷ b'f' ∷ []

abbrev hi : List ℕ
hi = b'h' ∷ b'i' ∷ []

abbrev calls : List Call
calls = making dir ∷ writing file (some hi) 2 ∷ appending file hi 2 ∷ []

abbrev filled : Volume
filled = run_calls calls blank

dir-IsText : IsText dir
dir-IsText = (omega arith, tt)

file-IsText : IsText file
file-IsText = (omega arith, (omega arith, (omega arith, tt)))

filled-IsTree : IsTree filled
filled-IsTree =
    calls-IsTree calls blank
      (dir-IsText, ((file-IsText, omega arith), ((file-IsText, omega arith, omega arith), tt)))
      blank-IsTree

read-filled : read filled file 64 ≡ (pos 4, hi ++ hi)
unfolding init no_entry free run_call run_calls mkdir write append create_entry create_new new_entry
    path_is_valid find_entry find_index str_cmp difference last_slash has_parent empty overwritten
    extended copy read
read-filled = refl

list-filled :
    (list filled [] 64 ≡ (pos 2, dir ++ slash ∷ [])) × (list filled dir 64 ≡ (pos 1, b'f' ∷ []))
unfolding init no_entry free run_call run_calls mkdir write append create_entry create_new new_entry
    path_is_valid find_entry find_index str_cmp difference last_slash has_parent empty overwritten
    extended copy list listable list_from line child_of below starts_with has_slash
list-filled = (refl, refl)

-- The file goes with its directory.
removed : find_entry (remove filled dir).1 file ≡ none
unfolding init no_entry free run_call run_calls mkdir write append create_entry create_new new_entry
    path_is_valid find_entry find_index str_cmp difference last_slash has_parent empty overwritten
    extended copy remove free_below below starts_with
removed = refl

-- A file that is too long is not written, but stands in the volume.
left : find_entry (append blank dir (replicate 1024 b'x') 1024).1 dir ≡ some 0
unfolding init no_entry free append create_entry create_new new_entry path_is_valid find_entry
    find_index str_cmp difference last_slash has_parent
left = refl

run_calls-IsTree_example : IsTree (run_calls calls (init (replicate max_files no_entry)))
run_calls-IsTree_example =
    run_calls-IsTree calls (replicate max_files no_entry) refl (get_or-blank max_files)
      (dir-IsText, ((file-IsText, omega arith), ((file-IsText, omega arith, omega arith), tt)))

remove_lem_example : IsTree (remove filled dir).1 × Removes filled dir (remove filled dir)
remove_lem_example = remove_lem filled dir filled-IsTree dir-IsText

write_lem_example :
    IsTree (write filled file (some hi) 2).1
    × Writes filled file hi 2 (write filled file (some hi) 2)
write_lem_example = write_lem filled file hi 2 filled-IsTree file-IsText (omega arith)

append_lem_example :
    IsTree (append filled file hi 2).1 × Appends filled file hi 2 (append filled file hi 2)
append_lem_example =
    append_lem filled file hi 2 filled-IsTree file-IsText (omega arith) (omega arith)

-- The root volume is initialised by the first call.
abbrev root : Root
root = record { volume = replicate max_files no_entry; initialized = false }

abbrev root_filled : Root
root_filled = (root_write file hi 2 (root_write_file file hi 2 (root_mkdir dir root).1).1).1

root_runs :
    ((root_read file 64 root_filled).0 ≡ (pos 4, hi ++ hi))
    × ((root_list 64 root_filled).0 ≡ (pos 2, dir ++ slash ∷ []))
    × ((root_remove dir root_filled).0 ≡ success)
    × ((root_read file 64 (root_init root_filled)).0 ≡ (failure, []))
unfolding init no_entry free mkdir write append create_entry create_new new_entry path_is_valid
    find_entry find_index str_cmp difference last_slash has_parent empty overwritten extended copy
    remove free_below below starts_with read list listable list_from line child_of has_slash
    root_volume on_root root_init root_list root_read root_write root_write_file root_remove
    root_mkdir
root_runs = (refl, refl, refl, refl)
