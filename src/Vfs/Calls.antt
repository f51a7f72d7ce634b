-- ===== src/Vfs/Calls.antt =====
-- kernel/vfs.c: aliases, open files, and the calls that pass a path to the file system that serves it.
pub mod Handles
pub mod Aliases
use pro_os.Prelude.{
  ℕ, zero, suc, ◌+◌, ◌-◌, Bool, true, false, not, ◌&&◌, ◌||◌, Option, none, some, List, [], ◌∷◌,
  ◌++◌, map, ltb, leb, ◌==◌, if◌then◌else◌, length, get_or, set, drop, replicate,
}
use pro_os.Prelude.Arrays.{find_index}
use pro_os.Prelude.Int.{ℤ, pos, negsuc, failure, success}
use pro_os.Vfs.{max_path, slash, normalize}
use pro_os.Vfs.Mounts.{Ops, Mount, no_mount, same_front, ends_at, resolve}

-- VFS_MAX_ALIASES and VFS_MAX_OPEN_FILES
abbrev pub max_aliases : ℕ
max_aliases = 8

abbrev pub max_open_files : ℕ
max_open_files = 32

-- `struct vfs_alias`: the arrays `from` and `to` are the fields `source` and `target`.
pub record Alias : Type 0 where
  pub used : Bool
  pub source : List ℕ
  pub from_len : ℕ
  pub target : List ℕ

-- `struct vfs_handle`: `mount` is the mount's place in the table, `none` for NULL.
pub record Handle : Type 0 where
  pub used : Bool
  pub mount : Option ℕ
  pub relative : List ℕ

abbrev pub no_handle : Handle
no_handle = record { used = false; mount = none; relative = [] }

abbrev pub no_alias : Alias
no_alias = record { used = false; source = []; from_len = 0; target = [] }

-- The tables, and the state of the file systems. (`root_mount` is written only.)
pub record Vfs (S : Type 0) : Type 0 where
  pub mounts : List (Mount S)
  pub aliases : List Alias
  pub handles : List Handle
  pub files : S

-- `apply_alias`: the tests of its loop, and the path that the alias makes.
unfoldable pub is_alias_of : List ℕ → Alias → Bool
is_alias_of path a =
    a.used
    && not (a.from_len == 0)
    && same_front path a.source a.from_len
    && ends_at path a.from_len

-- What stands behind the alias, without its slash.
unfoldable pub suffix_of : ℕ → List ℕ → List ℕ
suffix_of n path = if get_or path n 0 == slash then drop (suc n) path else drop n path

-- `extra_slash`: the text needs a slash behind it in front of a suffix.
unfoldable pub wants_slash : List ℕ → List ℕ → Bool
wants_slash target suffix =
    not (length suffix == 0)
    && not (length target == 0)
    && not (get_or target (length target - 1) 0 == slash)

unfoldable pub aliased : List ℕ → Alias → List ℕ
aliased path a =
    let suffix : List ℕ = suffix_of a.from_len path in
    let whole : List ℕ =
      a.target ++ (if wants_slash a.target suffix then slash ∷ suffix else suffix) in
    if leb max_path (length whole + 1) then path else whole

alias_at : List ℕ → List Alias → Option ℕ → List ℕ
alias_at path aliases none = path
alias_at path aliases (some i) = aliased path (get_or aliases i no_alias)

-- `apply_alias`, with a buffer of VFS_MAX_PATH bytes
unfoldable pub apply_alias : List ℕ → List Alias → List ℕ
unfolding alias_at
apply_alias path aliases = alias_at path aliases (find_index (is_alias_of path) aliases)

module _ {S : Type 0} where
  resolve_path : List (Mount S) → Option (List ℕ) → Option (ℕ × List ℕ)
  resolve_path ms none = none
  resolve_path ms (some path) = resolve path ms

  -- The beginning of each call on a path: aliases, normalisation, and the mount that serves it.
  unfoldable pub lookup : List ℕ → Vfs S → Option (ℕ × List ℕ)
  unfolding resolve_path
  lookup path v = resolve_path v.mounts (normalize max_path (apply_alias path v.aliases))

  -- The operations of the mount at a place of the table.
  unfoldable pub ops_at : Vfs S → ℕ → Option (Ops S)
  ops_at v i = (get_or v.mounts i no_mount).ops

  read_with : Option (Ops S) → S → List ℕ → ℕ → ℤ × List ℕ
  read_with none s rel size = (failure, [])
  read_with (some ops) s rel size = elim ops.read [ none ↦ (failure, []) | some f ↦ f s rel size ]

  list_with : Option (Ops S) → S → List ℕ → ℕ → ℤ × List ℕ
  list_with none s rel size = (failure, [])
  list_with (some ops) s rel size = elim ops.list [ none ↦ (failure, []) | some f ↦ f s rel size ]

  unfoldable pub write_with : Option (Ops S) → S → List ℕ → List ℕ → Bool → ℤ × S
  write_with none s rel bytes replace = (failure, s)
  write_with (some ops) s rel bytes replace = elim ops.write [
    | none ↦ (failure, s)
    | some f ↦ f s rel bytes replace
  ]

  unfoldable pub remove_with : Option (Ops S) → S → List ℕ → ℤ × S
  remove_with none s rel = (failure, s)
  remove_with (some ops) s rel = elim ops.remove [ none ↦ (failure, s) | some f ↦ f s rel ]

  unfoldable pub mkdir_with : Option (Ops S) → S → List ℕ → ℤ × S
  mkdir_with none s rel = (failure, s)
  mkdir_with (some ops) s rel = elim ops.mkdir [ none ↦ (failure, s) | some f ↦ f s rel ]

  -- The new state of the file systems.
  abbrev pub with_files : Vfs S → ℤ × S → ℤ × Vfs S
  with_files v (code, s) = (code, record v { files = s })

  read_at : Vfs S → ℕ → Option (ℕ × List ℕ) → ℤ × List ℕ
  read_at v size none = (failure, [])
  read_at v size (some (i, rel)) = read_with (ops_at v i) v.files rel size

  list_at : Vfs S → ℕ → Option (ℕ × List ℕ) → ℤ × List ℕ
  list_at v size none = (failure, [])
  list_at v size (some (i, rel)) = list_with (ops_at v i) v.files rel size

  unfoldable pub write_at : Vfs S → List ℕ → Bool → Option (ℕ × List ℕ) → ℤ × Vfs S
  write_at v bytes replace none = (failure, v)
  write_at v bytes replace (some (i, rel)) =
      with_files v (write_with (ops_at v i) v.files rel bytes replace)

  remove_at : Vfs S → Option (ℕ × List ℕ) → ℤ × Vfs S
  remove_at v none = (failure, v)
  remove_at v (some (i, rel)) = with_files v (remove_with (ops_at v i) v.files rel)

  mkdir_at : Vfs S → Option (ℕ × List ℕ) → ℤ × Vfs S
  mkdir_at v none = (failure, v)
  mkdir_at v (some (i, rel)) = with_files v (mkdir_with (ops_at v i) v.files rel)

  -- `vfs_read_path` and `vfs_list`, into a buffer of `size` bytes; the empty path lists the root.
  unfoldable pub read_path : List ℕ → ℕ → Vfs S → ℤ × List ℕ
  unfolding read_at read_with
  read_path path size v = if size == 0 then (failure, []) else read_at v size (lookup path v)

  unfoldable pub list : List ℕ → ℕ → Vfs S → ℤ × List ℕ
  unfolding list_at list_with
  list path size v =
      if size == 0
      then (failure, [])
      else list_at v size (lookup (if length path == 0 then slash ∷ [] else path) v)

  -- `vfs_write_internal`; `vfs_write_file` replaces and `vfs_append` appends.
  unfoldable pub write_internal : List ℕ → List ℕ → Bool → Vfs S → ℤ × Vfs S
  unfolding write_at write_with
  write_internal path bytes replace v = write_at v bytes replace (lookup path v)

  unfoldable pub write_file : List ℕ → List ℕ → Vfs S → ℤ × Vfs S
  write_file path bytes v = write_internal path bytes true v

  unfoldable pub append : List ℕ → List ℕ → Vfs S → ℤ × Vfs S
  append path bytes v = write_internal path bytes false v

  -- `vfs_remove` and `vfs_mkdir`
  unfoldable pub remove : List ℕ → Vfs S → ℤ × Vfs S
  unfolding remove_at remove_with
  remove path v = remove_at v (lookup path v)

  unfoldable pub mkdir : List ℕ → Vfs S → ℤ × Vfs S
  unfolding mkdir_at mkdir_with
  mkdir path v = mkdir_at v (lookup path v)
