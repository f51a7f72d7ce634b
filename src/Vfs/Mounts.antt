-- ===== src/Vfs/Mounts.antt =====
-- kernel/vfs.c: the table of mounts, and the one that serves a path. The operations of a mounted file
-- system are functions of the state `S` of all file systems; its context is part of them.
pub mod Longest
use pro_os.Prelude.{
  ℕ, zero, suc, ◌+◌, ◌-◌, Bool, true, false, not, ◌&&◌, ◌||◌, Option, none, some, List, [], ◌∷◌,
  ◌++◌, ltb, leb, ◌==◌, if◌then◌else◌, length, get_or, set, drop, take,
}
use pro_os.Prelude.Arrays.{find_index}
use pro_os.Prelude.Int.{ℤ, failure, success}
use pro_os.Vfs.{max_path, slash, normalize}

-- VFS_MAX_MOUNTS
abbrev pub max_mounts : ℕ
max_mounts = 8

-- `struct vfs_fs_ops`, with `none` for NULL. The result of `list` and `read` has the bytes that they write
-- to the buffer; `write` replaces or appends.
pub record Ops (S : Type 0) : Type 0 where
  pub list : Option (S → List ℕ → ℕ → ℤ × List ℕ)
  pub read : Option (S → List ℕ → ℕ → ℤ × List ℕ)
  pub write : Option (S → List ℕ → List ℕ → Bool → ℤ × S)
  pub remove : Option (S → List ℕ → ℤ × S)
  pub mkdir : Option (S → List ℕ → ℤ × S)

-- `struct vfs_mount`
pub record Mount (S : Type 0) : Type 0 where
  pub used : Bool
  pub mount_point : List ℕ
  pub prefix_len : ℕ
  pub ops : Option (Ops S)

-- `local_strncmp(a, b, n) == 0`
unfoldable pub same_front : List ℕ → List ℕ → ℕ → Bool
same_front a b zero = true
same_front [] [] (suc n) = true
same_front [] (d ∷ b) (suc n) = false
same_front (c ∷ a) [] (suc n) = false
same_front (c ∷ a) (d ∷ b) (suc n) = (c == d) && same_front a b n

-- The byte behind a front of the path ends a segment.
unfoldable pub ends_at : List ℕ → ℕ → Bool
ends_at path n = (get_or path n 0 == 0) || (get_or path n 0 == slash)

-- `!best || len > best_len`
unfoldable pub is_longer : ℕ → Option (ℕ × ℕ) → Bool
is_longer len none = true
is_longer len (some (i, best_len)) = ltb best_len len

-- What is left of the path behind the mount point, without its slash.
unfoldable pub relative_of : ℕ → List ℕ → List ℕ
relative_of len path = if get_or path len 0 == slash then drop (suc len) path else drop len path

module _ {S : Type 0} where
  abbrev pub no_mount : Mount S
  no_mount = record { used = false; mount_point = []; prefix_len = 0; ops = none }

  abbrev pub has_ops : Option (Ops S) → Bool
  has_ops none = false
  has_ops (some ops) = true

  -- The tests of the loop of `resolve_mount`: the mount is in use and its point is a front of the path.
  unfoldable pub serves : List ℕ → Mount S → Bool
  serves path m =
      m.used
      && has_ops m.ops
      && not (m.prefix_len == 0)
      && (if m.prefix_len == 1
          then get_or path 0 0 == slash
          else same_front path m.mount_point m.prefix_len && ends_at path m.prefix_len)

  -- The loop of `resolve_mount`, from entry `i` on: the best mount so far, with its length.
  unfoldable pub scan : List ℕ → List (Mount S) → ℕ → Option (ℕ × ℕ) → Option (ℕ × ℕ)
  scan path [] i best = best
  scan path (m ∷ ms) i best =
      scan path ms (suc i)
        (if serves path m && is_longer m.prefix_len best then some (i, m.prefix_len) else best)

  relative_at : List ℕ → List (Mount S) → Option (ℕ × ℕ) → Option (ℕ × List ℕ)
  relative_at path ms none = none
  relative_at path ms (some (i, len)) = some (i, relative_of (get_or ms i no_mount).prefix_len path)

  -- `resolve_mount`: the mount's place in the table, and the rest of the path.
  unfoldable pub resolve : List ℕ → List (Mount S) → Option (ℕ × List ℕ)
  unfolding relative_at
  resolve path ms = relative_at path ms (scan path ms 0 none)

  -- The mount point is taken already.
  unfoldable pub is_point : List ℕ → Mount S → Bool
  is_point path m =
      m.used && (length m.mount_point == length path) && same_front m.mount_point path (length path)

  fill_slot : Ops S → List ℕ → List (Mount S) → Option ℕ → ℤ × List (Mount S)
  fill_slot ops path ms none = (failure, ms)
  fill_slot ops path ms (some i) = (
    success,
    set ms i (record { used = true; mount_point = path; prefix_len = length path; ops = some ops }),
  )

  refuse_or_fill : Ops S → List ℕ → List (Mount S) → Option ℕ → ℤ × List (Mount S)
  refuse_or_fill ops path ms (some i) = (failure, ms)
  refuse_or_fill ops path ms none = fill_slot ops path ms (find_index (λ m. not m.used) ms)

  mount_at : Ops S → List (Mount S) → Option (List ℕ) → ℤ × List (Mount S)
  mount_at ops ms none = (failure, ms)
  mount_at ops ms (some path) = refuse_or_fill ops path ms (find_index (is_point path) ms)

  -- `vfs_mount`, its pointers not NULL
  unfoldable pub mount : List ℕ → Ops S → List (Mount S) → ℤ × List (Mount S)
  unfolding mount_at refuse_or_fill fill_slot
  mount point ops ms = mount_at ops ms (normalize max_path point)

  -- `vfs_mount_count`
  unfoldable pub mount_count : List (Mount S) → ℕ
  mount_count [] = 0
  mount_count (m ∷ ms) = if m.used then suc (mount_count ms) else mount_count ms

  -- `vfs_mount_path_at`: what it writes to a buffer of `size` bytes, `size` not 0.
  unfoldable pub mount_path_at : ℕ → ℕ → List (Mount S) → ℤ × List ℕ
  mount_path_at index size [] = (failure, [])
  mount_path_at zero size (m ∷ ms) =
      let later = mount_path_at zero size ms in
      if not m.used then later else (success, take (size - 1) m.mount_point)
  mount_path_at (suc index) size (m ∷ ms) =
      mount_path_at (if m.used then index else suc index) size ms
