-- ===== src/Vfs/Calls/Aliases.antt =====
-- kernel/vfs.c: `vfs_register_alias`.
use pro_os.Prelude.{
  ℕ, Bool, true, not, ◌&&◌, ◌||◌, Option, none, some, List, leb, ◌==◌, if◌then◌else◌, length, set,
}
use pro_os.Prelude.Arrays.{find_index}
use pro_os.Prelude.Int.{ℤ, failure, success}
use pro_os.Vfs.{max_path, normalize}
use pro_os.Vfs.Mounts.{same_front}
use pro_os.Vfs.Calls.{Alias}

-- The two paths are the same text.
unfoldable pub same_path : List ℕ → List ℕ → Bool
same_path a b = (length a == length b) && same_front a b (length a)

-- The alias is one of the path.
unfoldable pub is_registered : List ℕ → Alias → Bool
is_registered path a =
    a.used && (a.from_len == length path) && same_front a.source path (length path)

-- The place of an alias: its own, or else the first free one.
unfoldable pub slot_of : Option ℕ → Option ℕ → Option ℕ
slot_of (some own) free = some own
slot_of none free = free

fill_alias : List ℕ → List ℕ → List Alias → Option ℕ → ℤ × List Alias
fill_alias source target aliases none = (failure, aliases)
fill_alias source target aliases (some i) = (
  success,
  set aliases i
      (record { used = true; source = source; from_len = length source; target = target }),
)

register_normal : List Alias → Option (List ℕ) → Option (List ℕ) → ℤ × List Alias
register_normal aliases none target = (failure, aliases)
register_normal aliases (some source) none = (failure, aliases)
register_normal aliases (some source) (some target) =
    if leb (length source) 1 || (length target == 0) || same_path source target
    then (failure, aliases)
    else fill_alias source target aliases
        (slot_of (find_index (is_registered source) aliases) (find_index (λ a. not a.used) aliases))

-- `vfs_register_alias`: both paths are normalised; an alias of the root, or of a path to itself, is refused.
unfoldable pub register_alias : List ℕ → List ℕ → List Alias → ℤ × List Alias
unfolding register_normal fill_alias
register_alias source target aliases =
    register_normal aliases (normalize max_path source) (normalize max_path target)
