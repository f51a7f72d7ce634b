-- ===== src/Vfs.antt =====
-- kernel/vfs.c: paths, aliases, mounts and open files in front of the file systems. A path is the list
-- of its bytes, without the terminator; pointers to texts are not NULL.
pub mod Names
pub mod Normal
pub mod Texts
pub mod Keeping
pub mod Devices
pub mod Start
pub mod Calls
pub mod Adapters
pub mod Mounts
mod Tests
use pro_os.Prelude.{
  ℕ, zero, suc, ◌+◌, ◌-◌, Bool, true, false, not, ◌&&◌, ◌||◌, Option, none, some, List, [], ◌∷◌,
  ◌++◌, ltb, leb, ◌==◌, if◌then◌else◌, length, drop,
}

-- VFS_MAX_PATH, and the room in the array `segments`
abbrev pub max_path : ℕ
max_path = 128

abbrev pub max_segments : ℕ
max_segments = 32

abbrev pub slash : ℕ
slash = 47

-- A segment that is not empty is noted.
unfoldable pub segment : List ℕ → List (List ℕ) → List (List ℕ)
segment [] rest = rest
segment (c ∷ s) rest = (c ∷ s) ∷ rest

-- The segments of a path, with the bytes of the current one that were already read.
unfoldable pub split : List ℕ → List ℕ → List (List ℕ)
split s [] = segment s []
split s (c ∷ path) =
    let ended = segment s (split [] path) in
    let longer = split (s ++ c ∷ []) path in if c == slash then ended else longer

-- The segments "." and ".."
unfoldable pub is_dot : List ℕ → Bool
is_dot [] = false
is_dot (c ∷ []) = c == 46
is_dot (c ∷ d ∷ s) = false

unfoldable pub is_dot_dot : List ℕ → Bool
is_dot_dot [] = false
is_dot_dot (c ∷ []) = false
is_dot_dot (c ∷ d ∷ []) = (c == 46) && (d == 46)
is_dot_dot (c ∷ d ∷ e ∷ s) = false

-- What a segment does to those kept, the last one first.
unfoldable pub step : List ℕ → List (List ℕ) → Option (List (List ℕ))
step s kept =
    if is_dot s
    then some kept
    else if is_dot_dot s
    then some (drop 1 kept)
    else if leb max_segments (length kept)
    then none
    else some (s ∷ kept)

unfoldable pub walk : List (List ℕ) → Option (List (List ℕ)) → Option (List (List ℕ))
walk segments none = none
walk [] (some kept) = some kept
walk (s ∷ segments) (some kept) = walk segments (step s kept)

-- The kept segments in the order of the path, in front of `rest`.
unfoldable pub onto : List (List ℕ) → List (List ℕ) → List (List ℕ)
onto [] rest = rest
onto (s ∷ kept) rest = onto kept (s ∷ rest)

-- The segments are written, each behind a slash, into an array of `capacity` bytes.
unfoldable pub build : ℕ → List (List ℕ) → List ℕ → Option (List ℕ)
build capacity [] out = some out
build capacity (s ∷ segments) out =
    let rest = build capacity segments (out ++ slash ∷ s) in
    if leb capacity (length out + length s + 1) then none else rest

unfoldable pub written : ℕ → Option (List (List ℕ)) → Option (List ℕ)
written capacity none = none
written capacity (some []) = some (slash ∷ [])
written capacity (some (s ∷ kept)) = build capacity (onto (s ∷ kept) []) []

-- `normalize_path`
unfoldable pub normalize : ℕ → List ℕ → Option (List ℕ)
normalize capacity [] = none
normalize capacity (c ∷ path) =
    if ltb capacity 2
    then none
    else if not (c == slash)
    then none
    else written capacity (walk (split [] (c ∷ path)) (some []))
