-- ===== src/Ramfs.antt =====
-- kernel/ramfs.c: the file system in memory, a table of entries with full path names. A C string is the
-- list of its bytes before the terminator; the volume, names and buffers are not NULL. An entry's `data`
-- is the field `bytes`. Return codes are those of the source.
pub mod Text
pub mod Paths
pub mod Tree
pub mod Files
pub mod Root
mod Tests
use pro_os.Prelude.{
  ℕ, zero, suc, ◌+◌, ◌-◌, ◌%◌, ◌^◌, Bool, true, false, not, ◌&&◌, ◌||◌, Option, none, some, List,
  [], ◌∷◌, ◌++◌, map, ltb, leb, ◌==◌, if◌then◌else◌, length, get_or, set, take, drop, replicate,
}
use pro_os.Prelude.Arrays.{find_index}
use pro_os.Prelude.Blocks.{copy}
use pro_os.Prelude.Int.{ℤ, pos, negsuc, ◌==ℤ◌, failure, success}

-- RAMFS_MAX_FILES, RAMFS_MAX_NAME and RAMFS_MAX_FILE_SIZE
abbrev pub max_files : ℕ
max_files = 32

abbrev pub max_name : ℕ
max_name = 32

abbrev pub max_file_size : ℕ
max_file_size = 1024

abbrev pub slash : ℕ
slash = b'/'

-- `struct ramfs_entry`
pub record Entry : Type 0 where
  pub used : Bool
  pub name : List ℕ
  pub is_directory : Bool
  pub size : ℕ
  pub bytes : List ℕ

-- `struct ramfs_volume`: its array `files`
abbrev pub Volume : Type 0
Volume = List Entry

unfoldable pub no_entry : Entry
no_entry = record {
  used = false;
  name = [];
  is_directory = false;
  size = 0;
  bytes = replicate max_file_size 0;
}

-- `a - b` of two bytes as an `int`
difference : ℕ → ℕ → ℤ
difference a b = if ltb a b then negsuc (b - a - 1) else pos (a - b)

-- `str_cmp`
pub str_cmp : List ℕ → List ℕ → ℤ
str_cmp [] [] = pos 0
str_cmp [] (b ∷ y) = difference 0 b
str_cmp (a ∷ x) [] = difference a 0
str_cmp (a ∷ x) (b ∷ y) = let rest = str_cmp x y in if a == b then rest else difference a b

-- `str_cmp(a, b) == 0`
abbrev pub same : List ℕ → List ℕ → Bool
same a b = str_cmp a b ==ℤ pos 0

-- `str_starts_with`
pub starts_with : List ℕ → List ℕ → Bool
starts_with str [] = true
starts_with [] (p ∷ ps) = false
starts_with (c ∷ cs) (p ∷ ps) = (c == p) && starts_with cs ps

pub path_is_valid : List ℕ → Bool
path_is_valid name =
    not (length name == 0)
    && (ltb (length name) max_name
        && (not (get_or name 0 0 == slash) && not (get_or name (length name - 1) 0 == slash)))

pub find_entry : Volume → List ℕ → Option ℕ
find_entry v name = find_index (λ e. e.used && same e.name name) v

-- The loop of `ensure_parent_directory`: the last slash, from index `i` on.
pub last_slash : List ℕ → ℕ → Option ℕ → Option ℕ
last_slash [] i found = found
last_slash (c ∷ cs) i found = last_slash cs (i + 1) (if c == slash then some i else found)

abbrev pub is_directory_at : Volume → Option ℕ → Bool
is_directory_at v none = false
is_directory_at v (some i) = (get_or v i no_entry).is_directory

-- `ensure_parent_directory`
pub has_parent : Volume → List ℕ → Bool
has_parent v name = elim (last_slash name 0 none) [
  | none ↦ true
  | some k ↦ not (k == 0) && (ltb k max_name && is_directory_at v (find_entry v (take k name)))
]

-- What `create_entry` makes of an unused entry; `str_copy` copies at most 31 bytes.
pub new_entry : Entry → List ℕ → Bool → Entry
new_entry e name directory = record {
  used = true;
  name = take (max_name - 1) name;
  is_directory = directory;
  size = 0;
  bytes = set e.bytes 0 0;
}

-- `a == b` of two flags
abbrev pub same_kind : Bool → Bool → Bool
same_kind true b = b
same_kind false b = not b

-- The last part of `create_entry`, for a name that is not in the volume.
pub create_new : Volume → List ℕ → Bool → Option ℕ × Volume
create_new v name directory =
    if not (has_parent v name) then (none, v) else elim (find_index (λ e. not e.used) v) [
      | none ↦ (none, v)
      | some i ↦ (some i, set v i (new_entry (get_or v i no_entry) name directory))
    ]

-- `create_entry`
pub create_entry : Volume → List ℕ → Bool → Option ℕ × Volume
create_entry v name directory =
    if not (path_is_valid name) then (none, v) else elim (find_entry v name) [
      | none ↦ create_new v name directory
      | some i ↦
          if same_kind (get_or v i no_entry).is_directory directory then (some i, v) else (none, v)
    ]

-- An entry without contents, and one that is free: in `ramfs_volume_init` and `ramfs_volume_remove`.
empty : Entry → Entry
empty e = record e { size = 0; bytes = set e.bytes 0 0 }

pub free : Entry → Entry
unfolding empty
free e = record (empty e) { used = false; name = []; is_directory = false }

-- `ramfs_volume_init`
pub init : Volume → Volume
init v = map free v

-- The result of `ramfs_volume_read`: the code, and the bytes in front of the terminator.
pub read : Volume → List ℕ → ℕ → ℤ × List ℕ
read v name out_size =
    if (out_size == 0) || not (path_is_valid name)
    then (failure, [])
    else elim (find_entry v name) [
      | none ↦ (failure, [])
      | some i ↦
          let file = get_or v i no_entry in
          let to_copy = if leb out_size file.size then out_size - 1 else file.size in
          if file.is_directory then (failure, []) else (pos to_copy, take to_copy file.bytes)
    ]

-- `length` bytes behind the contents of a file, in words of 32 bits.
pub extended : Entry → List ℕ → ℕ → Entry
extended file text n =
    let size = (file.size + n) % 2 ^ 32 in
    record file {
      size = size;
      bytes = set (take file.size file.bytes ++ copy (drop file.size file.bytes) text n) size 0;
    }

-- `ramfs_volume_append`; `text` is `data`, not NULL.
pub append : Volume → List ℕ → List ℕ → ℕ → ℤ × Volume
append v name text n =
    if (n == 0) || not (path_is_valid name)
    then (failure, v)
    else let (found, w) = create_entry v name false in
      elim found [
        | none ↦ (failure, w)
        | some i ↦
            let file = get_or w i no_entry in
            if file.is_directory
            then (failure, w)
            else if leb max_file_size ((file.size + n) % 2 ^ 32)
            then (failure, w)
            else (pos n, set w i (extended file text n))
      ]

-- The contents that `ramfs_volume_write` leaves, and its code; `none` for a NULL `data`.
pub overwritten : Entry → Option (List ℕ) → ℕ → ℤ × Entry
unfolding empty
overwritten file none n = (success, empty file)
overwritten file (some text) n =
    let size = if leb max_file_size n then max_file_size - 1 else n in
    (pos size, record file { size = size; bytes = set (copy file.bytes text size) size 0 })

-- `ramfs_volume_write`
pub write : Volume → List ℕ → Option (List ℕ) → ℕ → ℤ × Volume
write v name text n =
    if not (path_is_valid name)
    then (failure, v)
    else let (found, w) = create_entry v name false in
      elim found [
        | none ↦ (failure, w)
        | some i ↦
            let file = get_or w i no_entry in
            let (code, file') = overwritten file text n in
            if file.is_directory then (failure, w) else (code, set w i file')
      ]

-- Whether a path lies below a directory: the tests of the loop in `ramfs_volume_remove`.
pub below : List ℕ → List ℕ → Bool
below dir name =
    ltb (length dir) (length name)
    && (starts_with name dir && (get_or name (length dir) 0 == slash))

pub free_below : List ℕ → Entry → Entry
free_below dir e = if e.used && below dir e.name then free e else e

-- `ramfs_volume_remove`
pub remove : Volume → List ℕ → ℤ × Volume
remove v name = if not (path_is_valid name) then (failure, v) else elim (find_entry v name) [
  | none ↦ (failure, v)
  | some i ↦
      let w = set v i (free (get_or v i no_entry)) in
      (success, if (get_or v i no_entry).is_directory then map (free_below name) w else w)
]

-- `ramfs_volume_mkdir`
pub mkdir : Volume → List ℕ → ℤ × Volume
mkdir v name =
    if not (path_is_valid name)
    then (failure, v)
    else let (found, w) = create_entry v name true in
      elim found [ none ↦ (failure, w) | some i ↦ (success, set w i (empty (get_or w i no_entry))) ]

-- The part of a name that `ramfs_volume_list` prints, if the entry lies directly in the directory; the
-- root is the empty name.
pub has_slash : List ℕ → Bool
has_slash [] = false
has_slash (c ∷ cs) = (c == slash) || has_slash cs

pub child_of : List ℕ → List ℕ → Option (List ℕ)
child_of [] name = if has_slash name then none else some name
child_of (d ∷ dir) name =
    let child = drop (suc (length (d ∷ dir))) name in
    if below (d ∷ dir) name && (not (length child == 0) && not (has_slash child))
    then some child
    else none

-- What is printed for an entry: `none` where it is skipped.
pub line : List ℕ → Entry → Option (List ℕ)
line dir e =
    if e.used
    then elim (child_of dir e.name) [
      | none ↦ none
      | some child ↦ some (child ++ (if e.is_directory then slash ∷ [] else []) ++ b'\n' ∷ [])
    ]
    else none

-- The loop of `ramfs_volume_list`; a line that does not fit ends it.
pub list_from : List ℕ → ℕ → List ℕ → List Entry → List ℕ
list_from dir buffer_size out [] = out
list_from dir buffer_size out (e ∷ es) = elim (line dir e) [
  | none ↦ list_from dir buffer_size out es
  | some l ↦ elim (leb buffer_size (length out + length l)) [
    | true ↦ out
    | false ↦ list_from dir buffer_size (out ++ l) es
  ]
]

-- What `ramfs_volume_list` asks of the directory; the root is NULL or "".
pub listable : Volume → List ℕ → Bool
listable v dir = (length dir == 0) || (path_is_valid dir && is_directory_at v (find_entry v dir))

-- `ramfs_volume_list`: the code, and the text in front of the terminator.
pub list : Volume → List ℕ → ℕ → ℤ × List ℕ
list v dir buffer_size =
    let out = list_from dir buffer_size [] v in
    if (buffer_size == 0) || not (listable v dir)
    then (failure, [])
    else (pos (length out - 1), take (length out - 1) out)
