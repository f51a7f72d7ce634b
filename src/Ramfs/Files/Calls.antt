-- ===== src/Ramfs/Files/Calls.antt =====
-- kernel/ramfs.c: every call on a volume leaves a tree, and a listing stays in its buffer.
use pro_os.Prelude.{
  replicate, suc, zero, ℕ, ◌+◌, ◌-◌, ◌^◌, ◌≤◌, ◌<◌, ◌≡◌, refl, ap, ◌∙◌, true, false, not, ◌⊎◌, inl,
  inr, Option, none, some, List, [], ◌∷◌, ◌++◌, arith, leb, ◌==◌, ◌||◌, length, length-set,
  length-map, length-append, length-take, Bool-cases, Option-cases,
}
use pro_os.Prelude.Int.{ℤ, pos, failure, success}
use pro_os.Ramfs.{
  Volume, Entry, no_entry, max_file_size, max_files, path_is_valid, create_entry, overwritten,
  empty, free, init, append, write, remove, mkdir, line, list_from, list, listable,
}
use pro_os.Ramfs.Text.{IsText}
use pro_os.Ramfs.Tree.{at, IsSound, IsTree, set-IsTree}
use pro_os.Ramfs.Tree.Create.{create_entry_lem}
use pro_os.Ramfs.Tree.Remove.{at-map, free_entry-IsSound, free_unused, remove_lem}
use pro_os.Ramfs.Files.Writes.{write_lem}
use pro_os.Ramfs.Files.Appends.{append_lem}

empty-IsSound : (e : Entry) → IsSound e → IsSound (empty e)
unfolding empty
empty-IsSound e s = record {
  room = length-set e.bytes 0 0 ∙ s.room;
  fits = omega arith;
  is_text = s.is_text;
  is_path = s.is_path;
}

empty_keeps :
    (e : Entry)
    → ((empty e).used ≡ e.used)
      × ((empty e).name ≡ e.name)
      × ((empty e).is_directory ≡ e.is_directory)
unfolding empty
empty_keeps e = (refl, refl, refl)

overwritten-none : (e : Entry) (n : ℕ) → overwritten e none n ≡ (success, empty e)
unfolding overwritten empty
overwritten-none e n = refl

pub write-none-IsTree :
    (v : Volume) (name : List ℕ) (n : ℕ) → IsTree v → IsText name → IsTree (write v name none n).1
unfolding write
write-none-IsTree v name n t text = elim (Bool-cases (path_is_valid name)) [
  | inr bad ↦ rw bad t
  | inl path ↦ elim (create_entry_lem v name false t text) [
    | inl (e, same) ↦ rw (path, e, write) (rw same t)
    | inr (i, e, c) ↦
        let w : Volume = (create_entry v name false).1 in
        let k = empty_keeps (at w i) in
        rw (path, e, write)
          (rw (c.of_kind, overwritten-none)
            (set-IsTree w i (empty (at w i)) c.tree c.in_table
              (empty-IsSound (at w i) (c.tree.sound i)) k.0 k.1 k.2))
  ]
]

pub mkdir-IsTree : (v : Volume) (name : List ℕ) → IsTree v → IsText name → IsTree (mkdir v name).1
unfolding mkdir empty
mkdir-IsTree v name t text = elim (Bool-cases (path_is_valid name)) [
  | inr bad ↦ rw bad t
  | inl path ↦ elim (create_entry_lem v name true t text) [
    | inl (e, same) ↦ rw (path, e, mkdir) (rw same t)
    | inr (i, e, c) ↦
        let w : Volume = (create_entry v name true).1 in
        rw (path, e, mkdir)
          (set-IsTree w i (empty (at w i)) c.tree c.in_table
            (empty-IsSound (at w i) (c.tree.sound i)) refl refl refl)
  ]
]

-- The calls that change a volume.
pub data Call : Type 0 where
  appending : List ℕ → List ℕ → ℕ → Call
  writing : List ℕ → Option (List ℕ) → ℕ → Call
  removing : List ℕ → Call
  making : List ℕ → Call

unfoldable pub run_call : Call → Volume → ℤ × Volume
run_call (appending name text n) v = append v name text n
run_call (writing name text n) v = write v name text n
run_call (removing name) v = remove v name
run_call (making name) v = mkdir v name

-- The path is a text, and the buffer has the bytes that the call names.
abbrev pub IsGiven : Call → Type 0
IsGiven (appending name text n) = IsText name × (n ≤ length text) × (n < 2 ^ 31)
IsGiven (writing name none n) = IsText name
IsGiven (writing name (some text) n) = IsText name × (n ≤ length text)
IsGiven (removing name) = IsText name
IsGiven (making name) = IsText name

abbrev pub AllGiven : List Call → Type 0
AllGiven [] = Unit
AllGiven (c ∷ cs) = IsGiven c × AllGiven cs

unfoldable pub run_calls : List Call → Volume → Volume
run_calls [] v = v
run_calls (c ∷ cs) v = run_calls cs (run_call c v).1

pub run_call-IsTree : (c : Call) (v : Volume) → IsGiven c → IsTree v → IsTree (run_call c v).1
unfolding run_call
run_call-IsTree (appending name text n) v g t = (append_lem v name text n t g.0 g.1 g.2).0
run_call-IsTree (writing name none n) v g t = write-none-IsTree v name n t g
run_call-IsTree (writing name (some text) n) v g t = (write_lem v name text n t g.0 g.1).0
run_call-IsTree (removing name) v g t = (remove_lem v name t g).0
run_call-IsTree (making name) v g t = mkdir-IsTree v name t g

no_entry-free : free no_entry ≡ no_entry
unfolding free no_entry empty
no_entry-free = refl

-- `ramfs_volume_init` gives an empty tree, whatever was in the array.
pub init-IsTree :
    (v : Volume)
    → length v ≡ max_files
    → ((i : ℕ) → length (at v i).bytes ≡ max_file_size)
    → IsTree (init v)
unfolding init
init-IsTree v room bytes = record {
  room = length-map v free ∙ room;
  sound = λ i. rw (at-map free v i no_entry-free) (free_entry-IsSound (at v i) (bytes i));
  closed = λ i u. absurd (ground (arith, at-map free v i no_entry-free, free_unused (at v i)));
  unique = λ i j u. absurd (ground (arith, at-map free v i no_entry-free, free_unused (at v i)));
}

-- Any sequence of calls keeps a tree a tree.
pub calls-IsTree : (cs : List Call) (v : Volume) → AllGiven cs → IsTree v → IsTree (run_calls cs v)
unfolding run_calls
calls-IsTree [] v g t = t
calls-IsTree (c ∷ cs) v g t = calls-IsTree cs (run_call c v).1 g.1 (run_call-IsTree c v g.0 t)

-- After `ramfs_volume_init` on an array of 32 entries of 1024 bytes, whatever is in it, any sequence of calls, failing
-- ones included, leaves the volume a tree: paths are valid and stand once, every parent is a directory, and
-- no file overruns its array. The calls have paths without a terminator in them and buffers as long as they
-- say, and append fewer than 2 ^ 31 bytes each.
pub run_calls-IsTree :
    (cs : List Call) (v : Volume)
    → length v ≡ max_files
    → ((i : ℕ) → length (at v i).bytes ≡ max_file_size)
    → AllGiven cs
    → IsTree (run_calls cs (init v))
run_calls-IsTree cs v room bytes g = calls-IsTree cs (init v) g (init-IsTree v room bytes)

-- A listing and its terminator stay in the buffer.
list_from-le :
    (dir : List ℕ) (buffer_size : ℕ) (out : List ℕ) (es : List Entry)
    → length out < buffer_size
    → length (list_from dir buffer_size out es) < buffer_size
unfolding list_from
list_from-le dir buffer_size out [] h = h
list_from-le dir buffer_size out (e ∷ es) h = elim (Option-cases (line dir e)) [
  | inl skip ↦ rw (skip, list_from) (list_from-le dir buffer_size out es h)
  | inr (l, e') ↦ elim (Bool-cases (leb buffer_size (length out + length l))) [
    | inl full ↦ rw (e', list_from) (rw full h)
    | inr fits ↦
        rw (e', list_from)
          (rw fits
            (list_from-le dir buffer_size (out ++ l) es (ground (arith, length-append out l))))
  ]
]

-- `ramfs_volume_list` either fails, with nothing printed, or everything that its loop prints and a
-- terminator fit the buffer, and the code it returns is the length of the text.
pub length-list :
    (v : Volume) (dir : List ℕ) (buffer_size : ℕ)
    → (list v dir buffer_size ≡ (failure, []))
      ⊎ (((list v dir buffer_size).0 ≡ pos (length (list v dir buffer_size).1))
          × (length (list_from dir buffer_size [] v) < buffer_size))
unfolding list
length-list v dir buffer_size = elim (Bool-cases ((buffer_size == 0) || not (listable v dir))) [
  | inl bad ↦ rw bad (inl refl)
  | inr ok ↦
      let out : List ℕ = list_from dir buffer_size [] v in
      let some_room : 0 < buffer_size = ground arith in
      rw ok (
        inr (
          ap pos (omega (arith, length-take (length out - 1) out)),
          list_from-le dir buffer_size [] v some_room,
        ))
]

-- A new volume.
abbrev pub blank : Volume
blank = init (replicate max_files no_entry)

pub get_or-blank : (n i : ℕ) → length (at (replicate n no_entry) i).bytes ≡ max_file_size
unfolding no_entry
get_or-blank zero i = refl
get_or-blank (suc n) zero = refl
get_or-blank (suc n) (suc i) = get_or-blank n i

pub blank-IsTree : IsTree blank
blank-IsTree = init-IsTree (replicate max_files no_entry) refl (get_or-blank max_files)
