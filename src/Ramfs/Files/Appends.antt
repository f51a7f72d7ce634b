-- ===== src/Ramfs/Files/Appends.antt =====
-- kernel/ramfs.c: `ramfs_volume_append` against the contents of the files.
use pro_os.Prelude.{
  ℕ, ◌+◌, ◌-◌, ◌%◌, ◌^◌, ◌≤◌, ◌<◌, ◌≡◌, ◌≢◌, refl, ap, sym, subst, ◌∙◌, true, false, ◌⊎◌, inl, inr,
  none, List, [], ◌++◌, arith, leb, ◌==◌, length, length-set, length-take, length-drop,
  length-append, take, drop, Bool-cases,
}
use pro_os.Prelude.Arrays.{take-set_ge}
use pro_os.Prelude.Blocks.{copy, length-copy, take-copy}
use pro_os.Prelude.Int.{ℤ, pos, failure}
use pro_os.Ramfs.{
  Volume, Entry, no_entry, max_file_size, path_is_valid, find_entry, read, create_entry, extended,
  append,
}
use pro_os.Ramfs.Text.{IsText}
use pro_os.Ramfs.Tree.{at, IsSound, IsTree}
use pro_os.Ramfs.Tree.Create.{Created, create_entry_lem, not_found}
use pro_os.Ramfs.Files.{contents, contents-at, contents_absent}
use pro_os.Prelude.{set_self, take-append}
use pro_os.Ramfs.Files.Writes.{stored-IsTree, stored-contents, stored-read}

-- How `ramfs_volume_append` ends.
pub data Appends (v : Volume) (name text : List ℕ) (n : ℕ) : ℤ × Volume → Type 0 where
  not_appended :
      (n ≡ 0)
        ⊎ (path_is_valid name ≡ false)
        ⊎ ((create_entry v name false).0 ≡ none)
        ⊎ (max_file_size ≤ length (contents v name) + n)
      → Appends v name text n (failure, v)
  left_empty :
      {w : Volume}
      → find_entry v name ≡ none
      → max_file_size ≤ n
      → find_entry w name ≢ none
      → contents w name ≡ []
      → ((other : List ℕ) (out_size : ℕ)
          → IsText other
          → other ≢ name
          → read w other out_size ≡ read v other out_size)
      → Appends v name text n (failure, w)
  appends :
      {w : Volume}
      → contents w name ≡ contents v name ++ take n text
      → ((other : List ℕ) (out_size : ℕ)
          → IsText other
          → other ≢ name
          → read w other out_size ≡ read v other out_size)
      → Appends v name text n (pos n, w)

-- The entry that `ramfs_volume_append` stores, where the sum of the sizes does not wrap.
module _ (e : Entry) (text : List ℕ) (n : ℕ) (s : IsSound e) (h : e.size + n < max_file_size) where
  no_wrap : (e.size + n) % 2 ^ 32 ≡ e.size + n
  no_wrap = omega arith

  abbrev tail : List ℕ
  tail = copy (drop e.size e.bytes) text n

  front : length (take e.size e.bytes) ≡ e.size
  front = omega (arith, length-take e.size e.bytes, s.room)

  back : length (drop e.size e.bytes) ≡ max_file_size - e.size
  back = length-drop e.size e.bytes ∙ (omega (arith, s.room))

  extended-IsSound : IsSound (extended e text n)
  unfolding extended
  extended-IsSound = record {
    room = omega (
      arith,
      length-set (take e.size e.bytes ++ tail) ((e.size + n) % 2 ^ 32) 0,
      length-append (take e.size e.bytes) tail,
      length-copy (drop e.size e.bytes) text n,
      front,
      back,
    );
    fits = omega (arith, no_wrap);
    is_text = s.is_text;
    is_path = s.is_path;
  }

  extended_bytes :
      n ≤ length text
      → take (extended e text n).size (extended e text n).bytes ≡ take e.size e.bytes ++ take n text
  unfolding extended
  extended_bytes k = rw no_wrap (
      take-set_ge (take e.size e.bytes ++ tail) (e.size + n) (e.size + n) 0 (omega arith)
      ∙ ap (λ m. take (m + n) (take e.size e.bytes ++ tail)) (sym front)
      ∙ take-append (take e.size e.bytes) tail n
      ∙ ap (◌++◌ (take e.size e.bytes))
          (take-copy (drop e.size e.bytes) text n (omega (arith, back)) k))

extended_rest :
    (e : Entry) (text : List ℕ) (n : ℕ)
    → ((extended e text n).used ≡ e.used)
      × ((extended e text n).name ≡ e.name)
      × ((extended e text n).is_directory ≡ e.is_directory)
unfolding extended
extended_rest e text n = (refl, refl, refl)

-- The contents of a file before `create_entry` are those of the entry that it gives.
module _ (v w : Volume) (name : List ℕ) (i : ℕ) (is_text : IsText name)
    (path : path_is_valid name ≡ true) (c : Created v name false w i) where
  now : contents w name ≡ take (at w i).size (at w i).bytes
  now = contents-at w name i c.tree is_text path c.in_use c.named c.of_kind

  before : contents v name ≡ take (at w i).size (at w i).bytes
  before = elim c.old_or_empty [
    | inl same ↦ sym (ap (λ x. contents x name) same) ∙ now
    | inr (absent, nothing) ↦
        contents_absent v name absent ∙ ap (λ k. take k (at w i).bytes) (sym nothing)
  ]

  length-before : length (contents v name) ≡ (at w i).size
  length-before =
      ap length before
      ∙ (omega (
        arith,
        length-take (at w i).size (at w i).bytes,
        (c.tree.sound i).room,
        (c.tree.sound i).fits,
      ))

  -- A text that does not fit.
  too_big :
      (text : List ℕ) (n : ℕ)
      → IsTree v
      → max_file_size ≤ (at w i).size + n
      → Appends v name text n (failure, w)
  too_big text n t big = elim c.old_or_empty [
    | inl same ↦
        subst (λ x. Appends v name text n (failure, x)) (sym same)
          (not_appended (inr (inr (inr (omega (arith, length-before, big))))))
    | inr (absent, nothing) ↦
        let stays = set_self w i no_entry in
        left_empty absent (omega (arith, nothing, big))
          (λ gone. not_found w name i gone c.in_use c.named)
          (now ∙ ap (λ k. take k (at w i).bytes) nothing)
          (λ other out_size o ne.
            ap (λ x. read x other out_size) (sym stays)
            ∙ stored-read v w name i (at w i) t is_text path c (c.tree.sound i) refl refl refl other
                out_size o ne)
  ]

-- `ramfs_volume_append` adds the text to the contents of the file, or fails; a failure changes nothing, but
-- where the text is too long for a file that is not there, a new empty file is left. Other files read
-- as before, and the volume is still a tree. The volume is a tree, the path has no terminator in it, and the
-- text is as long as `n` says, below 2 ^ 31 bytes.
pub append_lem :
    (v : Volume) (name text : List ℕ) (n : ℕ)
    → IsTree v
    → IsText name
    → n ≤ length text
    → n < 2 ^ 31
    → let r = append v name text n in IsTree r.1 × Appends v name text n r
unfolding append
append_lem v name text n t is_text given small = elim (Bool-cases (n == 0)) [
  | inl z ↦ rw z (t, not_appended (inl (ground arith)))
  | inr nz ↦ elim (Bool-cases (path_is_valid name)) [
    | inr bad ↦ rw (nz, bad) (t, not_appended (inr (inl bad)))
    | inl path ↦ elim (create_entry_lem v name false t is_text) [
      | inl (e, same) ↦ rw (nz, path, e, append) (rw same (t, not_appended (inr (inr (inl e)))))
      | inr (i, e, c) ↦
          let w : Volume = (create_entry v name false).1 in
          let s = c.tree.sound i in
          let wide : ((at w i).size + n) % 2 ^ 32 ≡ (at w i).size + n = omega (arith, s.fits) in
          elim (Bool-cases (leb max_file_size ((at w i).size + n))) [
            | inl big ↦
                rw (nz, path, e, append)
                  (rw (c.of_kind, wide, big)
                    (c.tree, too_big v w name i is_text path c text n t (ground arith)))
            | inr fits ↦
                let h : (at w i).size + n < max_file_size = ground arith in
                let sound = extended-IsSound (at w i) text n s h in
                let file : Entry = extended (at w i) text n in
                let r = extended_rest (at w i) text n in
                rw (nz, path, e, append)
                  (rw (c.of_kind, wide, fits)
                    (
                      stored-IsTree v w name i file t is_text path c sound r.0 r.1 r.2,
                      appends
                          (stored-contents v w name i file t is_text path c sound r.0 r.1 r.2
                            ∙ extended_bytes (at w i) text n s h given
                            ∙ ap (λ x. x ++ take n text) (sym (before v w name i is_text path c)))
                          (stored-read v w name i file t is_text path c sound r.0 r.1 r.2),
                    ))
          ]
    ]
  ]
]
