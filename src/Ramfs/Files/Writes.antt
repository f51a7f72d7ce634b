-- ===== src/Ramfs/Files/Writes.antt =====
-- kernel/ramfs.c: `ramfs_volume_write` and `ramfs_volume_append` against the contents of the files.
use pro_os.Prelude.{
  ℕ, ◌-◌, ◌≤◌, ◌<◌, ◌≡◌, ◌≢◌, refl, ap, sym, ◌∙◌, true, false, ◌⊎◌, inl, inr, none, some, List,
  arith, leb, ◌==◌, length, length-set, set, take, Bool-cases, min,
}
use pro_os.Prelude.Arrays.{take-set_ge}
use pro_os.Prelude.Blocks.{copy, length-copy, take-copy}
use pro_os.Prelude.Int.{ℤ, pos, failure}
use pro_os.Ramfs.{
  Volume, Entry, max_file_size, path_is_valid, read, create_entry, overwritten, write,
}
use pro_os.Ramfs.Text.{IsText}
use pro_os.Ramfs.Tree.{at, IsSound, IsTree, at-set, set-IsTree}
use pro_os.Ramfs.Tree.Create.{Created, create_entry_lem}
use pro_os.Ramfs.Files.{contents, contents-at, Agree, read-Agree}

-- An entry with other contents in a volume that `create_entry` left.
module _ (v w : Volume) (name : List ℕ) (i : ℕ) (e : Entry) (t : IsTree v) (text : IsText name)
    (path : path_is_valid name ≡ true) (c : Created v name false w i) (sound : IsSound e)
    (same_use : e.used ≡ (at w i).used) (same_name : e.name ≡ (at w i).name)
    (same_kind : e.is_directory ≡ (at w i).is_directory) where
  at_self : at (set w i e) i ≡ e
  at_self = ground (arith, at-set w i i e c.in_table)

  pub stored-IsTree : IsTree (set w i e)
  stored-IsTree = set-IsTree w i e c.tree c.in_table sound same_use same_name same_kind

  pub stored-contents : contents (set w i e) name ≡ take e.size e.bytes
  stored-contents =
      contents-at (set w i e) name i stored-IsTree text path
        (ap (λ x. x.used) at_self ∙ same_use ∙ c.in_use)
        (ap (λ x. x.name) at_self ∙ same_name ∙ c.named)
        (ap (λ x. x.is_directory) at_self ∙ same_kind ∙ c.of_kind)
      ∙ ap (λ (x : Entry). take x.size x.bytes) at_self

  -- Other paths have the same entries as before.
  stored-Agree : (other : List ℕ) → other ≢ name → Agree v (set w i e) other
  stored-Agree other ne = record {
    there = λ j u n. elim (Bool-cases (i == j)) [
      | inl s ↦
          let ij : i ≡ j = ground arith in
          absurd (
            ne (
              sym n
              ∙ sym (ap (λ x. x.name) (c.kept j u))
              ∙ ap (λ k. (at w k).name) (sym ij)
              ∙ c.named))
      | inr d ↦ rw (at-set w i j e c.in_table, d) (c.kept j u)
    ];
    back = λ j u n. elim (Bool-cases (i == j)) [
      | inl s ↦
          let ij : i ≡ j = ground arith in
          absurd (
            ne (
              sym n
              ∙ ap (λ k. (at (set w i e) k).name) (sym ij)
              ∙ ap (λ x. x.name) at_self
              ∙ same_name
              ∙ c.named))
      | inr d ↦ sym (c.others j d) ∙ sym (at-set w i j e c.in_table ∙ (rw d refl))
    ];
  }

  pub stored-read :
      (other : List ℕ) (out_size : ℕ)
      → IsText other
      → other ≢ name
      → read (set w i e) other out_size ≡ read v other out_size
  stored-read other out_size o ne =
      read-Agree v (set w i e) other out_size t stored-IsTree o (stored-Agree other ne)

-- How `ramfs_volume_write` ends where `data` is not NULL.
pub data Writes (v : Volume) (name text : List ℕ) (n : ℕ) : ℤ × Volume → Type 0 where
  not_written :
      (path_is_valid name ≡ false) ⊎ ((create_entry v name false).0 ≡ none)
      → Writes v name text n (failure, v)
  writes :
      {w : Volume}
      → contents w name ≡ take (min n (max_file_size - 1)) text
      → ((other : List ℕ) (out_size : ℕ)
          → IsText other
          → other ≢ name
          → read w other out_size ≡ read v other out_size)
      → Writes v name text n (pos (min n (max_file_size - 1)), w)

-- The entry that `ramfs_volume_write` stores.
module _ (e : Entry) (text : List ℕ) (n : ℕ) (s : IsSound e) where
  abbrev stored : ℕ → Entry
  stored size = record e { size = size; bytes = set (copy e.bytes text size) size 0 }

  overwritten-some :
      overwritten e (some text) n
      ≡ (pos (min n (max_file_size - 1)), stored (min n (max_file_size - 1)))
  unfolding overwritten
  overwritten-some = elim (Bool-cases (leb max_file_size n)) [
    | inl big ↦ let m : min n 1023 ≡ 1023 = ground arith in rw (big, m) refl
    | inr small ↦ let m : min n 1023 ≡ n = ground arith in rw (small, m) refl
  ]

  stored-IsSound : (size : ℕ) → size < max_file_size → IsSound (stored size)
  stored-IsSound size h = record {
    room = length-set (copy e.bytes text size) size 0 ∙ length-copy e.bytes text size ∙ s.room;
    fits = h;
    is_text = s.is_text;
    is_path = s.is_path;
  }

  stored_bytes :
      (size : ℕ)
      → size < max_file_size
      → size ≤ length text
      → take size (stored size).bytes ≡ take size text
  stored_bytes size h k =
      take-set_ge (copy e.bytes text size) size size 0 (omega arith)
      ∙ take-copy e.bytes text size (omega (arith, s.room)) k

-- `ramfs_volume_write` fails without a change, or replaces the contents of the file by at most 1023 bytes of the
-- text and returns their number; other files read as before, and the volume is still a tree.
pub write_lem :
    (v : Volume) (name text : List ℕ) (n : ℕ)
    → IsTree v
    → IsText name
    → n ≤ length text
    → let r = write v name (some text) n in IsTree r.1 × Writes v name text n r
unfolding write
write_lem v name text n t is_text given = elim (Bool-cases (path_is_valid name)) [
  | inr bad ↦ rw bad (t, not_written (inl bad))
  | inl path ↦ elim (create_entry_lem v name false t is_text) [
    | inl (e, same) ↦ rw (path, e, write) (rw same (t, not_written (inr e)))
    | inr (i, e, c) ↦
        let w : Volume = (create_entry v name false).1 in
        let size : ℕ = min n (max_file_size - 1) in
        let h : size < max_file_size = omega arith in
        let sound = stored-IsSound (at w i) text n (c.tree.sound i) size h in
        let file : Entry = stored (at w i) text n (c.tree.sound i) size in
        rw (path, e, write)
          (rw (c.of_kind, overwritten-some (at w i) text n (c.tree.sound i))
            (
              stored-IsTree v w name i file t is_text path c sound refl refl refl,
              writes
                  (stored-contents v w name i file t is_text path c sound refl refl refl
                    ∙ stored_bytes (at w i) text n (c.tree.sound i) size h (omega (arith, given)))
                  (stored-read v w name i file t is_text path c sound refl refl refl),
            ))
  ]
]
