-- ===== src/Ramfs/Files.antt =====
-- kernel/ramfs.c: what is read after a write, and that every call leaves a tree.
pub mod Writes
pub mod Appends
pub mod Calls
use pro_os.Prelude.{
  ℕ, zero, suc, ◌+◌, ◌-◌, ◌≤◌, ◌<◌, ◌≡◌, ◌≢◌, refl, ap, sym, subst, ◌∙◌, Bool, true, false, not,
  ◌&&◌, ◌||◌, ◌⊎◌, inl, inr, Option, none, some, List, [], ◌∷◌, arith, leb, ◌==◌, if◌then◌else◌,
  length, length-set, get_or, set, take, Bool-cases, Option-cases,
}
use pro_os.Prelude.Int.{ℤ, pos, failure, success}
use pro_os.Ramfs.{Volume, Entry, no_entry, max_file_size, path_is_valid, find_entry, read}
use pro_os.Ramfs.Text.{IsText}
use pro_os.Ramfs.Paths.{find_entry-name}
use pro_os.Ramfs.Tree.{at, IsSound, IsTree, at-set}
use pro_os.Ramfs.Tree.Create.{texts, not_found}

-- All that can be read of a file; nothing, where there is none.
abbrev pub contents : Volume → List ℕ → List ℕ
contents v name = (read v name max_file_size).1

read-at :
    (v : Volume) (name : List ℕ) (i out_size : ℕ)
    → find_entry v name ≡ some i
    → path_is_valid name ≡ true
    → (at v i).is_directory ≡ false
    → (at v i).size < out_size
    → read v name out_size ≡ (pos (at v i).size, take (at v i).size (at v i).bytes)
unfolding read
read-at v name i out_size e p d h =
    let small : leb out_size (at v i).size ≡ false = ground arith in
    let some_room : (out_size == 0) ≡ false = ground arith in
    rw (some_room, p, e, read) (rw (d, small) refl)

read_absent :
    (v : Volume) (name : List ℕ) (out_size : ℕ)
    → find_entry v name ≡ none
    → read v name out_size ≡ (failure, [])
unfolding read
read_absent v name out_size e = elim (Bool-cases ((out_size == 0) || not (path_is_valid name))) [
  | inl b ↦ rw b refl
  | inr p ↦ rw (p, e, read) refl
]

-- The entry of a path in use is the one that is found.
pub found_at :
    (v : Volume) (name : List ℕ) (i : ℕ)
    → IsTree v
    → IsText name
    → (at v i).used ≡ true
    → (at v i).name ≡ name
    → find_entry v name ≡ some i
found_at v name i t text u n = elim (Option-cases (find_entry v name)) [
  | inl absent ↦ absurd (not_found v name i absent u n)
  | inr (j, e) ↦
      let f = find_entry-name v name j (texts v t) text e in
      e ∙ ap some (t.unique j i f.1 u (f.2 ∙ sym n))
]

pub contents-at :
    (v : Volume) (name : List ℕ) (i : ℕ)
    → IsTree v
    → IsText name
    → path_is_valid name ≡ true
    → (at v i).used ≡ true
    → (at v i).name ≡ name
    → (at v i).is_directory ≡ false
    → contents v name ≡ take (at v i).size (at v i).bytes
contents-at v name i t text p u n d = ap (λ r. r.1) whole
  where
    whole : read v name max_file_size ≡ (pos (at v i).size, take (at v i).size (at v i).bytes)
    whole = read-at v name i max_file_size (found_at v name i t text u n) p d (t.sound i).fits

pub contents_absent : (v : Volume) (name : List ℕ) → find_entry v name ≡ none → contents v name ≡ []
contents_absent v name e = ap (λ r. r.1) (read_absent v name max_file_size e)

-- Two volumes have the same entry of a path.
pub record Agree (v w : Volume) (name : List ℕ) : Type 0 where
  pub there : (j : ℕ) → (at v j).used ≡ true → (at v j).name ≡ name → at w j ≡ at v j
  pub back : (j : ℕ) → (at w j).used ≡ true → (at w j).name ≡ name → at v j ≡ at w j

pub read-Agree :
    (v w : Volume) (name : List ℕ) (out_size : ℕ)
    → IsTree v
    → IsTree w
    → IsText name
    → Agree v w name
    → read w name out_size ≡ read v name out_size
unfolding read
read-Agree v w name out_size t s text a = elim (Option-cases (find_entry v name)) [
  | inr (i, e) ↦
      let f = find_entry-name v name i (texts v t) text e in
      let same = a.there i f.1 f.2 in
      let g =
        found_at w name i s text (ap (λ x. x.used) same ∙ f.1) (ap (λ x. x.name) same ∙ f.2) in
      rw (e, g, read) (rw same refl)
  | inl e ↦ elim (Option-cases (find_entry w name)) [
    | inl g ↦ rw (e, g, read) refl
    | inr (j, g) ↦
        let f = find_entry-name w name j (texts w s) text g in
        let same = a.back j f.1 f.2 in
        absurd (not_found v name j e (ap (λ x. x.used) same ∙ f.1) (ap (λ x. x.name) same ∙ f.2))
  ]
]
