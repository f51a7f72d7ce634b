-- ===== src/Ramfs/Tree.antt =====
-- kernel/ramfs.c: the entries of a volume form a tree: paths are valid and stand once, and every
-- path's parent is a directory.
pub mod Create
pub mod Remove
use pro_os.Prelude.{
  ℕ, zero, suc, ◌+◌, ◌≤◌, ◌<◌, ◌≡◌, ◌≢◌, refl, ap, sym, ◌∙◌, Bool, true, false, ◌⊎◌, inl, inr,
  Option, none, some, List, [], ◌∷◌, arith, ◌==◌, if◌then◌else◌, length, length-set, get_or, set,
  Bool-cases, get_or-set_self, get_or-set_ne,
}
use pro_os.Ramfs.{Volume, Entry, no_entry, max_files, max_file_size, path_is_valid}
use pro_os.Ramfs.Text.{IsText}
use pro_os.Ramfs.Paths.{IsRooted, HasDirectory}

abbrev pub at : Volume → ℕ → Entry
at v i = get_or v i no_entry

pub record IsSound (e : Entry) : Type 0 where
  pub room : length e.bytes ≡ max_file_size
  pub fits : e.size < max_file_size
  pub is_text : e.used ≡ true → IsText e.name
  pub is_path : e.used ≡ true → path_is_valid e.name ≡ true

pub record IsTree (v : Volume) : Type 0 where
  pub room : length v ≡ max_files
  pub sound : (i : ℕ) → IsSound (at v i)
  pub closed : (i : ℕ) → (at v i).used ≡ true → IsRooted v (at v i).name
  pub unique :
      (i j : ℕ)
      → (at v i).used ≡ true
      → (at v j).used ≡ true
      → (at v i).name ≡ (at v j).name
      → i ≡ j

pub at-set :
    (v : Volume) (i j : ℕ) (e : Entry)
    → i < length v
    → at (set v i e) j ≡ (if i == j then e else at v j)
at-set v i j e h = elim (Bool-cases (i == j)) [
  | inl s ↦
      let k : i ≡ j = ground arith in
      rw s (ap (λ n. at (set v i e) n) (sym k) ∙ get_or-set_self v i e no_entry h)
  | inr d ↦ rw d (get_or-set_ne v i j e no_entry (λ k. ground arith))
]

pub used-lt : (v : Volume) (i : ℕ) → (at v i).used ≡ true → i < length v
unfolding no_entry
used-lt [] i h = ground arith
used-lt (e ∷ v) zero h = omega arith
used-lt (e ∷ v) (suc i) h = omega (arith, used-lt v i h)

-- A directory of the one volume is one of the other, if all entries are.
pub IsRooted-map :
    (v w : Volume) (name : List ℕ)
    → ((path : List ℕ) → HasDirectory v path → HasDirectory w path)
    → IsRooted v name
    → IsRooted w name
IsRooted-map v w name f (inl e) = inl e
IsRooted-map v w name f (inr (k, e, d)) = inr (k, e, f _ d)

-- Other contents in an entry leave the tree as it is.
module _ (v : Volume) (i : ℕ) (e : Entry) (t : IsTree v) (in_table : i < length v) (s : IsSound e)
    (same_use : e.used ≡ (at v i).used) (same_name : e.name ≡ (at v i).name)
    (same_kind : e.is_directory ≡ (at v i).is_directory) where
  used-set : (j : ℕ) → (at (set v i e) j).used ≡ (at v j).used
  used-set j = ground (arith, at-set v i j e in_table)

  pub name-set : (j : ℕ) → (at (set v i e) j).name ≡ (at v j).name
  name-set j = ground (arith, at-set v i j e in_table)

  is_directory-set : (j : ℕ) → (at (set v i e) j).is_directory ≡ (at v j).is_directory
  is_directory-set j = ground (arith, at-set v i j e in_table)

  keeps : (path : List ℕ) → HasDirectory v path → HasDirectory (set v i e) path
  keeps path (j, u, d, n) = (j, used-set j ∙ u, is_directory-set j ∙ d, name-set j ∙ n)

  pub set-IsTree : IsTree (set v i e)
  set-IsTree = record {
    room = length-set v i e ∙ t.room;
    sound = λ j. elim (Bool-cases (i == j)) [
      | inl eq ↦ rw (at-set v i j e in_table, eq) s
      | inr ne ↦ rw (at-set v i j e in_table, ne) (t.sound j)
    ];
    closed = λ j u.
        rw (name-set j)
          (IsRooted-map v (set v i e) (at v j).name keeps (t.closed j (sym (used-set j) ∙ u)));
    unique = λ j k u w n.
        t.unique j k (sym (used-set j) ∙ u) (sym (used-set k) ∙ w)
          (sym (name-set j) ∙ n ∙ name-set k);
  }
