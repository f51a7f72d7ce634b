-- ===== src/Ramfs/Paths.antt =====
-- kernel/ramfs.c: which paths lie below which, and the directories that `ensure_parent_directory`
-- asks for.
use pro_os.Prelude.{
  ℕ, zero, suc, ◌≤◌, ◌<◌, ◌≡◌, refl, ap, sym, ◌∙◌, true, ◌&&◌, ◌⊎◌, inl, inr, none, some, List, [],
  ◌∷◌, arith, length, length-take, get_or, take, Option-cases,
}
use pro_os.Prelude.Arrays.{get_or-take, find_index-Found}
use pro_os.Ramfs.{Volume, Entry, no_entry, slash, same, last_slash, below, find_entry, has_parent}
use pro_os.Ramfs.Text.{IsText, IsText-take, same_iff, starts_with-take, take-starts_with}

pub record IsBelow (dir name : List ℕ) : Type 0 where
  pub prefix : take (length dir) name ≡ dir
  pub longer : length dir < length name
  pub cut : get_or name (length dir) 0 ≡ slash

pub below-IsBelow : (dir name : List ℕ) → below dir name ≡ true → IsBelow dir name
unfolding below
below-IsBelow dir name h = record {
  prefix = starts_with-take name dir (ground arith);
  longer = ground arith;
  cut = ground arith;
}

pub IsBelow-below : (dir name : List ℕ) → IsBelow dir name → below dir name ≡ true
unfolding below
IsBelow-below dir name h = ground (arith, h.longer, h.cut, take-starts_with name dir h.prefix)

pub take-take {ℓ} : {A : Type ℓ} (i k : ℕ) (xs : List A) → i ≤ k → take i (take k xs) ≡ take i xs
take-take zero k xs h = refl
take-take (suc i) zero xs h = absurd (omega arith)
take-take (suc i) (suc k) [] h = refl
take-take (suc i) (suc k) (x ∷ xs) h = ap (◌∷◌ x) (take-take i k xs (omega arith))

-- The parent of a path is a directory that the path lies below, and lies below what its parent does.
module _ (name : List ℕ) (k : ℕ) (in_name : k < length name) (cut : get_or name k 0 ≡ slash) where
  length-parent : length (take k name) ≡ k
  length-parent = omega (arith, length-take k name)

  pub parent-IsBelow : IsBelow (take k name) name
  parent-IsBelow = record {
    prefix = ap (λ n. take n name) length-parent;
    longer = omega (arith, length-parent);
    cut = ap (λ n. get_or name n 0) length-parent ∙ cut;
  }

  pub parent-IsBelow_trans : (dir : List ℕ) → IsBelow dir (take k name) → IsBelow dir name
  parent-IsBelow_trans dir h =
      let l : length dir < k = omega (arith, h.longer, length-parent) in
      record {
        prefix = sym (take-take (length dir) k name (omega arith)) ∙ h.prefix;
        longer = omega arith;
        cut = sym (get_or-take name k (length dir) 0 l) ∙ h.cut;
      }

-- There is a directory with the path.
abbrev pub HasDirectory : Volume → List ℕ → Type 0
HasDirectory v path =
    (j : ℕ) × ((get_or v j no_entry).used ≡ true)
    × ((get_or v j no_entry).is_directory ≡ true)
    × ((get_or v j no_entry).name ≡ path)

-- The path has no slash, or its parent is a directory of the volume.
abbrev pub IsRooted : Volume → List ℕ → Type 0
IsRooted v name =
    (last_slash name 0 none ≡ none)
    ⊎ ((k : ℕ) × (last_slash name 0 none ≡ some k) × HasDirectory v (take k name))

-- What `find_entry` finds.
pub find_entry-name :
    (v : Volume) (name : List ℕ) (i : ℕ)
    → ((j : ℕ) → (get_or v j no_entry).used ≡ true → IsText (get_or v j no_entry).name)
    → IsText name
    → find_entry v name ≡ some i
    → (i < length v) × ((get_or v i no_entry).used ≡ true) × ((get_or v i no_entry).name ≡ name)
unfolding find_entry
find_entry-name v name i texts t e =
    let f = find_index-Found (λ (x : Entry). x.used && same x.name name) v i e in
    let passes = f.passes no_entry in
    let used : (get_or v i no_entry).used ≡ true = ground arith in
    (f.in_table, used, (same_iff (get_or v i no_entry).name name (texts i used) t).0 (ground arith))

-- A path that `ensure_parent_directory` accepts is rooted.
pub has_parent-IsRooted :
    (v : Volume) (name : List ℕ)
    → ((j : ℕ) → (get_or v j no_entry).used ≡ true → IsText (get_or v j no_entry).name)
    → IsText name
    → has_parent v name ≡ true
    → IsRooted v name
unfolding has_parent
has_parent-IsRooted v name texts t h = elim (Option-cases (last_slash name 0 none)) [
  | inl e ↦ inl e
  | inr (k, e) ↦ elim (Option-cases (find_entry v (take k name))) [
    | inl f ↦ absurd (ground (arith, e, f))
    | inr (j, f) ↦
        let n = find_entry-name v (take k name) j texts (IsText-take k name t) f in
        inr (k, e, (j, n.1, ground (arith, e, f), n.2))
  ]
]
