-- ===== src/Ramfs/Tree/Create.antt =====
-- kernel/ramfs.c: `create_entry` finds an entry of the kind that is wanted or adds one.
use pro_os.Prelude.{
  ℕ, ◌-◌, ◌<◌, ◌≡◌, ◌≢◌, refl, ap, sym, subst, ◌∙◌, Bool, true, false, not, ◌&&◌, ◌⊎◌, inl, inr,
  none, some, List, arith, ◌==◌, length, length-set, set, take_all, Bool-cases, Option-cases,
}
use pro_os.Prelude.Arrays.{find_index, find_index-Found, find_index-none}
use pro_os.Ramfs.{
  Volume, Entry, no_entry, max_name, same, path_is_valid, find_entry, has_parent, same_kind,
  new_entry, create_new, create_entry,
}
use pro_os.Ramfs.Text.{IsText, same_refl}
use pro_os.Ramfs.Paths.{IsRooted, HasDirectory, has_parent-IsRooted, find_entry-name}
use pro_os.Ramfs.Tree.{at, IsSound, IsTree, at-set, used-lt, IsRooted-map}

valid-short : (name : List ℕ) → path_is_valid name ≡ true → length name < max_name
unfolding path_is_valid
valid-short name h = ground arith

-- No entry has a name that `find_entry` does not find.
pub not_found :
    (v : Volume) (name : List ℕ) (i : ℕ)
    → find_entry v name ≡ none
    → (at v i).used ≡ true
    → (at v i).name ≢ name
unfolding find_entry
not_found v name i e u n =
    let f =
      find_index-none (λ (x : Entry). x.used && same x.name name) v i no_entry e (used-lt v i u) in
    absurd (ground (arith, f, u, same_refl name, ap (λ x. same x name) n))

-- A new entry in a free place.
module _ (v : Volume) (i : ℕ) (name : List ℕ) (directory : Bool) (t : IsTree v)
    (in_table : i < length v) (free_place : (at v i).used ≡ false) (text : IsText name)
    (path : path_is_valid name ≡ true) (absent : find_entry v name ≡ none)
    (rooted : IsRooted v name) where
  abbrev fresh : Entry
  fresh = new_entry (at v i) name directory

  fresh-name : fresh.name ≡ name
  unfolding new_entry
  fresh-name = take_all (max_name - 1) name (omega (arith, valid-short name path))

  fresh-IsSound : IsSound fresh
  unfolding new_entry
  fresh-IsSound = record {
    room = length-set (at v i).bytes 0 0 ∙ (t.sound i).room;
    fits = omega arith;
    is_text = λ u. subst IsText (sym fresh-name) text;
    is_path = λ u. ap path_is_valid fresh-name ∙ path;
  }

  elsewhere : (j : ℕ) → (at v j).used ≡ true → at (set v i fresh) j ≡ at v j
  elsewhere j u = ground (arith, at-set v i j fresh in_table, free_place, ap (λ n. (at v n).used))

  keeps : (p : List ℕ) → HasDirectory v p → HasDirectory (set v i fresh) p
  keeps p (j, u, d, n) =
      let e = elsewhere j u in
      (j, ap (λ x. x.used) e ∙ u, ap (λ x. x.is_directory) e ∙ d, ap (λ x. x.name) e ∙ n)

  at_self : at (set v i fresh) i ≡ fresh
  at_self = ground (arith, at-set v i i fresh in_table)

  -- An entry in use of the new volume is the new one or an old one.
  old_or_new :
      (j : ℕ)
      → (at (set v i fresh) j).used ≡ true
      → (i ≡ j) ⊎ (((at v j).used ≡ true) × (at (set v i fresh) j ≡ at v j))
  old_or_new j u = elim (Bool-cases (i == j)) [
    | inl s ↦ inl (ground arith)
    | inr d ↦
        let e : at (set v i fresh) j ≡ at v j = at-set v i j fresh in_table ∙ (rw d refl) in
        inr (sym (ap (λ x. x.used) e) ∙ u, e)
  ]

  fresh-IsTree : IsTree (set v i fresh)
  fresh-IsTree = record {
    room = length-set v i fresh ∙ t.room;
    sound = λ j. elim (Bool-cases (i == j)) [
      | inl eq ↦ rw (at-set v i j fresh in_table, eq) fresh-IsSound
      | inr ne ↦ rw (at-set v i j fresh in_table, ne) (t.sound j)
    ];
    closed = λ j u.
        IsRooted-map v (set v i fresh) (at (set v i fresh) j).name keeps (elim (old_or_new j u) [
          | inl eq ↦
              subst (λ n. IsRooted v (at (set v i fresh) n).name) eq
                (subst (IsRooted v) (sym (ap (λ x. x.name) at_self ∙ fresh-name)) rooted)
          | inr (w, e) ↦ subst (IsRooted v) (sym (ap (λ x. x.name) e)) (t.closed j w)
        ]);
    unique = λ j k u w n. elim (old_or_new j u) [
      | inl ij ↦ elim (old_or_new k w) [
        | inl ik ↦ sym ij ∙ ik
        | inr (wk, ek) ↦ absurd (
            not_found v name k absent wk (
              sym (ap (λ x. x.name) ek)
              ∙ sym n
              ∙ ap (λ m. (at (set v i fresh) m).name) (sym ij)
              ∙ ap (λ x. x.name) at_self
              ∙ fresh-name))
      ]
      | inr (uj, ej) ↦ elim (old_or_new k w) [
        | inl ik ↦ absurd (
            not_found v name j absent uj (
              sym (ap (λ x. x.name) ej)
              ∙ n
              ∙ ap (λ m. (at (set v i fresh) m).name) (sym ik)
              ∙ ap (λ x. x.name) at_self
              ∙ fresh-name))
        | inr (wk, ek) ↦ t.unique j k uj wk (sym (ap (λ x. x.name) ej) ∙ n ∙ ap (λ x. x.name) ek)
      ]
    ];
  }

-- What `create_entry` gives: nothing, and then it changes nothing, or an entry of the name and the kind,
-- one that was there or a new one without contents; every other entry stays.
pub record Created (v : Volume) (name : List ℕ) (directory : Bool) (w : Volume) (i : ℕ)
    : Type 0 where
  pub tree : IsTree w
  pub in_table : i < length w
  pub in_use : (at w i).used ≡ true
  pub named : (at w i).name ≡ name
  pub of_kind : (at w i).is_directory ≡ directory
  pub others : (j : ℕ) → (i == j) ≡ false → at w j ≡ at v j
  pub kept : (j : ℕ) → (at v j).used ≡ true → at w j ≡ at v j
  pub old_or_empty : (w ≡ v) ⊎ ((find_entry v name ≡ none) × ((at w i).size ≡ 0))

pub texts : (v : Volume) → IsTree v → (j : ℕ) → (at v j).used ≡ true → IsText (at v j).name
texts v t j u = (t.sound j).is_text u

same_kind_eq : (a b : Bool) → same_kind a b ≡ true → a ≡ b
same_kind_eq true b h = sym h
same_kind_eq false true h = ground arith
same_kind_eq false false h = refl

create_new_lem :
    (v : Volume) (name : List ℕ) (directory : Bool)
    → IsTree v
    → IsText name
    → path_is_valid name ≡ true
    → find_entry v name ≡ none
    → let (found, w) = create_new v name directory in
      ((found ≡ none) × (w ≡ v)) ⊎ ((i : ℕ) × (found ≡ some i) × Created v name directory w i)
unfolding create_new new_entry
create_new_lem v name directory t text path absent = elim (Bool-cases (has_parent v name)) [
  | inr no_parent ↦ rw no_parent (inl (refl, refl))
  | inl parent ↦ elim (Option-cases (find_index (λ (e : Entry). not e.used) v)) [
    | inl full ↦ rw (parent, full, create_new) (inl (refl, refl))
    | inr (i, e) ↦
        let f = find_index-Found (λ (x : Entry). not x.used) v i e in
        let free_place : (at v i).used ≡ false = ground (arith, f.passes no_entry) in
        let rooted = has_parent-IsRooted v name (texts v t) text parent in
        let l = f.in_table in
        let self = at_self v i name directory t l free_place text path absent rooted in
        rw (parent, e, create_new)
          (inr (
            i,
            refl,
            record {
              tree = fresh-IsTree v i name directory t l free_place text path absent rooted;
              in_table = omega (arith, length-set v i (new_entry (at v i) name directory), l);
              in_use = ap (λ x. x.used) self;
              named =
                  ap (λ x. x.name) self
                  ∙ fresh-name v i name directory t l free_place text path absent rooted;
              of_kind = ap (λ x. x.is_directory) self;
              others = λ j ne. at-set v i j (new_entry (at v i) name directory) l ∙ (rw ne refl);
              kept = elsewhere v i name directory t l free_place text path absent rooted;
              old_or_empty = inr (absent, ap (λ x. x.size) self);
            },
          ))
  ]
]

pub create_entry_lem :
    (v : Volume) (name : List ℕ) (directory : Bool)
    → IsTree v
    → IsText name
    → let (found, w) = create_entry v name directory in
      ((found ≡ none) × (w ≡ v)) ⊎ ((i : ℕ) × (found ≡ some i) × Created v name directory w i)
unfolding create_entry
create_entry_lem v name directory t text = elim (Bool-cases (path_is_valid name)) [
  | inr bad ↦ rw bad (inl (refl, refl))
  | inl path ↦ elim (Option-cases (find_entry v name)) [
    | inl absent ↦
        rw (path, absent, create_entry) (create_new_lem v name directory t text path absent)
    | inr (i, e) ↦
        let f = find_entry-name v name i (texts v t) text e in
        elim (Bool-cases (same_kind (at v i).is_directory directory)) [
          | inr other ↦ rw (path, e, create_entry) (rw other (inl (refl, refl)))
          | inl kind ↦
              rw (path, e, create_entry)
                (rw kind (
                  inr (
                    i,
                    refl,
                    record {
                      tree = t;
                      in_table = f.0;
                      in_use = f.1;
                      named = f.2;
                      of_kind = same_kind_eq (at v i).is_directory directory kind;
                      others = λ j ne. refl;
                      kept = λ j u. refl;
                      old_or_empty = inl refl;
                    },
                  )))
        ]
  ]
]
