-- ===== src/Ramfs/Tree/Remove.antt =====
-- kernel/ramfs.c: `ramfs_volume_remove` takes out a path and everything below it.
use pro_os.Prelude.{
  ℕ, zero, suc, ◌<◌, ◌≡◌, refl, ap, sym, subst, ◌∙◌, Bool, true, false, ◌&&◌, ◌||◌, ◌⊎◌, inl, inr,
  none, some, List, [], ◌∷◌, arith, ◌==◌, if◌then◌else◌, length, length-set, length-map, get_or,
  set, take, map, Bool-cases, Option-cases,
}
use pro_os.Prelude.Int.{ℤ, failure, success}
use pro_os.Ramfs.{
  Volume, Entry, no_entry, max_file_size, path_is_valid, find_entry, last_slash, slash, below, free,
  free_below, remove,
}
use pro_os.Ramfs.Text.{IsText, last_slash_at}
use pro_os.Ramfs.Paths.{
  IsBelow, below-IsBelow, IsBelow-below, parent-IsBelow, parent-IsBelow_trans, IsRooted,
  find_entry-name,
}
use pro_os.Ramfs.Tree.{at, IsSound, IsTree, at-set}
use pro_os.Ramfs.Tree.Create.{texts}

pub free_unused : (e : Entry) → (free e).used ≡ false
unfolding free
free_unused e = refl

pub free_entry-IsSound : (e : Entry) → length e.bytes ≡ max_file_size → IsSound (free e)
unfolding free
free_entry-IsSound e room = record {
  room = length-set e.bytes 0 0 ∙ room;
  fits = omega arith;
  is_text = λ u. ground arith;
  is_path = λ u. ground arith;
}

free-IsSound : (e : Entry) → IsSound e → IsSound (free e)
free-IsSound e s = free_entry-IsSound e s.room

pub at-map :
    (f : Entry → Entry) (v : Volume) (i : ℕ) → f no_entry ≡ no_entry → at (map f v) i ≡ f (at v i)
at-map f [] i h = sym h
at-map f (e ∷ v) zero h = refl
at-map f (e ∷ v) (suc i) h = at-map f v i h

-- The volume after the removal of the path at `i`.
abbrev pub pruned : Volume → List ℕ → ℕ → Volume
pruned v name i =
    let w = set v i (free (at v i)) in if (at v i).is_directory then map (free_below name) w else w

-- Whether the entry `j` goes with the path at `i`.
abbrev pub is_gone : Volume → List ℕ → ℕ → ℕ → Bool
is_gone v name i j =
    (i == j) || ((at v i).is_directory && ((at v j).used && below name (at v j).name))

module _ (v : Volume) (name : List ℕ) (i : ℕ) (t : IsTree v) (in_table : i < length v)
    (named : (at v i).name ≡ name) where
  abbrev gone : ℕ → Bool
  gone j = is_gone v name i j

  no_entry_stays : free_below name no_entry ≡ no_entry
  unfolding free_below no_entry
  no_entry_stays = refl

  abbrev w : Volume
  w = set v i (free (at v i))

  at-pruned :
      (j : ℕ)
      → at (pruned v name i) j
        ≡ (if (at v i).is_directory then free_below name (at w j) else at w j)
  at-pruned j = elim (Bool-cases (at v i).is_directory) [
    | inl d ↦ rw d (at-map (free_below name) w j no_entry_stays)
    | inr f ↦ rw f refl
  ]

  pruned-gone : (j : ℕ) → gone j ≡ true → (at (pruned v name i) j).used ≡ false
  unfolding free_below
  pruned-gone j g = ground (
    arith,
    at-pruned j,
    at-set v i j (free (at v i)) in_table,
    free_unused (at v i),
    free_unused (at v j),
  )

  pruned-kept : (j : ℕ) → gone j ≡ false → at (pruned v name i) j ≡ at v j
  unfolding free_below
  pruned-kept j g = ground (arith, at-pruned j, at-set v i j (free (at v i)) in_table)

  w-IsSound : (j : ℕ) → IsSound (at w j)
  w-IsSound j = elim (Bool-cases (i == j)) [
    | inl s ↦ rw (at-set v i j (free (at v i)) in_table, s) (free-IsSound (at v i) (t.sound i))
    | inr d ↦ rw (at-set v i j (free (at v i)) in_table, d) (t.sound j)
  ]

  pruned-IsSound : (j : ℕ) → IsSound (at (pruned v name i) j)
  unfolding free_below
  pruned-IsSound j = subst IsSound (sym (at-pruned j)) (elim (Bool-cases (at v i).is_directory) [
    | inr f ↦ rw f (w-IsSound j)
    | inl d ↦ rw d (elim (Bool-cases ((at w j).used && below name (at w j).name)) [
      | inl b ↦ rw b (free-IsSound (at w j) (w-IsSound j))
      | inr n ↦ rw n (w-IsSound j)
    ])
  ])

  used_kept : (j : ℕ) → (at (pruned v name i) j).used ≡ true → gone j ≡ false
  used_kept j u = elim (Bool-cases (gone j)) [
    | inr k ↦ k
    | inl g ↦ absurd (ground (arith, pruned-gone j g))
  ]

  -- The parent of an entry that stays, stays.
  parent_kept :
      (j d k : ℕ)
      → gone j ≡ false
      → (at v j).used ≡ true
      → last_slash (at v j).name 0 none ≡ some k
      → (at v d).is_directory ≡ true
      → (at v d).name ≡ take k (at v j).name
      → gone d ≡ false
  parent_kept j d k stays used e dir n = elim (last_slash_at (at v j).name 0 k none e) [
    | inl h ↦ ground arith
    | inr (m, km, l, cut) ↦
        let in_name : k < length (at v j).name = omega (arith, km, l) in
        let at_slash : get_or (at v j).name k 0 ≡ slash =
          ap (λ x. get_or (at v j).name x 0) (omega (arith, km)) ∙ cut in
        elim (Bool-cases (gone d)) [
          | inr ok ↦ ok
          | inl g ↦
              let b : below name (at v j).name ≡ true =
                IsBelow-below name (at v j).name (elim (Bool-cases (i == d)) [
                  | inl s ↦
                      let id : i ≡ d = ground arith in
                      let p : name ≡ take k (at v j).name =
                        sym named ∙ ap (λ x. (at v x).name) id ∙ n in
                      subst (λ x. IsBelow x (at v j).name) (sym p)
                        (parent-IsBelow (at v j).name k in_name at_slash)
                  | inr ne ↦
                      let under : below name (at v d).name ≡ true = ground arith in
                      parent-IsBelow_trans (at v j).name k in_name at_slash name
                        (subst (IsBelow name) n (below-IsBelow name (at v d).name under))
                ]) in
              ground (arith, ap (λ x. (at v x).is_directory) {x = i} {y = d})
        ]
  ]

  length-pruned : length (pruned v name i) ≡ length v
  length-pruned = elim (Bool-cases (at v i).is_directory) [
    | inl d ↦ rw d (length-map w (free_below name) ∙ length-set v i (free (at v i)))
    | inr f ↦ rw f (length-set v i (free (at v i)))
  ]

  pruned-IsRooted :
      (j : ℕ) → gone j ≡ false → (at v j).used ≡ true → IsRooted (pruned v name i) (at v j).name
  pruned-IsRooted j stays u = elim (t.closed j u) [
    | inl e ↦ inl e
    | inr (k, e, (d, ud, dir, n)) ↦
        let same = pruned-kept d (parent_kept j d k stays u e dir n) in
        inr (
          k,
          e,
          (
            d,
            ap (λ x. x.used) same ∙ ud,
            ap (λ x. x.is_directory) same ∙ dir,
            ap (λ x. x.name) same ∙ n,
          ),
        )
  ]

  pruned-IsTree : IsTree (pruned v name i)
  pruned-IsTree = record {
    room = length-pruned ∙ t.room;
    sound = pruned-IsSound;
    closed = λ j u.
        let g = used_kept j u in
        let same = pruned-kept j g in
        rw same (pruned-IsRooted j g (sym (ap (λ x. x.used) same) ∙ u));
    unique = λ j k u x n.
        let sj = pruned-kept j (used_kept j u) in
        let sk = pruned-kept k (used_kept k x) in
        t.unique j k (sym (ap (λ e. e.used) sj) ∙ u) (sym (ap (λ e. e.used) sk) ∙ x)
          (sym (ap (λ e. e.name) sj) ∙ n ∙ ap (λ e. e.name) sk);
  }

-- An entry goes with the path at `i` if it is that entry, or lies below it in a directory.
abbrev pub Goes : Volume → List ℕ → ℕ → ℕ → Type 0
Goes v name i j =
    (i ≡ j) ⊎ (((at v i).is_directory ≡ true) × ((at v j).used ≡ true) × IsBelow name (at v j).name)

Goes-is_gone : (v : Volume) (name : List ℕ) (i j : ℕ) → Goes v name i j → is_gone v name i j ≡ true
Goes-is_gone v name i j (inl e) = ground arith
Goes-is_gone v name i j (inr (d, u, b)) = ground (arith, d, u, IsBelow-below name (at v j).name b)

is_gone-Goes : (v : Volume) (name : List ℕ) (i j : ℕ) → is_gone v name i j ≡ true → Goes v name i j
is_gone-Goes v name i j g = elim (Bool-cases (i == j)) [
  | inl e ↦ inl (ground arith)
  | inr n ↦ inr (ground arith, ground arith, below-IsBelow name (at v j).name (ground arith))
]

-- How `ramfs_volume_remove` ends.
pub data Removes (v : Volume) (name : List ℕ) : ℤ × Volume → Type 0 where
  missing : (path_is_valid name ≡ false) ⊎ (find_entry v name ≡ none) → Removes v name (failure, v)
  removes :
      (i : ℕ) {w : Volume}
      → (at v i).used ≡ true
      → (at v i).name ≡ name
      → ((j : ℕ) → Goes v name i j → (at w j).used ≡ false)
      → ((j : ℕ) → ¬ Goes v name i j → at w j ≡ at v j)
      → Removes v name (success, w)

-- `ramfs_volume_remove` fails only for a bad or a missing path, and then changes nothing; otherwise the entry of
-- the path is free, and if it is a directory all entries below it are, while every other entry stays,
-- and the volume is still a tree.
pub remove_lem :
    (v : Volume) (name : List ℕ)
    → IsTree v
    → IsText name
    → IsTree (remove v name).1 × Removes v name (remove v name)
unfolding remove
remove_lem v name t text = elim (Bool-cases (path_is_valid name)) [
  | inr bad ↦ rw bad (t, missing (inl bad))
  | inl path ↦ elim (Option-cases (find_entry v name)) [
    | inl absent ↦ rw (path, absent, remove) (t, missing (inr absent))
    | inr (i, e) ↦
        let f = find_entry-name v name i (texts v t) text e in
        rw (path, e, remove)
          (
            pruned-IsTree v name i t f.0 f.2,
            removes i f.1 f.2 (λ j g. pruned-gone v name i t f.0 f.2 j (Goes-is_gone v name i j g))
                (λ j n. pruned-kept v name i t f.0 f.2 j (elim (Bool-cases (is_gone v name i j)) [
                  | inl g ↦ absurd (n (is_gone-Goes v name i j g))
                  | inr k ↦ k
                ])),
          )
  ]
]
