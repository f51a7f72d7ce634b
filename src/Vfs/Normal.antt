-- ===== src/Vfs/Normal.antt =====
-- The paths that `normalize_path` of kernel/vfs.c gives.
use mathlib.Core.List.{append_assoc, append-nil}
use pro_os.Prelude.{
  ℕ, ◌+◌, ◌<◌, ◌≤◌, ◌≡◌, ◌≢◌, inl, inr, refl, sym, ap, ◌∙◌, false, Option, none, some, List, [],
  ◌∷◌, ◌++◌, arith, leb, ltb, ◌==◌, length, length-append, Bool-cases,
}
use pro_os.Prelude.Arrays.{All}
use pro_os.Vfs.{slash, max_segments, segment, split, walk, onto, build, written, normalize}
use pro_os.Vfs.Names.{
  IsName, split-IsSegment, IsKept, walk-IsKept, walk_names, onto-onto, length-onto, onto-IsName,
  joined,
}

build-joined :
    (capacity : ℕ) (names : List (List ℕ)) (out q : List ℕ)
    → build capacity names out ≡ some q
    → length out < capacity
    → (q ≡ out ++ joined names) × (length q < capacity)
unfolding build joined
build-joined capacity [] out q e l = (ground (arith, append-nil out), ground (arith, e, l))
build-joined capacity (s ∷ names) out q e l =
    elim (Bool-cases (leb capacity (length out + length s + 1))) [
      | inl y ↦ absurd (ground (arith, e, y))
      | inr n ↦
          let r =
            build-joined capacity names (out ++ slash ∷ s) q (ground (arith, e, n))
              (ground (arith, n, length-append out (slash ∷ s))) in
          (r.0 ∙ append_assoc out (slash ∷ s) (joined names), r.1)
    ]

-- Reading the bytes of a segment.
split-append :
    (t s path : List ℕ) → All (λ c. c ≢ slash) t → split s (t ++ path) ≡ split (s ++ t) path
unfolding split
split-append [] s path h = ap (λ x. split x path) (sym (append-nil s))
split-append (c ∷ t) s path h =
    let n : (c == slash) ≡ false = ground (arith, h.0) in
    rw n
      (split-append t (s ++ c ∷ []) path h.1 ∙ ap (λ x. split x path) (append_assoc s (c ∷ []) t))

segment_full : (s : List ℕ) (rest : List (List ℕ)) → 0 < length s → segment s rest ≡ s ∷ rest
unfolding segment
segment_full [] rest h = absurd (omega arith)
segment_full (c ∷ s) rest h = refl

split-joined :
    (names : List (List ℕ)) (s : List ℕ)
    → All IsName names
    → 0 < length s
    → split s (joined names) ≡ s ∷ names
unfolding split joined
split-joined [] s h l = segment_full s [] l
split-joined (t ∷ names) s h l =
    segment_full s (split [] (t ++ joined names)) l
    ∙ ap (◌∷◌ s) (
        split-append t [] (joined names) h.0.is_segment.no_slash
        ∙ split-joined names t h.1 h.0.is_segment.full)

-- A path of names is read as these names.
normalize-joined :
    (capacity : ℕ) (names : List (List ℕ))
    → 2 ≤ capacity
    → 0 < length names
    → length names ≤ max_segments
    → All IsName names
    → normalize capacity (joined names) ≡ written capacity (some (onto names []))
unfolding normalize joined split segment
normalize-joined capacity [] c f l h = absurd (omega arith)
normalize-joined capacity (s ∷ names) c f l h =
    let room : ltb capacity 2 ≡ false = ground arith in
    rw room (
      ap (λ ss. written capacity (walk ss (some [])))
        (split-append s [] (joined names) h.0.is_segment.no_slash
          ∙ split-joined names s h.1 h.0.is_segment.full)
      ∙ ap (written capacity) (walk_names (s ∷ names) [] h (omega arith)))

-- The path of a list of names; that of none is the root.
unfoldable pub absolute : List (List ℕ) → List ℕ
unfolding joined
absolute [] = slash ∷ []
absolute (s ∷ names) = joined (s ∷ names)

absolute-joined : (names : List (List ℕ)) → 0 < length names → absolute names ≡ joined names
unfolding absolute
absolute-joined [] h = absurd (omega arith)
absolute-joined (s ∷ names) h = refl

-- What the result `q` of a normalisation is.
abbrev pub IsNormal : ℕ → List ℕ → Type 0
IsNormal capacity q =
    (names : List (List ℕ)) × All IsName names
    × (length names ≤ max_segments)
    × (q ≡ absolute names)
    × (length q < capacity)
    × (normalize capacity q ≡ some q)

normalize-root : (capacity : ℕ) → 2 ≤ capacity → normalize capacity (slash ∷ []) ≡ some (slash ∷ [])
unfolding normalize split segment walk written
normalize-root capacity c = let room : ltb capacity 2 ≡ false = ground arith in rw room refl

nothing-IsKept : IsKept (some [])
unfolding IsKept
nothing-IsKept = (tt, omega arith)

written-IsNormal :
    (capacity : ℕ) (o : Option (List (List ℕ))) (q : List ℕ)
    → 2 ≤ capacity
    → IsKept o
    → written capacity o ≡ some q
    → IsNormal capacity q
unfolding written IsKept absolute onto
written-IsNormal capacity none q c h e = absurd (ground (arith, e))
written-IsNormal capacity (some []) q c h e =
    let root : q ≡ slash ∷ [] = ground (arith, e) in
    rw root ([], tt, omega arith, refl, omega arith, normalize-root capacity c)
written-IsNormal capacity (some (s ∷ kept)) q c h e =
    let names : List (List ℕ) = onto (s ∷ kept) [] in
    let n : length names ≡ length (s ∷ kept) = omega (arith, length-onto (s ∷ kept) []) in
    let all = onto-IsName (s ∷ kept) [] h.0 tt in
    let b = build-joined capacity names [] q e (omega arith) in
    let back : onto names [] ≡ s ∷ kept = onto-onto (s ∷ kept) [] [] ∙ append-nil (s ∷ kept) in
    (
      names,
      all,
      omega (arith, n, h.1),
      b.0 ∙ sym (absolute-joined names (omega (arith, n))),
      b.1,
      ap (normalize capacity) b.0
          ∙ normalize-joined capacity names c (omega (arith, n)) (omega (arith, n, h.1)) all
          ∙ ap (λ ks. written capacity (some ks)) back
          ∙ e,
    )

-- A normal path fits its array and is "/" or names, at most 32, each behind a slash: it holds no empty
-- segment, no "." and no "..". Normalising it again gives the same.
pub normalize-IsNormal :
    (capacity : ℕ) (path q : List ℕ) → normalize capacity path ≡ some q → IsNormal capacity q
unfolding normalize
normalize-IsNormal capacity [] q e = absurd (ground (arith, e))
normalize-IsNormal capacity (c ∷ path) q e =
    let walked : Option (List (List ℕ)) = walk (split [] (c ∷ path)) (some []) in
    let large : ltb capacity 2 ≡ false = ground (arith, e) in
    let result : written capacity walked ≡ some q = ground (arith, e) in
    written-IsNormal capacity walked q (ground (arith, large))
      (walk-IsKept (split [] (c ∷ path)) (some []) (split-IsSegment (c ∷ path) [] tt)
        nothing-IsKept)
      result
