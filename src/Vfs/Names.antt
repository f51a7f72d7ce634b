-- ===== src/Vfs/Names.antt =====
-- The names that `normalize_path` of kernel/vfs.c keeps of a path.
use pro_os.Prelude.{
  ℕ, ◌+◌, ◌<◌, ◌≤◌, ◌≡◌, ◌≢◌, inl, inr, refl, ap, ◌∙◌, false, Option, none, some, List, [], ◌∷◌,
  ◌++◌, arith, leb, ◌==◌, length, drop, Bool-cases,
}
use pro_os.Prelude.Arrays.{All, All-append}
use pro_os.Vfs.{slash, max_segments, segment, split, is_dot, is_dot_dot, step, walk, onto}

-- A segment is a text that is not empty and holds no slash; a name is neither "." nor "..".
pub record IsSegment (s : List ℕ) : Type 0 where
  pub full : 0 < length s
  pub no_slash : All (λ c. c ≢ slash) s

pub record IsName (s : List ℕ) : Type 0 where
  pub is_segment : IsSegment s
  pub no_dot : is_dot s ≡ false
  pub no_dot_dot : is_dot_dot s ≡ false

segment-IsSegment :
    (s : List ℕ) (rest : List (List ℕ))
    → All (λ c. c ≢ slash) s
    → All IsSegment rest
    → All IsSegment (segment s rest)
unfolding segment
segment-IsSegment [] rest h k = k
segment-IsSegment (c ∷ s) rest h k = (record { full = omega arith; no_slash = h }, k)

pub split-IsSegment : (path s : List ℕ) → All (λ c. c ≢ slash) s → All IsSegment (split s path)
unfolding split
split-IsSegment [] s h = segment-IsSegment s [] h tt
split-IsSegment (c ∷ path) s h = elim (Bool-cases (c == slash)) [
  | inl y ↦ rw y (segment-IsSegment s (split [] path) h (split-IsSegment path [] tt))
  | inr n ↦ rw n (
      split-IsSegment path (s ++ c ∷ [])
        (All-append (λ x. x ≢ slash) s (c ∷ []) h (ground (arith, n), tt)))
]

drop-IsName : (kept : List (List ℕ)) → All IsName kept → All IsName (drop 1 kept)
drop-IsName [] h = tt
drop-IsName (s ∷ kept) h = h.1

length-drop_le : (kept : List (List ℕ)) → length (drop 1 kept) ≤ length kept
length-drop_le [] = omega arith
length-drop_le (s ∷ kept) = omega arith

-- The kept segments are names, at most 32.
unfoldable pub IsKept : Option (List (List ℕ)) → Type 0
IsKept none = Unit
IsKept (some kept) = All IsName kept × (length kept ≤ max_segments)

step-IsKept :
    (s : List ℕ) (kept : List (List ℕ))
    → IsSegment s
    → All IsName kept
    → length kept ≤ max_segments
    → IsKept (step s kept)
unfolding IsKept step
step-IsKept s kept g h l = elim (Bool-cases (is_dot s)) [
  | inl y ↦ rw y (h, l)
  | inr n ↦ elim (Bool-cases (is_dot_dot s)) [
    | inl y ↦ rw (n, y) (drop-IsName kept h, omega (arith, length-drop_le kept))
    | inr m ↦ elim (Bool-cases (leb max_segments (length kept))) [
      | inl y ↦ rw (n, m, y) tt
      | inr k ↦
          rw (n, m, k)
            ((record { is_segment = g; no_dot = n; no_dot_dot = m }, h), ground (arith, k))
    ]
  ]
]

pub walk-IsKept :
    (segments : List (List ℕ)) (o : Option (List (List ℕ)))
    → All IsSegment segments
    → IsKept o
    → IsKept (walk segments o)
unfolding walk IsKept
walk-IsKept [] none g h = tt
walk-IsKept (s ∷ segments) none g h = tt
walk-IsKept [] (some kept) g h = h
walk-IsKept (s ∷ segments) (some kept) g h =
    walk-IsKept segments (step s kept) g.1 (step-IsKept s kept g.0 h.0 h.1)

step_name :
    (s : List ℕ) (kept : List (List ℕ))
    → IsName s
    → length kept < max_segments
    → step s kept ≡ some (s ∷ kept)
unfolding step
step_name s kept h l =
    let room : leb max_segments (length kept) ≡ false = ground arith in
    rw (h.no_dot, h.no_dot_dot, room) refl

-- Names are all kept.
pub walk_names :
    (names kept : List (List ℕ))
    → All IsName names
    → length names + length kept ≤ max_segments
    → walk names (some kept) ≡ some (onto names kept)
unfolding walk onto
walk_names [] kept h l = refl
walk_names (s ∷ names) kept h l =
    ap (walk names) (step_name s kept h.0 (omega arith))
    ∙ walk_names names (s ∷ kept) h.1 (omega arith)

pub onto-onto : (xs ys zs : List (List ℕ)) → onto (onto xs ys) zs ≡ onto ys (xs ++ zs)
unfolding onto
onto-onto [] ys zs = refl
onto-onto (x ∷ xs) ys zs = onto-onto xs (x ∷ ys) zs

pub length-onto : (xs ys : List (List ℕ)) → length (onto xs ys) ≡ length xs + length ys
unfolding onto
length-onto [] ys = omega arith
length-onto (x ∷ xs) ys = omega (arith, length-onto xs (x ∷ ys))

pub onto-IsName : (xs ys : List (List ℕ)) → All IsName xs → All IsName ys → All IsName (onto xs ys)
unfolding onto
onto-IsName [] ys h k = k
onto-IsName (x ∷ xs) ys h k = onto-IsName xs (x ∷ ys) h.1 (h.0, k)

-- Segments, each behind a slash.
unfoldable pub joined : List (List ℕ) → List ℕ
joined [] = []
joined (s ∷ names) = slash ∷ (s ++ joined names)
