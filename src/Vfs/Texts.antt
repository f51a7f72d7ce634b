-- ===== src/Vfs/Texts.antt =====
-- kernel/vfs.c: a path without a terminator inside leads to paths without one.
use pro_os.Prelude.{
  ℕ, zero, suc, ◌<◌, ◌≡◌, subst, inl, inr, Option, none, some, List, [], ◌∷◌, ◌++◌, arith, leb,
  ◌==◌, length, get_or, drop, Bool-cases,
}
use pro_os.Prelude.Arrays.{All, All-append}
use pro_os.Ramfs.Text.{IsText}
use pro_os.Vfs.{
  slash, max_segments, segment, split, is_dot, is_dot_dot, step, walk, onto, build, written,
  normalize,
}
use pro_os.Vfs.Mounts.{relative_of}

pub IsText-append : (s t : List ℕ) → IsText s → IsText t → IsText (s ++ t)
IsText-append s t = All-append (λ c. 0 < c) s t

pub IsText-drop : (n : ℕ) (s : List ℕ) → IsText s → IsText (drop n s)
IsText-drop zero s h = h
IsText-drop (suc n) [] h = tt
IsText-drop (suc n) (c ∷ s) h = IsText-drop n s h.1

pub relative_of-IsText : (len : ℕ) (path : List ℕ) → IsText path → IsText (relative_of len path)
unfolding relative_of
relative_of-IsText len path h = elim (Bool-cases (get_or path len 0 == slash)) [
  | inl y ↦ rw y (IsText-drop (suc len) path h)
  | inr n ↦ rw n (IsText-drop len path h)
]

-- Every segment is a text.
abbrev Texts : List (List ℕ) → Type 0
Texts = All IsText

abbrev KeptTexts : Option (List (List ℕ)) → Type 0
KeptTexts none = Unit
KeptTexts (some kept) = Texts kept

segment-Texts : (s : List ℕ) (rest : List (List ℕ)) → IsText s → Texts rest → Texts (segment s rest)
unfolding segment
segment-Texts [] rest h k = k
segment-Texts (c ∷ s) rest h k = (h, k)

split-Texts : (path s : List ℕ) → IsText path → IsText s → Texts (split s path)
unfolding split
split-Texts [] s h k = segment-Texts s [] k tt
split-Texts (c ∷ path) s h k = elim (Bool-cases (c == slash)) [
  | inl y ↦ rw y (segment-Texts s (split [] path) k (split-Texts path [] h.1 tt))
  | inr n ↦ rw n (split-Texts path (s ++ c ∷ []) h.1 (IsText-append s (c ∷ []) k (h.0, tt)))
]

drop_last-Texts : (kept : List (List ℕ)) → Texts kept → Texts (drop 1 kept)
drop_last-Texts [] h = tt
drop_last-Texts (s ∷ kept) h = h.1

step-Texts : (s : List ℕ) (kept : List (List ℕ)) → IsText s → Texts kept → KeptTexts (step s kept)
unfolding step
step-Texts s kept h k = elim (Bool-cases (is_dot s)) [
  | inl dot ↦ rw dot k
  | inr n ↦ elim (Bool-cases (is_dot_dot s)) [
    | inl dots ↦ rw (n, dots) (drop_last-Texts kept k)
    | inr m ↦ elim (Bool-cases (leb max_segments (length kept))) [
      | inl full ↦ rw (n, m) (rw full tt)
      | inr room ↦ rw (n, m) (rw room (h, k))
    ]
  ]
]

walk-Texts :
    (segments : List (List ℕ)) (o : Option (List (List ℕ)))
    → Texts segments
    → KeptTexts o
    → KeptTexts (walk segments o)
unfolding walk
walk-Texts segments none h k = tt
walk-Texts [] (some kept) h k = k
walk-Texts (s ∷ segments) (some kept) h k =
    walk-Texts segments (step s kept) h.1 (step-Texts s kept h.0 k)

onto-Texts : (kept rest : List (List ℕ)) → Texts kept → Texts rest → Texts (onto kept rest)
unfolding onto
onto-Texts [] rest h k = k
onto-Texts (s ∷ kept) rest h k = onto-Texts kept (s ∷ rest) h.1 (h.0, k)

build-IsText :
    (capacity : ℕ) (segments : List (List ℕ)) (out q : List ℕ)
    → Texts segments
    → IsText out
    → build capacity segments out ≡ some q
    → IsText q
unfolding build
build-IsText capacity [] out q h k e = let same : out ≡ q = ground (arith, e) in subst IsText same k
build-IsText capacity (s ∷ segments) out q h k e =
    build-IsText capacity segments (out ++ slash ∷ s) q h.1
      (IsText-append out (slash ∷ s) k (omega arith, h.0)) (ground (arith, e))

written-IsText :
    (capacity : ℕ) (o : Option (List (List ℕ))) (q : List ℕ)
    → KeptTexts o
    → written capacity o ≡ some q
    → IsText q
unfolding written
written-IsText capacity none q h e = absurd (ground (arith, e))
written-IsText capacity (some []) q h e =
    let root : slash ∷ [] ≡ q = ground (arith, e) in subst IsText root (omega arith, tt)
written-IsText capacity (some (s ∷ kept)) q h e =
    build-IsText capacity (onto (s ∷ kept) []) [] q (onto-Texts (s ∷ kept) [] h tt) tt e

pub normalize-IsText :
    (capacity : ℕ) (path q : List ℕ) → normalize capacity path ≡ some q → IsText path → IsText q
unfolding normalize
normalize-IsText capacity [] q e h = absurd (ground (arith, e))
normalize-IsText capacity (c ∷ path) q e h =
    written-IsText capacity (walk (split [] (c ∷ path)) (some [])) q
      (walk-Texts (split [] (c ∷ path)) (some []) (split-Texts (c ∷ path) [] h tt) tt)
      (ground (arith, e))
