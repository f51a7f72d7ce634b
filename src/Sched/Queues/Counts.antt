-- ===== src/Sched/Queues/Counts.antt =====
-- How often an index stands in the run queues.
use pro_os.Prelude.{
  ℕ, zero, suc, ◌+◌, ◌≤◌, ◌<◌, ◌≡◌, refl, Bool, true, false, inl, inr, none, List, [], ◌∷◌, ◌++◌,
  arith, ◌==◌, if◌then◌else◌, length, get_or, set, Bool-cases,
}
use pro_os.Prelude.Arrays.{find_index}
use pro_os.Sched.Ready.{holds, unlink}

abbrev pub one_if : Bool → ℕ
one_if b = if b then 1 else 0

unfoldable pub occurrences : ℕ → List ℕ → ℕ
occurrences i [] = 0
occurrences i (j ∷ js) = one_if (j == i) + occurrences i js

-- All occurrences in a list of queues
unfoldable pub total : ℕ → List (List ℕ) → ℕ
total i [] = 0
total i (q ∷ qs) = occurrences i q + total i qs

pub occurrences-append :
    (i : ℕ) (q r : List ℕ) → occurrences i (q ++ r) ≡ occurrences i q + occurrences i r
unfolding occurrences
occurrences-append i [] r = omega arith
occurrences-append i (k ∷ q) r = omega (arith, occurrences-append i q r)

pub occurrences-snoc :
    (i j : ℕ) (q : List ℕ) → occurrences i (q ++ j ∷ []) ≡ occurrences i q + one_if (j == i)
unfolding occurrences
occurrences-snoc i j q = omega (arith, occurrences-append i q (j ∷ []))

pub occurrences-unlink :
    (i j : ℕ) (q : List ℕ)
    → holds j q ≡ true
    → occurrences i (unlink j q) + one_if (j == i) ≡ occurrences i q
unfolding occurrences unlink holds
occurrences-unlink i j [] h = ground arith
occurrences-unlink i j (k ∷ q) h = elim (Bool-cases (k == j)) [
  | inl e ↦ let p : k ≡ j = ground arith in rw (e, p) (omega arith)
  | inr d ↦ rw d (omega (arith, occurrences-unlink i j q (ground arith)))
]

pub occurrences-holds : (i : ℕ) (q : List ℕ) → holds i q ≡ false → occurrences i q ≡ 0
unfolding occurrences holds
occurrences-holds i [] h = refl
occurrences-holds i (k ∷ q) h = ground (arith, occurrences-holds i q)

pub holds-occurrences : (i : ℕ) (q : List ℕ) → holds i q ≡ true → 0 < occurrences i q
unfolding occurrences holds
holds-occurrences i [] h = ground arith
holds-occurrences i (k ∷ q) h = ground (arith, holds-occurrences i q)

pub total-set :
    (i p : ℕ) (q : List ℕ) (qs : List (List ℕ))
    → p < length qs
    → total i (set qs p q) + occurrences i (get_or qs p []) ≡ total i qs + occurrences i q
unfolding total
total-set i p q [] h = ground arith
total-set i zero q (r ∷ qs) h = omega arith
total-set i (suc p) q (r ∷ qs) h = omega (arith, total-set i p q qs (omega arith))

pub total-get_or : (i p : ℕ) (qs : List (List ℕ)) → occurrences i (get_or qs p []) ≤ total i qs
unfolding total occurrences
total-get_or i p [] = omega arith
total-get_or i zero (r ∷ qs) = omega arith
total-get_or i (suc p) (r ∷ qs) = omega (arith, total-get_or i p qs)

pub total-none : (i : ℕ) (qs : List (List ℕ)) → find_index (holds i) qs ≡ none → total i qs ≡ 0
unfolding total find_index
total-none i [] h = refl
total-none i (q ∷ qs) h = elim (Bool-cases (holds i q)) [
  | inl e ↦ ground (arith, e)
  | inr d ↦ omega (arith, occurrences-holds i q d, total-none i qs (ground arith))
]
