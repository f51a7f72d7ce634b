-- ===== src/Ramfs/Text.antt =====
-- kernel/ramfs.c: what the string loops compute, on texts without a terminator inside.
use pro_os.Prelude.{
  ℕ, zero, suc, ◌+◌, ◌<◌, ◌≡◌, ◌↔◌, refl, true, ◌⊎◌, inl, inr, Option, some, List, [], ◌∷◌, arith,
  ◌==◌, if◌then◌else◌, length, get_or, take, Bool-cases,
}
use pro_os.Prelude.Arrays.{All}
use pro_os.Ramfs.{slash, difference, str_cmp, same, starts_with, last_slash}

-- No byte is the terminator.
abbrev pub IsText : List ℕ → Type 0
IsText s = All (λ c. 0 < c) s

pub IsText-take : (n : ℕ) (s : List ℕ) → IsText s → IsText (take n s)
IsText-take zero s h = tt
IsText-take (suc n) [] h = tt
IsText-take (suc n) (c ∷ s) h = (h.0, IsText-take n s h.1)

pub same_refl : (a : List ℕ) → same a a ≡ true
unfolding str_cmp
same_refl [] = refl
same_refl (c ∷ a) = ground (arith, same_refl a)

-- `str_cmp` gives 0 exactly for equal texts.
pub same_iff : (a b : List ℕ) → IsText a → IsText b → (same a b ≡ true) ↔ (a ≡ b)
unfolding str_cmp difference
same_iff [] [] h k = ground arith
same_iff [] (b ∷ y) h k = ground arith
same_iff (a ∷ x) [] h k = ground arith
same_iff (a ∷ x) (b ∷ y) h k = ground (arith, same_iff x y h.1 k.1)

-- A prefix is what `take` gives.
pub starts_with-take : (s p : List ℕ) → starts_with s p ≡ true → take (length p) s ≡ p
unfolding starts_with
starts_with-take s [] h = refl
starts_with-take [] (c ∷ p) h = ground arith
starts_with-take (a ∷ s) (c ∷ p) h = ground (arith, starts_with-take s p)

pub take-starts_with : (s p : List ℕ) → take (length p) s ≡ p → starts_with s p ≡ true
unfolding starts_with
take-starts_with s [] h = refl
take-starts_with [] (c ∷ p) h = ground arith
take-starts_with (a ∷ s) (c ∷ p) h = ground (arith, take-starts_with s p)

-- The slash that the loop finds.
pub last_slash_at :
    (s : List ℕ) (i k : ℕ) (found : Option ℕ)
    → last_slash s i found ≡ some k
    → (found ≡ some k) ⊎ ((j : ℕ) × (k ≡ i + j) × (j < length s) × (get_or s j 0 ≡ slash))
unfolding last_slash
last_slash_at [] i k found h = inl h
last_slash_at (c ∷ s) i k found h =
    elim (last_slash_at s (i + 1) k (if c == slash then some i else found) h) [
      | inr (j, e, l, g) ↦ inr (suc j, omega (arith, e), omega (arith, l), g)
      | inl e ↦ elim (Bool-cases (c == slash)) [
        | inl t ↦ inr (0, ground (arith, e, t), omega arith, ground (arith, t))
        | inr f ↦ inl (ground (arith, e, f))
      ]
    ]
