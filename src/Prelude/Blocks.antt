-- ===== src/Prelude/Blocks.antt =====
-- Byte buffers: `memcpy` into the front of a buffer.
use native.Mathlib.Decide.{dec_lt}
use pro_os.Prelude.{
  ℕ, zero, suc, ◌≤◌, ◌≡◌, refl, ap, List, [], ◌∷◌, ◌++◌, arith, length, take, drop, take_all, min,
  sym, ◌∙◌,
}

module _ {ℓ} {A : Type ℓ} where
  -- `for (i = 0; i < n; ++i) dst[i] = src[i];` A read or write outside a buffer ends the loop.
  unfoldable pub copy : List A → List A → ℕ → List A
  copy dst src zero = dst
  copy [] src (suc n) = []
  copy (x ∷ dst) [] (suc n) = x ∷ dst
  copy (x ∷ dst) (y ∷ src) (suc n) = y ∷ copy dst src n

  pub length-copy : (dst src : List A) (n : ℕ) → length (copy dst src n) ≡ length dst
  unfolding copy
  length-copy dst src zero = refl
  length-copy [] src (suc n) = refl
  length-copy (x ∷ dst) [] (suc n) = refl
  length-copy (x ∷ dst) (y ∷ src) (suc n) = ap suc (length-copy dst src n)

  -- Where both buffers have `n` entries, those of the destination become those of the source.
  pub take-copy :
      (dst src : List A) (n : ℕ)
      → n ≤ length dst
      → n ≤ length src
      → take n (copy dst src n) ≡ take n src
  unfolding copy
  take-copy dst src zero h k = refl
  take-copy [] src (suc n) h k = absurd (omega arith)
  take-copy (x ∷ dst) [] (suc n) h k = absurd (omega arith)
  take-copy (x ∷ dst) (y ∷ src) (suc n) h k =
      ap (◌∷◌ y) (take-copy dst src n (omega arith) (omega arith))

  -- The rest of the destination stays.
  pub drop-copy : (dst src : List A) (n : ℕ) → drop n (copy dst src n) ≡ drop n dst
  unfolding copy
  drop-copy dst src zero = refl
  drop-copy [] src (suc n) = refl
  drop-copy (x ∷ dst) [] (suc n) = refl
  drop-copy (x ∷ dst) (y ∷ src) (suc n) = drop-copy dst src n

  -- The whole of a short source, then the rest of the destination.
  pub copy_all :
      (dst src : List A)
      → length src ≤ length dst
      → copy dst src (length src) ≡ src ++ drop (length src) dst
  unfolding copy
  copy_all dst [] h = refl
  copy_all [] (y ∷ src) h = absurd (omega arith)
  copy_all (x ∷ dst) (y ∷ src) h = ap (◌∷◌ y) (copy_all dst src (omega arith))

  pub take-min : (xs : List A) (n : ℕ) → take (min (length xs) n) xs ≡ take n xs
  take-min xs n = elim (dec_lt n (length xs)) [
    | yes p ↦ ap (λ k. take k xs) (omega arith)
    | no p ↦
        ap (λ k. take k xs) (omega arith)
        ∙ take_all (length xs) xs (omega arith)
        ∙ sym (take_all n xs (omega arith))
  ]
