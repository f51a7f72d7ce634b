-- ===== src/Prelude/Rings.antt =====
-- An array of `cap` entries used as a ring: `count` live entries from index `head` on, going round at
-- the end. Socket queues and channel queues are such rings.
use native.Mathlib.Nat.{mod-eq_of_lt, mod-eq-sub-mod, mod-add-mod, add-zero}
use native.Mathlib.Decide.{dec_lt}
use pro_os.Prelude.{
  ℕ, zero, suc, ◌+◌, ◌-◌, ◌%◌, ◌≤◌, ◌<◌, ◌≡◌, ◌≢◌, refl, sym, ap, ap₂, ◌∙◌, List, [], ◌∷◌, ◌++◌,
  arith, length, get_or, set, get_or-set_self, get_or-set_ne, length-append,
}

-- Two offsets below the size of the ring name two entries.
slot_ne : (cap h j n : ℕ) → h < cap → j < n → n < cap → (h + n) % cap ≢ (h + j) % cap
slot_ne cap h j n hh hj hn = elim (dec_lt (h + j) cap) [
  | yes p ↦ elim (dec_lt (h + n) cap) [
    | yes q ↦ omega (arith, mod-eq_of_lt p, mod-eq_of_lt q)
    | no q ↦ omega (
      arith,
      mod-eq_of_lt p,
      mod-eq-sub-mod {n = h + n} {m = cap} (omega arith),
      mod-eq_of_lt {n = h + n - cap} {m = cap} (omega arith),
    )
  ]
  | no p ↦ omega (
    arith,
    mod-eq-sub-mod {n = h + j} {m = cap} (omega arith),
    mod-eq_of_lt {n = h + j - cap} {m = cap} (omega arith),
    mod-eq-sub-mod {n = h + n} {m = cap} (omega arith),
    mod-eq_of_lt {n = h + n - cap} {m = cap} (omega arith),
  )
]

module _ {ℓ} {A : Type ℓ} (d : A) (cap : ℕ) where
  -- The live entries, oldest first.
  abbrev pub live : List A → ℕ → ℕ → List A
  live xs h zero = []
  live xs h (suc n) = live xs h n ++ get_or xs ((h + n) % cap) d ∷ []

  pub length-live : (xs : List A) (h n : ℕ) → length (live xs h n) ≡ n
  length-live xs h zero = refl
  length-live xs h (suc n) =
      omega
        (arith, length-append (live xs h n) (get_or xs ((h + n) % cap) d ∷ []), length-live xs h n)

  live-set_after :
      (xs : List A) (h n k : ℕ) (v : A)
      → h < cap
      → n ≤ k
      → k < cap
      → live (set xs ((h + k) % cap) v) h n ≡ live xs h n
  live-set_after xs h zero k v hh hn hk = refl
  live-set_after xs h (suc n) k v hh hn hk =
      ap₂ (λ l x. l ++ x ∷ []) (live-set_after xs h n k v hh (omega arith) hk)
        (get_or-set_ne xs ((h + k) % cap) ((h + n) % cap) v d (slot_ne cap h n k hh hn hk))

  -- A write at the tail of a ring that is not full appends.
  pub live-set_tail :
      (xs : List A) (h n : ℕ) (v : A)
      → length xs ≡ cap
      → h < cap
      → n < cap
      → live (set xs ((h + n) % cap) v) h (suc n) ≡ live xs h n ++ v ∷ []
  live-set_tail xs h n v len hh hn =
      ap₂ (λ l x. l ++ x ∷ []) (live-set_after xs h n n v hh (omega arith) hn)
        (get_or-set_self xs ((h + n) % cap) v d (omega arith))

  -- A step of the head takes the oldest entry out.
  pub live-next :
      (xs : List A) (h n : ℕ)
      → h < cap
      → live xs h (suc n) ≡ get_or xs h d ∷ live xs ((h + 1) % cap) n
  live-next xs h zero hh =
      ap (λ i. get_or xs i d ∷ []) (ap (λ i. i % cap) (add-zero h) ∙ mod-eq_of_lt hh)
  live-next xs h (suc n) hh =
      ap₂ (λ l i. l ++ get_or xs i d ∷ []) (live-next xs h n hh)
        (ap (λ i. i % cap) (omega arith) ∙ sym (mod-add-mod (h + 1) cap n))
