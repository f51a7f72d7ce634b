-- ===== src/Prelude/Arrays.antt =====
-- Loops over fixed arrays that several parts of the kernel write out by hand: an array with a count
-- of live entries in front is used as a queue (wait queues, mailboxes, channel lists).
use mathlib.Core.Option
use pro_os.Prelude.{
  ◌⊎◌, ◌-◌, sym, ◌∙◌, ℕ, zero, suc, ◌+◌, ◌≤◌, ◌<◌, ◌≡◌, refl, ap, Bool, true, false, Option, none,
  some, List, [], ◌∷◌, ◌++◌, arith, length, get_or, set, take, remove_at, replicate, length-set,
  if◌then◌else◌,
}

module _ {ℓ} {A : Type ℓ} (d : A) where
  -- `for (j = i + 1; ...; ++j) a[j - 1] = a[j];`, `n` rounds. `d` stands for what lies outside.
  unfoldable pub shift_down : List A → ℕ → ℕ → List A
  shift_down xs i zero = xs
  shift_down xs i (suc n) = shift_down (set xs i (get_or xs (suc i) d)) (suc i) n

  shift_down-cons :
      (x : A) (xs : List A) (i n : ℕ) → shift_down (x ∷ xs) (suc i) n ≡ x ∷ shift_down xs i n
  unfolding shift_down
  shift_down-cons x xs i zero = refl
  shift_down-cons x xs i (suc n) = shift_down-cons x (set xs i (get_or xs (suc i) d)) (suc i) n

  pub length-shift_down : (xs : List A) (i n : ℕ) → length (shift_down xs i n) ≡ length xs
  unfolding shift_down
  length-shift_down xs i zero = refl
  length-shift_down xs i (suc n) = omega (
    arith,
    length-shift_down (set xs i (get_or xs (suc i) d)) (suc i) n,
    length-set xs i (get_or xs (suc i) d),
  )

  -- The loop removes entry `i` from the front of the array.
  pub take-shift_down :
      (xs : List A) (i n k : ℕ)
      → k ≡ i + n
      → k < length xs
      → take k (shift_down xs i n) ≡ remove_at i (take (suc k) xs)
  unfolding shift_down
  take-shift_down [] i n k e h = absurd (omega arith)
  take-shift_down (x ∷ xs) zero zero zero e h = refl
  take-shift_down (x ∷ xs) zero zero (suc k) e h = absurd (omega arith)
  take-shift_down (x ∷ xs) zero (suc n) zero e h = absurd (omega arith)
  take-shift_down (x ∷ []) zero (suc n) (suc k) e h = absurd (omega arith)
  take-shift_down (x ∷ y ∷ ys) zero (suc n) (suc k) e h =
      rw (shift_down-cons y (y ∷ ys) zero n)
        (ap (◌∷◌ y) (take-shift_down (y ∷ ys) zero n k (omega arith) (omega arith)))
  take-shift_down (x ∷ xs) (suc i) n zero e h = absurd (omega arith)
  take-shift_down (x ∷ xs) (suc i) n (suc k) e h =
      rw (shift_down-cons x xs i n)
        (ap (◌∷◌ x) (take-shift_down xs i n k (omega arith) (omega arith)))

module _ {ℓ} {A : Type ℓ} where
  -- A write behind the live entries, and one more of them: an entry is appended.
  pub take-set_end :
      (xs : List A) (n : ℕ) (v : A)
      → n < length xs
      → take (suc n) (set xs n v) ≡ take n xs ++ v ∷ []
  take-set_end [] n v h = absurd (omega arith)
  take-set_end (x ∷ xs) zero v h = refl
  take-set_end (x ∷ xs) (suc n) v h = ap (◌∷◌ x) (take-set_end xs n v (omega arith))

  -- A write behind the live entries does not touch them.
  pub take-set_ge : (xs : List A) (n i : ℕ) (v : A) → n ≤ i → take n (set xs i v) ≡ take n xs
  take-set_ge [] n i v h = refl
  take-set_ge (x ∷ xs) zero i v h = refl
  take-set_ge (x ∷ xs) (suc n) zero v h = absurd (omega arith)
  take-set_ge (x ∷ xs) (suc n) (suc i) v h = ap (◌∷◌ x) (take-set_ge xs n i v (omega arith))

  pub get_or-take : (xs : List A) (n i : ℕ) (d : A) → i < n → get_or (take n xs) i d ≡ get_or xs i d
  get_or-take [] (suc n) i d h = refl
  get_or-take [] zero i d h = refl
  get_or-take (x ∷ xs) zero i d h = absurd (omega arith)
  get_or-take (x ∷ xs) (suc n) zero d h = refl
  get_or-take (x ∷ xs) (suc n) (suc i) d h = get_or-take xs n i d (omega arith)

module _ {ℓ} {A : Type ℓ} (p : A → Bool) where
  -- `for (i = 0; i < N; ++i) if (p(a[i])) return i;`, over a table of N entries.
  unfoldable pub find_index : List A → Option ℕ
  find_index [] = none
  find_index (x ∷ xs) = if p x then some 0 else Option.map suc (find_index xs)

  -- An index that the loop returns lies in the table, its entry passes the test, and no entry in
  -- front of it does.
  pub record Found (xs : List A) (i : ℕ) : Type ℓ where
    pub in_table : i < length xs
    pub passes : (d : A) → p (get_or xs i d) ≡ true
    pub first : (j : ℕ) (d : A) → j < i → p (get_or xs j d) ≡ false

  Found-cons : (x : A) (xs : List A) (i : ℕ) → p x ≡ false → Found xs i → Found (x ∷ xs) (suc i)
  Found-cons x xs i miss f = record {
    in_table = omega (arith, f.in_table);
    passes = f.passes;
    first = elim [ zero ↦ λ d h. miss | suc j ↦ λ d h. f.first j d (omega arith) ];
  }

  pub find_index-Found : (xs : List A) (i : ℕ) → find_index xs ≡ some i → Found xs i
  unfolding find_index
  find_index-Found [] i e = ground arith
  find_index-Found (x ∷ xs) zero e = record {
    in_table = omega arith;
    passes = λ d. ground arith;
    first = λ j d h. absurd (omega arith);
  }
  find_index-Found (x ∷ xs) (suc i) e =
      Found-cons x xs i (ground arith) (find_index-Found xs i (ground arith))

  -- The loop returns no index only if no entry passes.
  pub find_index-none :
      (xs : List A) (i : ℕ) (d : A)
      → find_index xs ≡ none
      → i < length xs
      → p (get_or xs i d) ≡ false
  unfolding find_index
  find_index-none [] i d e h = absurd (omega arith)
  find_index-none (x ∷ xs) zero d e h = ground arith
  find_index-none (x ∷ xs) (suc i) d e h = ground (arith, find_index-none xs i d)

-- Every entry of a list satisfies `P`.
abbrev pub All {ℓ κ} : {A : Type ℓ} → (A → Type κ) → List A → Type κ
All P [] = Unit
All P (x ∷ xs) = P x × All P xs

module _ {ℓ κ} {A : Type ℓ} (P : A → Type κ) where
  pub All-get_or : (xs : List A) (i : ℕ) (d : A) → All P xs → P d → P (get_or xs i d)
  All-get_or [] i d h p = p
  All-get_or (x ∷ xs) zero d h p = h.0
  All-get_or (x ∷ xs) (suc i) d h p = All-get_or xs i d h.1 p

  pub All-set : (xs : List A) (i : ℕ) (v : A) → All P xs → P v → All P (set xs i v)
  All-set [] i v h p = h
  All-set (x ∷ xs) zero v h p = (p, h.1)
  All-set (x ∷ xs) (suc i) v h p = (h.0, All-set xs i v h.1 p)

  pub All-append : (xs ys : List A) → All P xs → All P ys → All P (xs ++ ys)
  All-append [] ys h k = k
  All-append (x ∷ xs) ys h k = (h.0, All-append xs ys h.1 k)

  pub All-replicate : (n : ℕ) (v : A) → P v → All P (replicate n v)
  All-replicate zero v p = tt
  All-replicate (suc n) v p = (p, All-replicate n v p)

module _ {ℓ} {A : Type ℓ} (p : A → Bool) where
  -- A write that does not change the test of its entry does not change the search.
  pub find_index-set :
      (xs : List A) (i : ℕ) (v d : A)
      → p v ≡ p (get_or xs i d)
      → find_index p (set xs i v) ≡ find_index p xs
  unfolding find_index
  find_index-set [] i v d e = refl
  find_index-set (x ∷ xs) zero v d e = rw e refl
  find_index-set (x ∷ xs) (suc i) v d e = rw (find_index-set xs i v d e) refl

module _ {ℓ κ} {A : Type ℓ} (P : A → Type κ) (d : A) (pd : P d) where
  pub All-shift_down : (xs : List A) (i n : ℕ) → All P xs → All P (shift_down d xs i n)
  unfolding shift_down
  All-shift_down xs i zero h = h
  All-shift_down xs i (suc n) h =
      All-shift_down (set xs i (get_or xs (suc i) d)) (suc i) n
        (All-set P xs i _ h (All-get_or P xs (suc i) d h pd))

module _ {ℓ κ} {A : Type ℓ} (P : A → Type κ) where
  pub All-take : (n : ℕ) (xs : List A) → All P xs → All P (take n xs)
  All-take zero xs h = tt
  All-take (suc n) [] h = tt
  All-take (suc n) (x ∷ xs) h = (h.0, All-take n xs h.1)

  pub All-remove_at : (i : ℕ) (xs : List A) → All P xs → All P (remove_at i xs)
  All-remove_at i [] h = tt
  All-remove_at zero (x ∷ xs) h = h.1
  All-remove_at (suc i) (x ∷ xs) h = (h.0, All-remove_at i xs h.1)

module _ {ℓ} {A : Type ℓ} (d : A) where
  -- Entry `i` of the `k` live ones leaves, the others move up, and what is written behind them does not
  -- matter.
  pub take-remove :
      (xs : List A) (i k : ℕ) (v : A)
      → i < k
      → k ≤ length xs
      → take (k - 1) (set (shift_down d xs i (k - (i + 1))) (k - 1) v) ≡ remove_at i (take k xs)
  take-remove xs i k v h l =
      let e : k ≡ suc (k - 1) = omega arith in
      take-set_ge (shift_down d xs i (k - (i + 1))) (k - 1) (k - 1) v (omega arith)
      ∙ take-shift_down d xs i (k - (i + 1)) (k - 1) (omega arith) (omega arith)
      ∙ ap (λ n. remove_at i (take n xs)) (sym e)

  pub take_front :
      (xs : List A) (k : ℕ)
      → 0 < k
      → k ≤ length xs
      → take k xs ≡ get_or xs 0 d ∷ remove_at 0 (take k xs)
  take_front [] k h l = absurd (omega arith)
  take_front (x ∷ xs) zero h l = absurd (omega arith)
  take_front (x ∷ xs) (suc k) h l = refl

module _ {ℓ} {A : Type ℓ} (p : A → Bool) where
  -- The first entry that passes a test leaves a list.
  unfoldable pub first : List A → Option A × List A
  first [] = (none, [])
  first (x ∷ xs) = if p x then (some x, xs) else let (found, rest) = first xs in (found, x ∷ rest)

  pub first_some :
      (xs : List A) (i : ℕ) (d : A)
      → find_index p xs ≡ some i
      → first xs ≡ (some (get_or xs i d), remove_at i xs)
  unfolding find_index first
  first_some [] i d e = ground arith
  first_some (x ∷ xs) zero d e = ground arith
  first_some (x ∷ xs) (suc i) d e = ground (arith, first_some xs i d)

  pub first_none : (xs : List A) → find_index p xs ≡ none → first xs ≡ (none, xs)
  unfolding find_index first
  first_none [] e = refl
  first_none (x ∷ xs) e = ground (arith, first_none xs)

module _ {ℓ} {A : Type ℓ} (p : A → Bool) where
  -- An entry that passes the test is written where the search ends, or where it fails: it is found.
  pub find_index-set_found :
      (xs : List A) (i : ℕ) (v : A)
      → (find_index p xs ≡ none) ⊎ (find_index p xs ≡ some i)
      → i < length xs
      → p v ≡ true
      → find_index p (set xs i v) ≡ some i
  unfolding find_index
  find_index-set_found [] i v s h e = absurd (omega arith)
  find_index-set_found (x ∷ xs) zero v s h e = rw e refl
  find_index-set_found (x ∷ xs) (suc i) v s h e = ground (arith, find_index-set_found xs i v)
