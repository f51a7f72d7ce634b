-- ===== src/Vfs/Mounts/Longest.antt =====
-- The mount that `resolve_mount` of kernel/vfs.c finds.
use pro_os.Prelude.{
  ℕ, suc, ◌+◌, ◌<◌, ◌≤◌, ◌≡◌, ◌⊎◌, inl, inr, refl, sym, subst, true, false, Option, none, some,
  List, [], ◌∷◌, arith, length, get_or, Bool-cases, Option-cases,
}
use pro_os.Prelude.Arrays.{All}
use pro_os.Vfs.Mounts.{Mount, no_mount, serves, is_longer, scan, relative_of, resolve}

-- A length found so far is not above the final one.
NotAbove : Option (ℕ × ℕ) → ℕ → Type 0
NotAbove none len = Unit
NotAbove (some (i, l)) len = l ≤ len

not_longer :
    (l len : ℕ) (best : Option (ℕ × ℕ)) → is_longer l best ≡ false → NotAbove best len → l ≤ len
unfolding is_longer NotAbove
not_longer l len none n h = absurd (ground (arith, n))
not_longer l len (some (a, b)) n h = ground (arith, n, h)

raised : (l len : ℕ) (best : Option (ℕ × ℕ)) → is_longer l best ≡ true → l ≤ len → NotAbove best len
unfolding is_longer NotAbove
raised l len none y h = tt
raised l len (some (a, b)) y h = ground (arith, y, h)

module _ {S : Type 0} (path : List ℕ) where
  -- No mount of the list that serves the path has a longer point.
  abbrev pub NoLonger : ℕ → List (Mount S) → Type 0
  NoLonger len ms = All (λ m. serves path m ≡ true → m.prefix_len ≤ len) ms

  -- The result is the best mount so far, or one of the list.
  abbrev Chosen : List (Mount S) → ℕ → ℕ → ℕ → Option (ℕ × ℕ) → Type 0
  Chosen ms i k len best =
      (best ≡ some (k, len))
      ⊎ ((j : ℕ) × (k ≡ i + j)
          × (j < length ms)
          × (serves path (get_or ms j no_mount) ≡ true)
          × ((get_or ms j no_mount).prefix_len ≡ len))

  -- Where the best mount of the rest stands in the whole list.
  later :
      (m : Mount S) (ms : List (Mount S)) (i k len : ℕ) (best : Option (ℕ × ℕ))
      → Chosen ms (suc i) k len best
      → Chosen (m ∷ ms) i k len best
  later m ms i k len best (inl h) = inl h
  later m ms i k len best (inr (j, a, b, c, d)) =
      inr (suc j, omega (arith, a), omega (arith, b), c, d)

  scan_lem :
      (ms : List (Mount S)) (i k len : ℕ) (best : Option (ℕ × ℕ))
      → scan path ms i best ≡ some (k, len)
      → NoLonger len ms × NotAbove best len × Chosen ms i k len best
  unfolding scan NotAbove is_longer
  scan_lem [] i k len none e = absurd (ground (arith, e))
  scan_lem [] i k len (some (a, b)) e = (tt, ground (arith, e), inl e)
  scan_lem (m ∷ ms) i k len best e = elim (Bool-cases (serves path m)) [
    | inr n ↦
        let ih = scan_lem ms (suc i) k len best (ground (arith, e, n)) in
        ((λ y. absurd (ground (arith, y, n)), ih.0), ih.1, later m ms i k len best ih.2)
    | inl y ↦ elim (Bool-cases (is_longer m.prefix_len best)) [
      | inr n ↦
          let ih = scan_lem ms (suc i) k len best (ground (arith, e, y, n)) in
          ((λ _. not_longer m.prefix_len len best n ih.1, ih.0), ih.1, later m ms i k len best ih.2)
      | inl longer ↦
          let ih =
            scan_lem ms (suc i) k len (some (i, m.prefix_len)) (ground (arith, e, y, longer)) in
          (
            (λ _. ih.1, ih.0),
            raised m.prefix_len len best longer ih.1,
            elim ih.2 [
              | inl h ↦ inr (0, ground (arith, h), omega arith, y, ground (arith, h))
              | inr (j, a, b, c, d) ↦ inr (suc j, omega (arith, a), omega (arith, b), c, d)
            ],
          )
    ]
  ]

  scan-none :
      (ms : List (Mount S)) (i : ℕ) (best : Option (ℕ × ℕ))
      → scan path ms i best ≡ none
      → (best ≡ none) × All (λ m. serves path m ≡ false) ms
  unfolding scan is_longer
  scan-none [] i best e = (e, tt)
  scan-none (m ∷ ms) i none e = elim (Bool-cases (serves path m)) [
    | inl y ↦ absurd (ground (arith, scan-none ms (suc i) (some (i, m.prefix_len)), e, y))
    | inr n ↦ (refl, (n, (scan-none ms (suc i) none (ground (arith, e, n))).1))
  ]
  scan-none (m ∷ ms) i (some (a, l)) e = absurd (
      ground (
        arith,
        e,
        scan-none ms (suc i) (some (i, m.prefix_len)),
        scan-none ms (suc i) (some (a, l)),
      ))

  -- The mount that is found serves the path, no other that serves it has a longer point, and what is
  -- left of the path stands behind its point. Only where no mount serves the path none is found.
  pub resolve_lem :
      (ms : List (Mount S))
      → ((resolve path ms ≡ none) × All (λ m. serves path m ≡ false) ms)
        ⊎ ((j : ℕ) × (resolve path ms
              ≡ some (j, relative_of (get_or ms j no_mount).prefix_len path))
            × (j < length ms)
            × (serves path (get_or ms j no_mount) ≡ true)
            × NoLonger (get_or ms j no_mount).prefix_len ms)
  unfolding resolve
  resolve_lem ms = elim (Option-cases (scan path ms 0 none)) [
    | inl e ↦ inl (rw e refl, (scan-none ms 0 none e).1)
    | inr ((k, len), e) ↦
        let r = scan_lem ms 0 k len none e in
        elim r.2 [
          | inl h ↦ absurd (ground (arith, h))
          | inr (j, a, b, c, d) ↦
              let at : k ≡ j = omega (arith, a) in
              inr (j, rw (e, at) refl, b, c, subst (λ l. NoLonger l ms) (sym d) r.0)
        ]
  ]
