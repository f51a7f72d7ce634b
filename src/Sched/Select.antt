-- ===== src/Sched/Select.antt =====
-- kernel/process.c: which thread `scheduler_pick_deadline` and `scheduler_pick_fair` choose.
use pro_os.Prelude.{
  ℕ, ◌≤◌, ◌≡◌, refl, ap, sym, subst, ◌∙◌, Bool, true, false, ◌&&◌, ◌⊎◌, inl, inr, Option, none,
  some, List, [], ◌∷◌, ◌++◌, arith, ltb, ◌==◌, if◌then◌else◌, Bool-cases,
}
use pro_os.Sched.{Sched, Thread, thread}
use pro_os.Sched.Ready.{holds, scan, scan_all, better}

-- All threads in the queues, the higher priorities first
unfoldable pub joined : List (List ℕ) → List ℕ
joined [] = []
joined (q ∷ qs) = q ++ joined qs

module _ (eligible : Thread → Bool) (key : Thread → ℕ) (s : Sched) where
  -- The best of the threads of which `P` holds: eligible, and none of them with a smaller key
  abbrev pub Best : (ℕ → Type 0) → Option (ℕ × ℕ) → Type 0
  Best P none = (j : ℕ) → P j → eligible (thread s j) ≡ false
  Best P (some (i, k)) =
      P i
      × (eligible (thread s i) ≡ true)
      × (k ≡ key (thread s i))
      × ((j : ℕ) → P j → eligible (thread s j) ≡ true → k ≤ key (thread s j))

  Best-map :
      (P Q : ℕ → Type 0) (r : Option (ℕ × ℕ))
      → ((j : ℕ) → P j → Q j)
      → ((j : ℕ) → Q j → P j)
      → Best P r
      → Best Q r
  Best-map P Q none f g b = λ j q. b j (g j q)
  Best-map P Q (some (i, k)) f g b = (f i b.0, b.1, b.2, λ j q. b.3 j (g j q))

  -- One turn of the loops
  abbrev next : Option (ℕ × ℕ) → ℕ → Option (ℕ × ℕ)
  next best i =
      if eligible (thread s i) && better eligible key s best (key (thread s i))
      then some (i, key (thread s i))
      else best

  next-Best :
      (P : ℕ → Type 0) (best : Option (ℕ × ℕ)) (i : ℕ)
      → Best P best
      → Best (λ j. P j ⊎ (i ≡ j)) (next best i)
  unfolding better
  next-Best P none i b = elim (Bool-cases (eligible (thread s i))) [
    | inl e ↦ rw e (
      inr refl,
      e,
      refl,
      λ j p el. elim p [
        | inl q ↦ absurd (ground (arith, b j q))
        | inr same ↦ subst (λ n. key (thread s i) ≤ key (thread s n)) same (omega arith)
      ],
    )
    | inr n ↦ rw n (λ j p. elim p [
      | inl q ↦ b j q
      | inr same ↦ subst (λ m. eligible (thread s m) ≡ false) same n
    ])
  ]
  next-Best P (some (o, k)) i b =
      elim (Bool-cases (eligible (thread s i) && ltb (key (thread s i)) k)) [
        | inl e ↦ rw e (
          inr refl,
          ground arith,
          refl,
          λ j p el. elim p [
            | inl q ↦ ground (arith, b.3 j q el)
            | inr same ↦ subst (λ n. key (thread s i) ≤ key (thread s n)) same (omega arith)
          ],
        )
        | inr n ↦ rw n (
          inl b.0,
          b.1,
          b.2,
          λ j p el. elim p [
            | inl q ↦ b.3 j q el
            | inr same ↦
                ground
                  (arith, ap (λ m. eligible (thread s m)) same, ap (λ m. key (thread s m)) same)
          ],
        )
      ]

  scan-Best :
      (P : ℕ → Type 0) (best : Option (ℕ × ℕ)) (l : List ℕ)
      → Best P best
      → Best (λ j. P j ⊎ (holds j l ≡ true)) (scan eligible key s best l)
  unfolding scan holds
  scan-Best P best [] b =
      Best-map P (λ j. P j ⊎ (false ≡ true)) best (λ j p. inl p)
        (λ j q. elim q [ inl p ↦ p | inr f ↦ absurd (ground arith) ]) b
  scan-Best P best (i ∷ is) b =
      Best-map (λ j. (P j ⊎ (i ≡ j)) ⊎ (holds j is ≡ true)) (λ j. P j ⊎ (holds j (i ∷ is) ≡ true))
        (scan eligible key s (next best i) is)
        (λ j p. elim p [
          | inl (inl q) ↦ inl q
          | inl (inr e) ↦ inr (ground arith)
          | inr h ↦ inr (ground arith)
        ])
        (λ j p. elim p [
          | inl q ↦ inl (inl q)
          | inr h ↦ elim (Bool-cases (i == j)) [
            | inl e ↦ inl (inr (ground arith))
            | inr d ↦ inr (ground arith)
          ]
        ])
        (scan-Best (λ j. P j ⊎ (i ≡ j)) (next best i) is (next-Best P best i b))

  scan-append :
      (best : Option (ℕ × ℕ)) (l m : List ℕ)
      → scan eligible key s best (l ++ m) ≡ scan eligible key s (scan eligible key s best l) m
  unfolding scan
  scan-append best [] m = refl
  scan-append best (i ∷ is) m = scan-append (next best i) is m

  scan_all-joined :
      (best : Option (ℕ × ℕ)) (qs : List (List ℕ))
      → scan_all eligible key s best qs ≡ scan eligible key s best (joined qs)
  unfolding scan_all joined scan
  scan_all-joined best [] = refl
  scan_all-joined best (q ∷ qs) =
      scan_all-joined (scan eligible key s best q) qs ∙ sym (scan-append best q (joined qs))

  -- The loops of the pick functions find the best thread in the queues, if one is eligible.
  pub scan_all-Best :
      (qs : List (List ℕ))
      → Best (λ j. holds j (joined qs) ≡ true) (scan_all eligible key s none qs)
  scan_all-Best qs =
      subst (Best (λ j. holds j (joined qs) ≡ true)) (sym (scan_all-joined none qs)) (
        Best-map (λ j. ⊥ ⊎ (holds j (joined qs) ≡ true)) (λ j. holds j (joined qs) ≡ true)
          (scan eligible key s none (joined qs)) (λ j p. elim p [ inl e ↦ absurd e | inr h ↦ h ])
          (λ j h. inr h) (scan-Best (λ j. ⊥) none (joined qs) (λ j e. absurd e)))
