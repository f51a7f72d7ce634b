-- ===== src/Ipc/Channels/Lists.antt =====
-- kernel/ipc.c: the arrays of pids and pointers of a channel, and how an entry leaves one.
use pro_os.Prelude.{
  ℕ, ◌+◌, ◌-◌, ◌≤◌, ◌<◌, ◌≡◌, refl, ap, sym, ◌∙◌, Bool, inl, inr, List, arith, length, take,
  length-set, length-take, Option-cases,
}
use pro_os.Prelude.Arrays.{
  shift_down, length-shift_down, take-remove, find_index, find_index-Found, first, first_some,
  first_none,
}
use pro_os.Ipc.Channels.{remove_from}

-- The first match leaves the live entries, the others keep their order.
pub remove_from_lem {ℓ} :
    {A : Type ℓ} (d : A) (test : A → Bool) (xs : List A) (n : ℕ)
    → n ≤ length xs
    → let (ys, m) = remove_from d test xs n in
      (take m ys ≡ (first test (take n xs)).1) × (length ys ≡ length xs) × (m ≤ n)
unfolding remove_from
remove_from_lem d test xs n h = elim (Option-cases (find_index test (take n xs))) [
  | inl e ↦
      rw (e, remove_from) (ap (λ r. r.1) (sym (first_none test (take n xs) e)), refl, omega arith)
  | inr (i, e) ↦
      let f = find_index-Found test (take n xs) i e in
      let i_lt : i < n = omega (arith, f.in_table, length-take n xs) in
      rw (e, remove_from)
        (
          take-remove d xs i n d i_lt h ∙ ap (λ r. r.1) (sym (first_some test (take n xs) i d e)),
          omega (
            arith,
            length-set (shift_down d xs i (n - (i + 1))) (n - 1) d,
            length-shift_down d xs i (n - (i + 1)),
          ),
          omega arith,
        )
]
