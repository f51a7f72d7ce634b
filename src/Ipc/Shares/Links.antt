-- ===== src/Ipc/Shares/Links.antt =====
-- kernel/ipc.c: the links of a process to shared regions.
use pro_os.Prelude.{
  set-set, ℕ, zero, suc, ◌+◌, ◌-◌, ◌≤◌, ◌<◌, ◌≡◌, refl, ap, ap₂, sym, ◌∙◌, true, not, ◌⊎◌, inl, inr,
  none, some, List, [], ◌∷◌, arith, length, set, ltb, if◌then◌else◌, Option-cases,
}
use pro_os.Prelude.Arrays.{All, find_index}
use pro_os.Prelude.Int.{ℤ, ==ℤ_refl, failure, success}
use pro_os.Ipc.Process.{Process, ShareLink, no_link, shared_per_proc}
use pro_os.Ipc.Shares.{attach, detach, links_to}

abbrev pub count_used : List ShareLink → ℕ
count_used [] = 0
count_used (l ∷ ls) = (if l.used then 1 else 0) + count_used ls

-- A link is in use, or as it is after `ipc_attach_process`.
abbrev pub IsTidy : ShareLink → Type 0
IsTidy l = (l.used ≡ true) ⊎ (l ≡ no_link)

pub record HasLinks (p : Process) : Type 0 where
  pub room : length p.shares ≡ shared_per_proc
  pub counted : p.share_count ≡ count_used p.shares
  pub tidy : All IsTidy p.shares

abbrev new_link : ℤ → ShareLink
new_link id = record { used = true; share_id = id }

-- The link that is written is the one that is found.
find-new :
    (ls : List ShareLink) (id : ℤ) (i : ℕ)
    → find_index (links_to id) ls ≡ none
    → find_index (λ l. not l.used) ls ≡ some i
    → find_index (links_to id) (set ls i (new_link id)) ≡ some i
unfolding find_index
find-new [] id i e f = ground arith
find-new (l ∷ ls) id zero e f = rw (==ℤ_refl id) refl
find-new (l ∷ ls) id (suc i) e f = ground (arith, find-new ls id i)

-- The unused entry that is found is a blank one.
unused-blank :
    (ls : List ShareLink) (i : ℕ)
    → All IsTidy ls
    → find_index (λ l. not l.used) ls ≡ some i
    → set ls i no_link ≡ ls
unfolding find_index
unused-blank [] i t e = ground arith
unused-blank (l ∷ ls) zero (inl u, t) e = ground arith
unused-blank (l ∷ ls) zero (inr b, t) e = ap (λ x. x ∷ ls) (sym b)
unused-blank (l ∷ ls) (suc i) t e = ap (◌∷◌ l) (unused-blank ls i t.1 (ground arith))

count_used-le : (ls : List ShareLink) → count_used ls ≤ length ls
count_used-le [] = omega arith
count_used-le (l ∷ ls) = ground (arith, count_used-le ls)

all_used :
    (ls : List ShareLink) → find_index (λ l. not l.used) ls ≡ none → count_used ls ≡ length ls
unfolding find_index
all_used [] e = refl
all_used (l ∷ ls) e = ground (arith, all_used ls)

count_used-lt :
    (ls : List ShareLink) (i : ℕ)
    → find_index (λ l. not l.used) ls ≡ some i
    → count_used ls < length ls
unfolding find_index
count_used-lt [] i e = ground arith
count_used-lt (l ∷ ls) zero e = ground (arith, count_used-le ls)
count_used-lt (l ∷ ls) (suc i) e = ground (arith, count_used-lt ls i)

restored :
    (p : Process) (i : ℕ) (id : ℤ)
    → All IsTidy p.shares
    → find_index (λ l. not l.used) p.shares ≡ some i
    → ◌≡◌ {A = Process}
        (record p {
          shares = set (set p.shares i (new_link id)) i no_link;
          share_count =
              if ltb 0 (p.share_count + 1) then p.share_count + 1 - 1 else p.share_count + 1;
        })
        p
restored p i id t e =
    let n : (if ltb 0 (p.share_count + 1) then p.share_count + 1 - 1 else p.share_count + 1)
        ≡ p.share_count =
      ground arith in
    ap₂ (λ ls k. record p { shares = ls; share_count = k })
      (set-set p.shares i (new_link id) no_link ∙ unused-blank p.shares i t e) n

-- For a region that the process has no link to, `share_attach_to_process` fails only when every link is
-- in use and then changes nothing, and otherwise `share_detach_from_process` restores the process
-- to what it was, its count included: the roll-back of `ipc_share`.
pub detach-attach :
    (p : Process) (id : ℤ)
    → HasLinks p
    → find_index (links_to id) p.shares ≡ none
    → let (code, p') = attach p id in
      ((code ≡ failure) × (p' ≡ p) × (p.share_count ≡ shared_per_proc))
      ⊎ ((code ≡ success) × (p'.share_count ≡ p.share_count + 1) × (detach p' id ≡ p))
unfolding attach detach
detach-attach p id v fresh = elim (Option-cases (find_index (λ l. not l.used) p.shares)) [
  | inl e ↦ rw (e, attach) (inl (refl, refl, v.counted ∙ all_used p.shares e ∙ v.room))
  | inr (i, e) ↦
      let space = count_used-lt p.shares i e in
      let low : ltb p.share_count shared_per_proc ≡ true =
        ground (arith, v.counted, v.room, space) in
      rw (e, attach)
        (rw low (
          inr (refl, refl, rw (find-new p.shares id i fresh e, detach) (restored p i id v.tidy e))))
]
