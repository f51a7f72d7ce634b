-- ===== src/Ipc/Shares/Rollback.antt =====
-- kernel/ipc.c: the part of `ipc_share` under the lock, with its roll-back over the process table.
use pro_os.Prelude.{
  set_self, set-set, ℕ, zero, suc, ◌<◌, ◌≡◌, refl, ap, sym, ◌∙◌, true, false, not, ◌⊎◌, inl, inr,
  none, some, List, [], ◌∷◌, arith, length, get_or, set, get_or-set_self, Option-cases,
}
use pro_os.Prelude.Arrays.{All, find_index}
use pro_os.Prelude.Int.{ℤ, pos, failure, success}
use pro_os.Ipc.Process.{Process, no_process}
use pro_os.Ipc.Shares.{
  Region, no_region, links_to, attach, detach, attach_both, detach_both, share_locked,
}
use pro_os.Ipc.Shares.Links.{HasLinks, detach-attach}

-- The process has no link to the region.
abbrev pub IsApart : ℤ → Process → Type 0
IsApart id p = find_index (links_to id) p.shares ≡ none

detach_apart : (p : Process) (id : ℤ) → IsApart id p → detach p id ≡ p
unfolding detach
detach_apart p id e = rw (e, detach) refl

attach_cases :
    (p : Process) (id : ℤ)
    → ((attach p id).0 ≡ success) ⊎ (((attach p id).0 ≡ failure) × ((attach p id).1 ≡ p))
unfolding attach
attach_cases p id = elim (Option-cases (find_index (λ l. not l.used) p.shares)) [
  | inl e ↦ rw (e, attach) (inr (refl, refl))
  | inr (i, e) ↦ rw (e, attach) (inl refl)
]

module _ (o t : ℕ) (id : ℤ) (procs : List Process) (v : HasLinks (get_or procs o no_process))
    (l : o < length procs) (apart_o : IsApart id (get_or procs o no_process))
    (apart_t : IsApart id (get_or procs t no_process)) where
  abbrev owner : Process
  owner = get_or procs o no_process

  -- A detachment of the target alone changes nothing.
  target_stays : set procs t (detach (get_or procs t no_process) id) ≡ procs
  target_stays =
      ap (set procs t) (detach_apart (get_or procs t no_process) id apart_t)
      ∙ set_self procs t no_process

  undo_none : detach_both o t id procs ≡ procs
  unfolding detach_both
  undo_none =
      rw (ap (set procs o) (detach_apart owner id apart_o) ∙ set_self procs o no_process)
        target_stays

  undo_owner : (p' : Process) → detach p' id ≡ owner → detach_both o t id (set procs o p') ≡ procs
  unfolding detach_both
  undo_owner p' e =
      rw
        (ap (λ q. set (set procs o p') o (detach q id)) (get_or-set_self procs o p' no_process l)
          ∙ ap (set (set procs o p') o) e
          ∙ set-set procs o p' owner
          ∙ set_self procs o no_process)
        target_stays

  -- Both attachments succeed, or the roll-back restores all processes.
  both_or_none :
      let (done, procs') = attach_both o t id procs in
      (done ≡ true) ⊎ ((done ≡ false) × (detach_both o t id procs' ≡ procs))
  unfolding attach_both
  both_or_none = elim (detach-attach owner id v apart_o) [
    | inl (code, same, _) ↦
        rw code (inr (refl, rw (ap (set procs o) same ∙ set_self procs o no_process) undo_none))
    | inr (code, _, back) ↦
        let p' : Process = (attach owner id).1 in
        let procs' : List Process = set procs o p' in
        elim (attach_cases (get_or procs' t no_process) id) [
          | inl done ↦ rw (code, done) (inl refl)
          | inr (fails, same) ↦
              rw (code, fails)
                (inr (
                  refl,
                  rw (ap (set procs' t) same ∙ set_self procs' t no_process) (undo_owner p' back),
                ))
        ]
  ]

-- An entry of the table is in use, or as it is after `ipc_system_init`.
abbrev pub IsCleared : Region → Type 0
IsCleared r = (r.used ≡ true) ⊎ (r ≡ no_region)

unused-cleared :
    (table : List Region) (i : ℕ)
    → All IsCleared table
    → find_index (λ r. not r.used) table ≡ some i
    → (set table i no_region ≡ table) × (i < length table)
unfolding find_index
unused-cleared [] i t e = ground arith
unused-cleared (r ∷ rs) zero (inl u, t) e = ground arith
unused-cleared (r ∷ rs) zero (inr b, t) e = (ap (λ x. x ∷ rs) (sym b), omega arith)
unused-cleared (r ∷ rs) (suc i) t e =
    let u = unused-cleared rs i t.1 (ground arith) in (ap (◌∷◌ r) u.0, omega (arith, u.1))

-- `ipc_share`, once its checks are passed, either fails and leaves the table and all processes exactly as
-- they were, or enters the region in a free entry of the table; the condition is that no process
-- has a link to an entry that is free.
pub share_locked_lem :
    (o t : ℕ) (target : ℤ) (base pages : ℕ) (procs : List Process) (table : List Region)
    → HasLinks (get_or procs o no_process)
    → o < length procs
    → All IsCleared table
    → ((i : ℕ)
        → find_index (λ r. not r.used) table ≡ some i
        → IsApart (pos i) (get_or procs o no_process) × IsApart (pos i) (get_or procs t no_process))
    → let (code, procs', table') = share_locked o t target base pages procs table in
      ((code ≡ failure) × (procs' ≡ procs) × (table' ≡ table))
      ⊎ ((code ≡ success)
          × ((i : ℕ) × (find_index (λ r. not r.used) table ≡ some i)
              × (get_or table' i no_region ≡ record {
                used = true;
                owner = (get_or procs o no_process).pid;
                target = target;
                addr = base;
                pages = pages;
                flags = 0;
              })))
unfolding share_locked
share_locked_lem o t target base pages procs table v l cleared apart =
    elim (Option-cases (find_index (λ r. not r.used) table)) [
      | inl e ↦ rw (e, share_locked) (inl (refl, refl, refl))
      | inr (i, e) ↦
          let u = unused-cleared table i cleared e in
          let a = apart i e in
          elim (both_or_none o t (pos i) procs v l a.0 a.1) [
            | inl done ↦
                rw (e, share_locked)
                  (rw done (inr (refl, (i, refl, get_or-set_self table i _ no_region u.1))))
            | inr (fails, restored) ↦ rw (e, share_locked) (rw fails (inl (refl, restored, u.0)))
          ]
    ]
