-- ===== src/Ipc/Caps/Rights.antt =====
-- kernel/ipc.c: what `ipc_cap_grant` and `ipc_cap_revoke` do to the rights of a process towards each
-- peer, and to the checks.
use Prim.Native.Nat.{bit_and, bit_or}
use pro_os.Prelude.{
  ℕ, ◌+◌, ◌-◌, ◌%◌, subst, ◌^◌, ◌<◌, ◌≡◌, refl, ap, true, false, ◌&&◌, ◌⊎◌, inl, inr, none, some,
  List, arith, ltb, ◌==◌, get_or, set, if◌then◌else◌, Bool-cases, Option-cases, length-set,
}
use pro_os.Prelude.Arrays.{find_index-Found}
use pro_os.Prelude.Bits.{
  complement, zero-bit_and, and_or_absorb, and_complement_self, and_complement_keeps, or_keeps,
}
use pro_os.Prelude.Int.{ℤ, ◌==ℤ◌, ==ℤ_iff, ==ℤ_refl, is_positive}
use pro_os.Ipc.Process.{Cap, Process, user, caps_per_proc, no_cap}
use pro_os.Ipc.Caps.{find_slot, rights_of, check, grant_slot, grant_to, revoke_from}
use pro_os.Ipc.Caps.Table.{
  IsValid, rights_of-granted, free_slot, entry, Absent-find_slot, granted-replace, Unique-replace,
  granted-new, Unique-new, count_used-new, count_used-replace, granted-remove, Unique-remove,
  count_used-remove,
}

-- How the rights towards each peer change when those towards `peer` are updated by `f`.
abbrev pub Updates : (ℕ → ℕ) → ℤ → Process → Process → Type 0
Updates f peer p p' =
    (q : ℤ)
    → rights_of p'.caps q ≡ (if q ==ℤ peer then f (rights_of p.caps q) else rights_of p.caps q)

module _ (p : Process) (peer : ℤ) (r : ℕ) (v : IsValid p) where
  rights_old :
      (i : ℕ)
      → find_slot p.caps peer ≡ some i
      → (get_or p.caps i no_cap).rights ≡ rights_of p.caps peer
  unfolding rights_of
  rights_old i e = rw (e, rights_of) refl

  rights_none : find_slot p.caps peer ≡ none → rights_of p.caps peer ≡ 0
  unfolding rights_of
  rights_none e = rw (e, rights_of) refl

  -- Replacing the peer's entry by one with other rights.
  replaced :
      (i : ℕ) (f : ℕ → ℕ) (p' : Process)
      → find_slot p.caps peer ≡ some i
      → r ≡ f (rights_of p.caps peer)
      → p'.caps ≡ set p.caps i (entry peer r)
      → p'.cap_count ≡ p.cap_count
      → IsValid p' × Updates f peer p p'
  replaced i f p' e fr c n = (
    record {
      room = rw c (omega (arith, length-set p.caps i (entry peer r), v.room));
      unique = rw c (Unique-replace p.caps peer i r e v.unique);
      counted = rw (c, n) (omega (arith, count_used-replace peer r p.caps i e, v.counted));
    },
    λ q. rw c (
        ground (
          arith,
          rights_of-granted (set p.caps i (entry peer r)) q,
          granted-replace p.caps peer q i r e,
          rights_of-granted p.caps q,
          ==ℤ_iff q peer,
        )),
  )

  -- A new entry for the peer in a free slot.
  added :
      (i : ℕ) (f : ℕ → ℕ) (p' : Process)
      → free_slot p.caps ≡ some i
      → find_slot p.caps peer ≡ none
      → r ≡ f 0
      → p'.caps ≡ set p.caps i (entry peer r)
      → p'.cap_count ≡ p.cap_count + 1
      → IsValid p' × Updates f peer p p'
  added i f p' e absent fr c n = (
    record {
      room = rw c (omega (arith, length-set p.caps i (entry peer r), v.room));
      unique = rw c (Unique-new peer r p.caps i e (Absent-find_slot p.caps peer absent) v.unique);
      counted = rw (c, n) (omega (arith, count_used-new peer r p.caps i e, v.counted));
    },
    λ q. rw c (
        ground (
          arith,
          rights_of-granted (set p.caps i (entry peer r)) q,
          granted-new peer r p.caps q i e (Absent-find_slot p.caps peer absent),
          rights_of-granted p.caps q,
          rights_none absent,
          ==ℤ_iff q peer,
        )),
  )

module _ (p : Process) (peer : ℤ) (r : ℕ) (v : IsValid p) where
  -- The peer's entry is freed once no rights are left.
  removed :
      (i : ℕ) (p' : Process)
      → find_slot p.caps peer ≡ some i
      → bit_and (rights_of p.caps peer) (complement 32 r) ≡ 0
      → p'.caps ≡ set p.caps i no_cap
      → p'.cap_count ≡ (if ltb 0 p.cap_count then p.cap_count - 1 else p.cap_count)
      → IsValid p' × Updates (λ o. bit_and o (complement 32 r)) peer p p'
  removed i p' e gone c n = (
    record {
      room = rw c (omega (arith, length-set p.caps i no_cap, v.room));
      unique = rw c (Unique-remove peer p.caps i v.unique);
      counted = rw (c, n) (ground (arith, count_used-remove peer p.caps i e, v.counted));
    },
    λ q. rw c (
        ground (
          arith,
          rights_of-granted (set p.caps i no_cap) q,
          granted-remove peer p.caps q i e v.unique,
          rights_of-granted p.caps q,
          ==ℤ_iff q peer,
        )),
  )

found_entry :
    (cs : List Cap) (peer : ℤ) (i r : ℕ)
    → find_slot cs peer ≡ some i
    → record (get_or cs i no_cap) { rights = r } ≡ entry peer r
unfolding find_slot
found_entry cs peer i r e =
    let f = find_index-Found (λ (c : Cap). c.used && (c.peer ==ℤ peer)) cs i e in
    ground (arith, f.passes no_cap, ==ℤ_iff (get_or cs i no_cap).peer peer)

-- Granting adds the rights to those towards the peer and changes no others; it is refused only when
-- the table has no entry for the peer and no free one.
pub grant_to_lem :
    (p : Process) (peer : ℤ) (r : ℕ)
    → IsValid p
    → ((grant_to p peer r ≡ none) × (find_slot p.caps peer ≡ none) × (free_slot p.caps ≡ none))
      ⊎ ((p' : Process) × (grant_to p peer r ≡ some p')
          × IsValid p'
          × Updates (λ old. bit_or old r) peer p p'
          × (p'.kind ≡ p.kind)
          × (p'.pid ≡ p.pid)
          × (p'.alive ≡ p.alive))
unfolding grant_to grant_slot
grant_to_lem p peer r v = elim (Option-cases (find_slot p.caps peer)) [
  | inr (i, e) ↦
      let old : ℕ = (get_or p.caps i no_cap).rights in
      let p' : Process = record p { caps = set p.caps i (entry peer (bit_or old r)) } in
      let both =
        replaced p peer (bit_or old r) v i (λ o. bit_or o r) p' e
          (ap (λ o. bit_or o r) (rights_old p peer r v i e)) refl refl in
      inr (p', rw (e, grant_to, grant_slot) refl, both.0, both.1, refl, refl, refl)
  | inl e ↦ elim (Option-cases (free_slot p.caps)) [
    | inl full ↦ inl (rw (e, grant_to, grant_slot) (rw full refl), e, full)
    | inr (i, free) ↦
        let p' : Process = record p {
          caps = set p.caps i (entry peer (bit_or 0 r));
          cap_count =
              if true && ltb p.cap_count caps_per_proc
              then (p.cap_count + 1) % 256
              else p.cap_count;
        } in
        let both =
          added p peer (bit_or 0 r) v i (λ o. bit_or o r) p' free e refl refl
            (ground (arith, count_used-new peer r p.caps i free, v.counted, v.room)) in
        inr (p', rw (e, grant_to, grant_slot) (rw free refl), both.0, both.1, refl, refl, refl)
  ]
]

check-granted :
    (p g : Process) (peer : ℤ) (r : ℕ) (q : ℤ) (s : ℕ)
    → Updates (λ old. bit_or old r) peer p g
    → g.kind ≡ p.kind
    → g.pid ≡ p.pid
    → ((check p q s ≡ true) ⊎ ((q ≡ peer) × (s ≡ r)))
    → check g q s ≡ true
unfolding check
check-granted p g peer r q s up k i (inl c) =
    ground (arith, up q, or_keeps (rights_of p.caps q) r s)
check-granted p g peer r q s up k i (inr c) =
    ground (arith, up q, ==ℤ_refl peer, and_or_absorb (rights_of p.caps q) r)

-- After a grant the check of those rights passes, and so does every check that passed before it.
pub grant_to-check :
    (p p' : Process) (peer : ℤ) (r : ℕ) (q : ℤ) (s : ℕ)
    → IsValid p
    → grant_to p peer r ≡ some p'
    → ((check p q s ≡ true) ⊎ ((q ≡ peer) × (s ≡ r)))
    → check p' q s ≡ true
grant_to-check p p' peer r q s v e c = elim (grant_to_lem p peer r v) [
  | inl (n, _, _) ↦ cc
  | inr (g, eg, _, up, k, i, _) ↦
      subst (λ x. check x q s ≡ true) (cc) (check-granted p g peer r q s up k i c)
]

-- Revoking takes the rights from those towards the peer and changes no others.
pub revoke_from_lem :
    (p : Process) (peer : ℤ) (r : ℕ)
    → IsValid p
    → let p' = revoke_from p peer r in
      IsValid p'
      × Updates (λ old. bit_and old (complement 32 r)) peer p p'
      × (p'.kind ≡ p.kind)
      × (p'.pid ≡ p.pid)
      × (p'.alive ≡ p.alive)
unfolding revoke_from
revoke_from_lem p peer r v = elim (Option-cases (find_slot p.caps peer)) [
  | inl e ↦
      rw (e, revoke_from)
        (
          v,
          λ q.
              ground
                (arith, rights_none p peer r v e, ==ℤ_iff q peer, zero-bit_and (complement 32 r)),
          refl,
          refl,
          refl,
        )
  | inr (i, e) ↦
      elim (Bool-cases (bit_and (get_or p.caps i no_cap).rights (complement 32 r) == 0)) [
        | inl gone ↦
            rw (e, revoke_from)
              (rw gone (
                let both =
                  removed p peer r v i
                    (record p {
                      caps = set p.caps i no_cap;
                      cap_count = if ltb 0 p.cap_count then p.cap_count - 1 else p.cap_count;
                    })
                    e (ground (arith, rights_old p peer r v i e)) refl refl in
                (both.0, both.1, refl, refl, refl)))
        | inr left ↦
            rw (e, revoke_from)
              (rw left (
                let rest : ℕ = bit_and (get_or p.caps i no_cap).rights (complement 32 r) in
                let both =
                  replaced p peer rest v i (λ o. bit_and o (complement 32 r))
                    (record p {
                      caps = set p.caps i (record (get_or p.caps i no_cap) { rights = rest });
                    })
                    e (ap (λ o. bit_and o (complement 32 r)) (rights_old p peer r v i e))
                    (ap (set p.caps i) (found_entry p.caps peer i rest e)) refl in
                (both.0, both.1, refl, refl, refl)))
      ]
]

-- After a revocation a user process no longer passes the check of those rights towards that peer.
pub revoke_from-check :
    (p : Process) (peer : ℤ) (r : ℕ)
    → IsValid p
    → p.kind ≡ user
    → is_positive peer ≡ true
    → (p.pid ==ℤ peer) ≡ false
    → 0 < r
    → r < 2 ^ 32
    → check (revoke_from p peer r) peer r ≡ false
unfolding check
revoke_from-check p peer r v k pp self r0 r32 =
    let l = revoke_from_lem p peer r v in
    ground (
      arith,
      l.1 peer,
      l.2,
      l.3,
      ==ℤ_refl peer,
      and_complement_self 32 (rights_of p.caps peer) r r32,
    )

-- After a revocation every check passes that passed before it, if it is of other rights or towards
-- another peer.
pub revoke_from-check_others :
    (p : Process) (peer : ℤ) (r : ℕ) (q : ℤ) (s : ℕ)
    → IsValid p
    → r < 2 ^ 32
    → s < 2 ^ 32
    → ((bit_and r s ≡ 0) ⊎ ((q ==ℤ peer) ≡ false))
    → check p q s ≡ true
    → check (revoke_from p peer r) q s ≡ true
unfolding check
revoke_from-check_others p peer r q s v r32 s32 other c =
    let l = revoke_from_lem p peer r v in
    ground (arith, l.1 q, l.2, l.3, and_complement_keeps 32 (rights_of p.caps q) r s r32 s32)
