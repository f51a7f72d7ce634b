-- ===== src/Ipc/Caps/Calls.antt =====
-- kernel/ipc.c: `ipc_cap_grant`, `ipc_cap_revoke` and `ipc_cap_query` over the process table.
use Prim.Native.Nat.{bit_and, bit_or}
use pro_os.Prelude.{
  ℕ, ◌≡◌, refl, ◌∙◌, ap, Bool, true, ◌⊎◌, inl, inr, some, List, arith, get_or, set, get_or-set_self,
  Option-cases,
}
use pro_os.Prelude.Arrays.{All, All-get_or, All-set}
use pro_os.Prelude.Bits.{complement}
use pro_os.Prelude.Int.{ℤ, ==ℤ_refl, is_positive, failure, success}
use pro_os.Ipc.Process.{Process, no_process, caps_per_proc, lookup, lookup-set, lookup-lt}
use pro_os.Ipc.Caps.{rights_of, revoke_from, valid_call, cap_grant, cap_revoke, cap_query}
use pro_os.Ipc.Caps.Table.{IsValid, Unique-blank}
use pro_os.Ipc.Caps.Rights.{grant_to_lem, revoke_from_lem}

valid_call-some :
    (ini : Bool) (owner target : ℤ) (r i : ℕ) (procs : List Process)
    → valid_call ini owner target r procs ≡ some i
    → (ini ≡ true)
      × (is_positive owner ≡ true)
      × (is_positive target ≡ true)
      × (lookup owner procs ≡ some i)
unfolding valid_call
valid_call-some ini owner target r i procs e = ground arith

query_at :
    (owner target : ℤ) (i : ℕ) (procs : List Process)
    → is_positive owner ≡ true
    → is_positive target ≡ true
    → lookup owner procs ≡ some i
    → cap_query true owner target procs
      ≡ (success, some (rights_of (get_or procs i no_process).caps target))
unfolding cap_query
query_at owner target i procs o t e = rw (o, t) (rw e refl)

pub no_process-IsValid : IsValid no_process
no_process-IsValid = record { room = refl; unique = Unique-blank caps_per_proc; counted = refl }

-- What a call on the rights does that returns `code` and leaves `after`: it fails and changes nothing,
-- or it succeeds, the answer of a query for the same pair changes by `f`, and all tables stay valid.
abbrev pub Adjusts : (ℕ → ℕ) → Bool → ℤ → ℤ → List Process → ℤ × List Process → Type 0
Adjusts f ini owner target procs (code, after) =
    ((code ≡ failure) × (after ≡ procs))
    ⊎ ((code ≡ success)
        × ((old : ℕ) × (cap_query ini owner target procs ≡ (success, some old))
            × (cap_query ini owner target after ≡ (success, some (f old))))
        × All IsValid after)

adjusted :
    (f : ℕ → ℕ) (ini : Bool) (owner target : ℤ) (r i : ℕ) (procs : List Process) (p : Process)
    → All IsValid procs
    → valid_call ini owner target r procs ≡ some i
    → IsValid p
    → rights_of p.caps target ≡ f (rights_of (get_or procs i no_process).caps target)
    → p.pid ≡ (get_or procs i no_process).pid
    → p.alive ≡ (get_or procs i no_process).alive
    → Adjusts f ini owner target procs (success, set procs i p)
adjusted f ini owner target r i procs p vs e v rs same_pid same_alive =
    let (on, o, t, l) = valid_call-some ini owner target r i procs e in
    inr (
      refl,
      (
        rights_of (get_or procs i no_process).caps target,
        rw on (query_at owner target i procs o t l),
        rw on (
            query_at owner target i (set procs i p) o t
              (lookup-set owner procs i p same_pid same_alive ∙ l)
            ∙ ap (λ n. (success, some n))
                (ap (λ (q : Process). rights_of q.caps target)
                    (get_or-set_self procs i p no_process (lookup-lt owner procs i l))
                  ∙ rs)),
      ),
      All-set IsValid procs i p vs v,
    )

-- `ipc_cap_grant` fails and changes nothing, or adds exactly the rights that it is given to what
-- `ipc_cap_query` answers for the owner and the target.
pub cap_grant_lem :
    (ini : Bool) (owner target : ℤ) (r : ℕ) (procs : List Process)
    → All IsValid procs
    → Adjusts (λ old. bit_or old r) ini owner target procs (cap_grant ini owner target r procs)
unfolding cap_grant
cap_grant_lem ini owner target r procs vs =
    elim (Option-cases (valid_call ini owner target r procs)) [
      | inl e ↦ rw (e, cap_grant) (inl (refl, refl))
      | inr (i, e) ↦
          let p : Process = get_or procs i no_process in
          let v = All-get_or IsValid procs i no_process vs no_process-IsValid in
          elim (grant_to_lem p target r v) [
            | inl (g, _, _) ↦ rw (e, cap_grant) (rw g (inl (refl, refl)))
            | inr (p', g, v', up, k, same_pid, same_alive) ↦
                rw (e, cap_grant)
                  (rw g (
                    adjusted (λ old. bit_or old r) ini owner target r i procs p' vs e v'
                      (ground (arith, up target, ==ℤ_refl target)) same_pid same_alive))
          ]
    ]

-- `ipc_cap_revoke` fails and changes nothing, or takes exactly the rights that it is given from what
-- `ipc_cap_query` answers for the owner and the target.
pub cap_revoke_lem :
    (ini : Bool) (owner target : ℤ) (r : ℕ) (procs : List Process)
    → All IsValid procs
    → Adjusts
        (λ old. bit_and old (complement 32 r))
        ini
        owner
        target
        procs
        (cap_revoke ini owner target r procs)
unfolding cap_revoke
cap_revoke_lem ini owner target r procs vs =
    elim (Option-cases (valid_call ini owner target r procs)) [
      | inl e ↦ rw (e, cap_revoke) (inl (refl, refl))
      | inr (i, e) ↦
          let p : Process = get_or procs i no_process in
          let v = All-get_or IsValid procs i no_process vs no_process-IsValid in
          let l = revoke_from_lem p target r v in
          rw (e, cap_revoke)
            (adjusted (λ old. bit_and old (complement 32 r)) ini owner target r i procs
              (revoke_from p target r) vs e l.0 (ground (arith, l.1 target, ==ℤ_refl target)) l.3
              l.4)
    ]
