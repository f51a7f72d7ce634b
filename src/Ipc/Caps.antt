-- ===== src/Ipc/Caps.antt =====
-- kernel/ipc.c: the rights that a process has towards its peers.
pub mod Table
pub mod Rights
pub mod Calls
mod Tests
use Prim.Native.Nat.{bit_and, bit_or}
use pro_os.Prelude.{
  ℕ, suc, ◌+◌, ◌-◌, ◌%◌, ◌<◌, Bool, true, false, not, ◌&&◌, ◌||◌, Option, none, some, List, [], ◌∷◌,
  ltb, ◌==◌, get_or, set, if◌then◌else◌,
}
use pro_os.Prelude.Arrays.{find_index}
use pro_os.Prelude.Bits.{complement}
use pro_os.Prelude.Int.{ℤ, pos, ◌==ℤ◌, is_positive, failure, success}
use pro_os.Ipc.Process.{
  Cap, Process, Kind, kernel, user, caps_per_proc, no_cap, no_process, invalid_pid, lookup,
}

-- `capability_find_slot`: the index of the entry.
pub find_slot : List Cap → ℤ → Option ℕ
find_slot caps peer = find_index (λ c. c.used && (c.peer ==ℤ peer)) caps

-- The rights that the entry for a peer grants, 0 where there is none.
pub rights_of : List Cap → ℤ → ℕ
rights_of caps peer = elim (find_slot caps peer) [
  | none ↦ 0
  | some i ↦ (get_or caps i no_cap).rights
]

-- `capability_check`, the process not NULL
unfoldable pub check : Process → ℤ → ℕ → Bool
check p peer rights = if rights == 0 then true else elim p.kind [
  | kernel ↦ true
  | user ↦
      not (is_positive peer)
      || (p.pid ==ℤ peer)
      || (bit_and (rights_of p.caps peer) rights == rights)
]

-- The entry that `ipc_cap_grant` writes to: the peer's, or the first free one, made the peer's.
-- The flag says that it is new.
grant_slot : List Cap → ℤ → Option (ℕ × Bool)
grant_slot caps peer = elim (find_slot caps peer) [
  | some i ↦ some (i, false)
  | none ↦ elim (find_index (λ c. not c.used) caps) [ none ↦ none | some i ↦ some (i, true) ]
]

-- `ipc_cap_grant` on a process
pub grant_to : Process → ℤ → ℕ → Option Process
grant_to p peer rights = elim (grant_slot p.caps peer) [
  | none ↦ none
  | some (i, new) ↦
      let old = if new then 0 else (get_or p.caps i no_cap).rights in
      some (record p {
        caps = set p.caps i (record { used = true; peer = peer; rights = bit_or old rights });
        cap_count =
            if new && ltb p.cap_count caps_per_proc then (p.cap_count + 1) % 256 else p.cap_count;
      })
]

-- `ipc_cap_revoke` on a process
pub revoke_from : Process → ℤ → ℕ → Process
revoke_from p peer rights = elim (find_slot p.caps peer) [
  | none ↦ p
  | some i ↦
      let left = bit_and (get_or p.caps i no_cap).rights (complement 32 rights) in
      if left == 0
      then record p {
        caps = set p.caps i (record { used = false; peer = invalid_pid; rights = 0 });
        cap_count = if ltb 0 p.cap_count then p.cap_count - 1 else p.cap_count;
      }
      else record p { caps = set p.caps i (record (get_or p.caps i no_cap) { rights = left }) }
]

-- The checks of `ipc_cap_grant` and `ipc_cap_revoke`: the owner's index.
valid_call : Bool → ℤ → ℤ → ℕ → List Process → Option ℕ
valid_call initialized owner target rights procs =
    if not initialized || not (is_positive owner) || not (is_positive target) || (rights == 0)
    then none
    else lookup owner procs

-- `ipc_cap_grant`; `initialized` is the static flag of kernel/ipc.c.
pub cap_grant : Bool → ℤ → ℤ → ℕ → List Process → ℤ × List Process
cap_grant initialized owner target rights procs =
    elim (valid_call initialized owner target rights procs) [
      | none ↦ (failure, procs)
      | some i ↦ elim (grant_to (get_or procs i no_process) target rights) [
        | none ↦ (failure, procs)
        | some p ↦ (success, set procs i p)
      ]
    ]

pub cap_revoke : Bool → ℤ → ℤ → ℕ → List Process → ℤ × List Process
cap_revoke initialized owner target rights procs =
    elim (valid_call initialized owner target rights procs) [
      | none ↦ (failure, procs)
      | some i ↦ (success, set procs i (revoke_from (get_or procs i no_process) target rights))
    ]

-- `ipc_cap_query`: the code, and the rights written through `rights_out`.
pub cap_query : Bool → ℤ → ℤ → List Process → ℤ × Option ℕ
cap_query initialized owner target procs =
    if not initialized || not (is_positive owner) || not (is_positive target)
    then (failure, none)
    else elim (lookup owner procs) [
      | none ↦ (failure, none)
      | some i ↦ (success, some (rights_of (get_or procs i no_process).caps target))
    ]
