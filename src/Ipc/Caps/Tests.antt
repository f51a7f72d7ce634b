-- ===== src/Ipc/Caps/Tests.antt =====
-- Runs of the rights of kernel/ipc.c, and its theorems at a concrete table.
use pro_os.Prelude.{◌≡◌, refl, inr, true, false, none, some, List, [], ◌∷◌, arith, replicate}
use pro_os.Prelude.Arrays.{All, find_index}
use pro_os.Prelude.Int.{pos, failure, success}
use pro_os.Ipc.Process.{Process, user, no_process, no_cap, right_send, right_share, lookup}
use pro_os.Ipc.Caps.{
  check, rights_of, find_slot, grant_slot, grant_to, revoke_from, valid_call, cap_grant, cap_query,
}
use pro_os.Ipc.Caps.Table.{IsValid, Unique-blank, Absent-blank}
use pro_os.Ipc.Caps.Rights.{revoke_from-check}
use pro_os.Ipc.Caps.Calls.{no_process-IsValid}

-- Process 4, which may send to process 7 and receive from it.
abbrev client : Process
client = record no_process {
  alive = true;
  pid = pos 4;
  kind = user;
  caps = record { used = true; peer = pos 7; rights = 3 } ∷ replicate 15 no_cap;
  cap_count = 1;
}

abbrev procs : List Process
procs = no_process ∷ client ∷ []

client-IsValid : IsValid client
client-IsValid = record {
  room = refl;
  unique = (inr (Absent-blank 15 (pos 7)), Unique-blank 15);
  counted = refl;
}

procs-IsValid : All IsValid procs
procs-IsValid = (no_process-IsValid, (client-IsValid, tt))

query_client : cap_query true (pos 4) (pos 7) procs ≡ (success, some 3)
unfolding cap_query lookup rights_of find_slot find_index
query_client = refl

query_before_init : cap_query false (pos 4) (pos 7) procs ≡ (failure, none)
unfolding cap_query
query_before_init = refl

grant_share :
    (cap_query true (pos 4) (pos 7) (cap_grant true (pos 4) (pos 7) right_share procs).1)
    ≡ (success, some 7)
unfolding cap_query cap_grant valid_call grant_to grant_slot lookup rights_of find_slot find_index
grant_share = refl

last_right_gone : (revoke_from client (pos 7) 3).caps ≡ replicate 16 no_cap
unfolding revoke_from find_slot find_index
last_right_gone = refl

revoke_from-check_example : check (revoke_from client (pos 7) right_send) (pos 7) right_send ≡ false
revoke_from-check_example =
    revoke_from-check client (pos 7) right_send client-IsValid refl refl refl (omega arith)
      (omega arith)
