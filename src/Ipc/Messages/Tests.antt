-- ===== src/Ipc/Messages/Tests.antt =====
-- Runs of the mailboxes and messages of kernel/ipc.c, and their theorems at concrete states.
use pro_os.Prelude.{◌≡◌, true, List, [], ◌∷◌, arith}
use pro_os.Prelude.Arrays.{All}
use pro_os.Prelude.Int.{pos}
use pro_os.Ipc.Process.{Process, user, kernel, no_process, no_mailbox}
use pro_os.Ipc.Mailbox.{enqueue, matches}
use pro_os.Ipc.Mailbox.Queue.{IsValid, queue, empty-IsValid, enqueue_refines}
use pro_os.Ipc.Messages.{recv_round}
use pro_os.Ipc.Messages.Fetch.{select, allowed}
use pro_os.Ipc.Messages.Receive.{Ends, recv_round_lem}

-- Process 7, a user process that process 4, of the kernel, sends to.
abbrev server : Process
server = record no_process { alive = true; pid = pos 7; kind = user }

abbrev sender : Process
sender = record no_process { alive = true; pid = pos 4; kind = kernel }

abbrev procs : List Process
procs = sender ∷ server ∷ []

procs-IsValid : All (λ p. IsValid p.mailbox) procs
procs-IsValid = (empty-IsValid, (empty-IsValid, tt))

-- The mailbox of a kernel thread with a message in it.
abbrev filled : Process
filled = record sender { mailbox = (enqueue (pos 7) (5 ∷ 6 ∷ 7 ∷ []) 3 0 no_mailbox).2 }

filled-IsValid : IsValid filled.mailbox
filled-IsValid =
    (enqueue_refines (pos 7) (5 ∷ 6 ∷ 7 ∷ []) 3 0 no_mailbox empty-IsValid (omega arith)
      (omega arith)).0

recv_round_lem_example :
    let (found, left) = select (matches (pos 7)) (allowed filled) (queue filled.mailbox) in
    let r = recv_round (pos 7) 2 filled in
    IsValid r.1.mailbox × (queue r.1.mailbox ≡ left) × Ends filled 2 found r
recv_round_lem_example = recv_round_lem (pos 7) 2 filled filled-IsValid
