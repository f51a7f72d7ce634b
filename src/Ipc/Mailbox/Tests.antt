-- ===== src/Ipc/Mailbox/Tests.antt =====
-- Runs of the mailboxes of kernel/ipc.c, and their theorems at concrete mailboxes.
use pro_os.Prelude.{◌≡◌, refl, ◌⊎◌, true, false, [], ◌∷◌, ◌++◌, arith, replicate, take}
use pro_os.Prelude.Arrays.{find_index}
use pro_os.Prelude.Int.{pos}
use pro_os.Ipc.Process.{Mailbox, no_mailbox, invalid_pid, msg_queue_len, any_process}
use pro_os.Ipc.Mailbox.{
  clear, enqueue, try_dequeue, push_waiter, pop_waiter, put, remove_slot, is_waiting,
}
use pro_os.Ipc.Mailbox.Queue.{IsValid, messages, empty-IsValid, enqueue_refines}
use pro_os.Ipc.Mailbox.Waiters.{waiting}

-- Two processes wait for a message.
abbrev watched : Mailbox
watched = record no_mailbox { waiters = pos 7 ∷ pos 8 ∷ replicate 6 invalid_pid; waiter_count = 2 }

watched-IsValid : IsValid watched
watched-IsValid = record {
  room = refl;
  bounded = omega arith;
  arrays = empty-IsValid.arrays;
  live = tt;
  waiters = record { room = refl; bounded = omega arith };
}

wakes_oldest : (enqueue (pos 4) (5 ∷ []) 1 0 watched).1 ≡ pos 7
unfolding enqueue put pop_waiter
wakes_oldest = refl

cleared : (clear watched).waiters ≡ replicate 8 invalid_pid
unfolding clear
cleared = refl

taken : (try_dequeue any_process (enqueue (pos 4) (5 ∷ []) 1 0 watched).2).1.count ≡ 0
unfolding enqueue put pop_waiter try_dequeue remove_slot find_index
taken = refl

no_room_for_zero : (push_waiter (pos 0) watched).0 ≡ false
unfolding push_waiter
no_room_for_zero = refl

already_there : push_waiter (pos 8) watched ≡ (true, watched)
unfolding push_waiter is_waiting
already_there = refl

enqueue_refines_example :
    let (done, wake, m') = enqueue (pos 4) (1 ∷ 2 ∷ 3 ∷ []) 2 0 watched in
    IsValid m'
    × (((done ≡ false) × (watched.count ≡ msg_queue_len) × (m' ≡ watched) × (wake ≡ invalid_pid))
        ⊎ ((done ≡ true)
            × (messages m' ≡ messages watched ++ (pos 4, take 2 (1 ∷ 2 ∷ 3 ∷ [])) ∷ [])
            × (((waiting watched ≡ []) × (wake ≡ invalid_pid) × (waiting m' ≡ []))
                ⊎ (waiting watched ≡ wake ∷ waiting m'))))
enqueue_refines_example =
    enqueue_refines (pos 4) (1 ∷ 2 ∷ 3 ∷ []) 2 0 watched watched-IsValid (omega arith) (omega arith)

-- The mailbox with a message in it.
abbrev filled : Mailbox
filled = (enqueue (pos 4) (5 ∷ []) 1 0 watched).2

filled-IsValid : IsValid filled
filled-IsValid =
    (enqueue_refines (pos 4) (5 ∷ []) 1 0 watched watched-IsValid (omega arith) (omega arith)).0
