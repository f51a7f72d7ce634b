-- ===== src/Ipc/Mailbox/Waiters.antt =====
-- kernel/ipc.c: the processes that wait at a mailbox, first come, first woken.
use pro_os.Prelude.{
  ◌-◌, ◌≤◌, ◌≡◌, true, false, ◌⊎◌, List, [], ◌∷◌, ◌++◌, arith, length, take, length-set,
}
use pro_os.Prelude.Arrays.{shift_down, length-shift_down, take-set_end, take-remove, take_front}
use pro_os.Prelude.Int.{ℤ, is_positive}
use pro_os.Ipc.Process.{Mailbox, endpoint_waiters, invalid_pid}
use pro_os.Ipc.Mailbox.{is_waiting, push_waiter, pop_waiter}

abbrev pub waiting : Mailbox → List ℤ
waiting m = take m.waiter_count m.waiters

-- The array of pids is never overrun.
pub record HasRoom (m : Mailbox) : Type 0 where
  pub room : length m.waiters ≡ endpoint_waiters
  pub bounded : m.waiter_count ≤ endpoint_waiters

-- `mailbox_pop_waiter` takes the oldest waiter out and keeps the others in order; the messages stay.
pub pop_waiter_lem :
    (m : Mailbox)
    → HasRoom m
    → let (w, m') = pop_waiter m in
      HasRoom m'
      × (m'.slots ≡ m.slots)
      × (m'.count ≡ m.count)
      × (((waiting m ≡ []) × (w ≡ invalid_pid) × (m' ≡ m)) ⊎ (waiting m ≡ w ∷ waiting m'))
unfolding pop_waiter
pop_waiter_lem m v = ground (
  arith,
  take_front invalid_pid m.waiters m.waiter_count,
  take-remove invalid_pid m.waiters 0 m.waiter_count invalid_pid,
  length-shift_down invalid_pid m.waiters 0 (m.waiter_count - 1),
  length-set (shift_down invalid_pid m.waiters 0 (m.waiter_count - 1)) (m.waiter_count - 1)
      invalid_pid,
)

-- `mailbox_push_waiter` leaves the pid in the queue, at the end if it is new, and refuses only a pid
-- that is not positive or a full queue; the messages stay.
pub push_waiter_lem :
    (pid : ℤ) (m : Mailbox)
    → HasRoom m
    → let (done, m') = push_waiter pid m in
      HasRoom m'
      × (m'.slots ≡ m.slots)
      × (m'.count ≡ m.count)
      × (((done ≡ false)
            × (m' ≡ m)
            × ((is_positive pid ≡ false) ⊎ (m.waiter_count ≡ endpoint_waiters)))
          ⊎ ((done ≡ true) × (m' ≡ m) × (is_waiting m.waiters m.waiter_count pid ≡ true))
          ⊎ ((done ≡ true) × (waiting m' ≡ waiting m ++ pid ∷ [])))
unfolding push_waiter
push_waiter_lem pid m v =
    ground
      (arith, length-set m.waiters m.waiter_count pid, take-set_end m.waiters m.waiter_count pid)
