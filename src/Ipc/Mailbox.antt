-- ===== src/Ipc/Mailbox.antt =====
-- kernel/ipc.c: the mailbox of a process, an array of message slots with a count, and the processes
-- that wait for a message, an array of pids with a count. A wake-up is a result.
pub mod Waiters
pub mod Queue
mod Tests
use pro_os.Prelude.{
  ℕ, zero, suc, ◌+◌, ◌-◌, ◌%◌, Bool, true, false, not, ◌&&◌, ◌||◌, Option, none, some, List, [],
  ◌∷◌, map, ltb, leb, ◌==◌, if◌then◌else◌, get_or, set, take, replicate,
}
use pro_os.Prelude.Arrays.{shift_down, find_index}
use pro_os.Prelude.Blocks.{copy}
use pro_os.Prelude.Int.{ℤ, ◌==ℤ◌, is_positive, failure}
use pro_os.Ipc.Process.{
  Slot, Mailbox, msg_queue_len, endpoint_waiters, invalid_pid, any_process, blank_slot,
}

-- What `mailbox_init` and `mailbox_clear` leave of a slot.
clear_slot : Slot → Slot
clear_slot s = record s { used = false; sender = ℤ.pos 0; flags = 0; size = 0 }

-- `mailbox_init`, and `mailbox_clear`, which does the same under the lock.
pub clear : Mailbox → Mailbox
clear m = record {
  slots = map clear_slot m.slots;
  count = 0;
  waiters = replicate endpoint_waiters invalid_pid;
  waiter_count = 0;
}

pub is_waiting : List ℤ → ℕ → ℤ → Bool
is_waiting xs zero pid = false
is_waiting [] (suc n) pid = false
is_waiting (x ∷ xs) (suc n) pid = (x ==ℤ pid) || is_waiting xs n pid

-- `mailbox_push_waiter`
pub push_waiter : ℤ → Mailbox → Bool × Mailbox
push_waiter pid m =
    if not (is_positive pid)
    then (false, m)
    else if is_waiting m.waiters m.waiter_count pid
    then (true, m)
    else if leb endpoint_waiters m.waiter_count
    then (false, m)
    else (
      true,
      record m {
        waiters = set m.waiters m.waiter_count pid;
        waiter_count = (m.waiter_count + 1) % 256;
      },
    )

-- `mailbox_pop_waiter`
pub pop_waiter : Mailbox → ℤ × Mailbox
pop_waiter m = if m.waiter_count == 0 then (invalid_pid, m) else (
  get_or m.waiters 0 invalid_pid,
  record m {
    waiters =
        set (shift_down invalid_pid m.waiters 0 (m.waiter_count - 1)) (m.waiter_count - 1)
          invalid_pid;
    waiter_count = m.waiter_count - 1;
  },
)

-- The test of the search in `mailbox_try_dequeue`.
abbrev pub matches : ℤ → Slot → Bool
matches source s = s.used && ((source ==ℤ any_process) || (s.sender ==ℤ source))

-- The slot at `i` leaves the array, and the slot behind the last is cleared.
remove_slot : ℕ → Mailbox → Mailbox
remove_slot i m =
    let shifted = shift_down blank_slot m.slots i (m.count - (i + 1)) in
    record m {
      slots = set shifted (m.count - 1) (clear_slot (get_or shifted (m.count - 1) blank_slot));
      count = m.count - 1;
    }

-- `mailbox_try_dequeue`: the message, if there is one.
pub try_dequeue : ℤ → Mailbox → Option Slot × Mailbox
try_dequeue source m = elim (find_index (matches source) (take m.count m.slots)) [
  | none ↦ (none, m)
  | some i ↦ (some (get_or m.slots i blank_slot), remove_slot i m)
]

-- The message of `size` bytes at the end of the array.
put : ℤ → List ℕ → ℕ → ℕ → Mailbox → Mailbox
put sender bytes size flags m = record m {
  slots = set m.slots m.count (record {
    used = true;
    sender = sender;
    flags = flags;
    size = size;
    bytes = copy (get_or m.slots m.count blank_slot).bytes bytes size;
  });
  count = (m.count + 1) % 256;
}

-- `mailbox_enqueue` on the mailbox of the target: whether the message was taken, the pid to wake (-1
-- for none), the mailbox.
pub enqueue : ℤ → List ℕ → ℕ → ℕ → Mailbox → Bool × ℤ × Mailbox
enqueue sender bytes size flags m =
    if leb msg_queue_len m.count
    then (false, invalid_pid, m)
    else let (wake, m') = pop_waiter (put sender bytes size flags m) in (true, wake, m')
