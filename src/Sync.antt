-- ===== src/Sync.antt =====
-- kernel/sync.c: mutexes and counting semaphores with bounded wait queues. A call that may block is
-- modelled by its rounds: one pass through the body of its `while (1)`, which ends in a return or in
-- `process_block_current`; the caller runs the next round when it is woken. The spin lock makes each
-- round atomic. A call takes the pid of `process_current()`, `none` for NULL, and gives back the pid
-- that it hands to `process_lookup` and `process_wake`, if any.
pub mod Waiters
pub mod Mutexes
pub mod Handover
pub mod Exclusion
pub mod Semaphores
pub mod Tables
mod Tests
use pro_os.Prelude.{
  ℕ, zero, suc, ◌+◌, ◌-◌, ◌%◌, ◌≡◌, Bool, true, false, not, ◌||◌, Option, none, some, List, [], ◌∷◌,
  map, ltb, leb, ◌==◌, if◌then◌else◌, get_or, set, replicate,
}
use pro_os.Prelude.Arrays.{shift_down, find_index}
use pro_os.Prelude.Int.{ℤ, pos, negsuc, ◌==ℤ◌, is_positive, failure, success, increment, decrement}

-- CONFIG_SYNC_MAX_MUTEXES, CONFIG_SYNC_MAX_SEMAPHORES and CONFIG_SYNC_MAX_WAITERS
abbrev pub max_mutexes : ℕ
max_mutexes = 32

abbrev pub max_semaphores : ℕ
max_semaphores = 32

abbrev pub max_waiters : ℕ
max_waiters = 8

-- `struct sync_mutex`; its `waiters` has `max_waiters` entries, the first `wait_count` are live.
pub record Mutex : Type 0 where
  pub used : Bool
  pub locked : Bool
  pub owner : ℤ
  pub waiters : List ℤ
  pub wait_count : ℕ

-- `struct sync_semaphore`; `count` is an `int`: the posts behind INT_MAX make it negative.
pub record Semaphore : Type 0 where
  pub used : Bool
  pub count : ℤ
  pub waiters : List ℤ
  pub wait_count : ℕ

-- The two static tables.
pub record Sync : Type 0 where
  pub mutexes : List Mutex
  pub semaphores : List Semaphore

-- How a round ends.
pub data Outcome : Type 0 where
  returns : ℤ → Outcome
  blocks : Outcome

-- `waiter_exists`, over the first `count` entries.
pub waiter_exists : List ℤ → ℕ → ℤ → Bool
waiter_exists xs zero pid = false
waiter_exists [] (suc n) pid = false
waiter_exists (x ∷ xs) (suc n) pid = (x ==ℤ pid) || waiter_exists xs n pid

-- `enqueue_waiter`: its return code, the array and the count, which is a `uint8_t`.
pub enqueue_waiter : List ℤ → ℕ → ℤ → ℤ × List ℤ × ℕ
enqueue_waiter list count pid =
    if leb max_waiters count
    then (failure, list, count)
    else (success, set list count pid, (count + 1) % 256)

-- `dequeue_waiter`: the pid, the array and the count.
pub dequeue_waiter : List ℤ → ℕ → ℤ × List ℤ × ℕ
dequeue_waiter list count =
    if count == 0
    then (failure, list, count)
    else (get_or list 0 failure, shift_down failure list 0 (count - 1), count - 1)

reset_mutex : Mutex → Mutex
reset_mutex m = record m { used = false; locked = false; owner = failure; wait_count = 0 }

reset_semaphore : Semaphore → Semaphore
reset_semaphore s = record s { used = false; count = pos 0; wait_count = 0 }

pub init : Sync → Sync
unfolding reset_mutex reset_semaphore
init s = record {
  mutexes = map reset_mutex s.mutexes;
  semaphores = map reset_semaphore s.semaphores;
}

abbrev pub no_mutex : Mutex
no_mutex = record {
  used = false;
  locked = false;
  owner = failure;
  waiters = replicate max_waiters (pos 0);
  wait_count = 0;
}

abbrev pub no_semaphore : Semaphore
no_semaphore = record {
  used = false;
  count = pos 0;
  waiters = replicate max_waiters (pos 0);
  wait_count = 0;
}

fresh_mutex : Mutex → Mutex
fresh_mutex m = record m { used = true; locked = false; owner = failure; wait_count = 0 }

pub mutex_create : Sync → ℤ × Sync
unfolding fresh_mutex
mutex_create s = elim (find_index (λ m. not m.used) s.mutexes) [
  | none ↦ (failure, s)
  | some i ↦
      (pos i, record s { mutexes = set s.mutexes i (fresh_mutex (get_or s.mutexes i no_mutex)) })
]

-- The waiters of `m` with `self` among them, where there is room. The code of `enqueue_waiter` is not
-- looked at.
join_mutex : ℤ → Mutex → Mutex
unfolding waiter_exists enqueue_waiter
join_mutex self m =
    if waiter_exists m.waiters m.wait_count self
    then m
    else let (_, ws, n) = enqueue_waiter m.waiters m.wait_count self in
      record m { waiters = ws; wait_count = n }

-- One round of `sync_mutex_lock` on the entry.
pub lock_round : ℤ → Mutex → Outcome × Mutex
unfolding join_mutex
lock_round self m =
    if not m.used
    then (returns failure, m)
    else if not m.locked
    then (returns success, record m { locked = true; owner = self })
    else if m.owner ==ℤ self
    then (returns success, m)
    else (blocks, join_mutex self m)

-- What `sync_mutex_unlock` does with the owner's entry: the pid to wake, and the entry.
release_mutex : Mutex → ℤ × Mutex
unfolding dequeue_waiter
release_mutex m =
    if ltb 0 m.wait_count
    then (let (w, ws, n) = dequeue_waiter m.waiters m.wait_count in
        (w, record m { waiters = ws; wait_count = n; owner = w; locked = true }))
    else (failure, record m { locked = false; owner = failure })

-- `if (wake_pid > 0)`
abbrev pub woken : ℤ → Option ℤ
woken w = if is_positive w then some w else none

-- `sync_mutex_unlock` on the entry: the return code, the process to wake, the entry.
pub unlock : ℤ → Mutex → ℤ × Option ℤ × Mutex
unfolding release_mutex
unlock self m =
    if not m.used || not m.locked || not (m.owner ==ℤ self)
    then (failure, none, m)
    else let (w, m') = release_mutex m in (success, woken w, m')

-- The check of `id` against the size of its table.
index_of : ℕ → ℤ → Option ℕ
index_of limit (pos n) = if ltb n limit then some n else none
index_of limit (negsuc n) = none

pub mutex_lock : Option ℤ → ℤ → Sync → Outcome × Sync
unfolding index_of lock_round
mutex_lock current id s = elim (index_of max_mutexes id) [
  | none ↦ (returns failure, s)
  | some i ↦ elim current [
    | none ↦ (returns failure, s)
    | some self ↦
        let (out, m) = lock_round self (get_or s.mutexes i no_mutex) in
        (out, record s { mutexes = set s.mutexes i m })
  ]
]

pub mutex_unlock : Option ℤ → ℤ → Sync → ℤ × Option ℤ × Sync
unfolding index_of unlock
mutex_unlock current id s = elim (index_of max_mutexes id) [
  | none ↦ (failure, none, s)
  | some i ↦ elim current [
    | none ↦ (failure, none, s)
    | some self ↦
        let (code, wake, m) = unlock self (get_or s.mutexes i no_mutex) in
        (code, wake, record s { mutexes = set s.mutexes i m })
  ]
]

fresh_semaphore : ℤ → Semaphore → Semaphore
fresh_semaphore n x = record x { used = true; count = n; wait_count = 0 }

pub semaphore_create : ℤ → Sync → ℤ × Sync
unfolding fresh_semaphore
semaphore_create (negsuc n) s = (failure, s)
semaphore_create (pos n) s = elim (find_index (λ x. not x.used) s.semaphores) [
  | none ↦ (failure, s)
  | some i ↦ (
    pos i,
    record s {
      semaphores =
          set s.semaphores i (fresh_semaphore (pos n) (get_or s.semaphores i no_semaphore));
    },
  )
]

join_semaphore : ℤ → Semaphore → Semaphore
unfolding waiter_exists enqueue_waiter
join_semaphore self x =
    if waiter_exists x.waiters x.wait_count self
    then x
    else let (_, ws, n) = enqueue_waiter x.waiters x.wait_count self in
      record x { waiters = ws; wait_count = n }

-- One round of `sync_semaphore_wait` on the entry.
pub wait_round : ℤ → Semaphore → Outcome × Semaphore
unfolding join_semaphore
wait_round self x =
    if not x.used
    then (returns failure, x)
    else if is_positive x.count
    then (returns success, record x { count = decrement x.count })
    else (blocks, join_semaphore self x)

-- `sync_semaphore_post` on the entry: the return code, the process to wake, the entry.
pub post : Semaphore → ℤ × Option ℤ × Semaphore
unfolding dequeue_waiter
post x =
    if not x.used
    then (failure, none, x)
    else if ltb 0 x.wait_count
    then (let (w, ws, n) = dequeue_waiter x.waiters x.wait_count in
        (success, woken w, record x { waiters = ws; wait_count = n }))
    else (success, none, record x { count = increment x.count })

pub semaphore_wait : Option ℤ → ℤ → Sync → Outcome × Sync
unfolding index_of wait_round
semaphore_wait current id s = elim (index_of max_semaphores id) [
  | none ↦ (returns failure, s)
  | some i ↦ elim current [
    | none ↦ (returns failure, s)
    | some self ↦
        let (out, x) = wait_round self (get_or s.semaphores i no_semaphore) in
        (out, record s { semaphores = set s.semaphores i x })
  ]
]

pub semaphore_post : ℤ → Sync → ℤ × Option ℤ × Sync
unfolding index_of post
semaphore_post id s = elim (index_of max_semaphores id) [
  | none ↦ (failure, none, s)
  | some i ↦
      let (code, wake, x) = post (get_or s.semaphores i no_semaphore) in
      (code, wake, record s { semaphores = set s.semaphores i x })
]
