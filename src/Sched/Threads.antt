-- ===== src/Sched/Threads.antt =====
-- kernel/process.c: slots of the process table, creation, reclaiming and the settings of a thread.
use pro_os.Prelude.{
  ℕ, ◌+◌, ◌%◌, ◌^◌, Bool, true, false, not, ◌&&◌, ◌||◌, Option, none, some, List, [], ◌∷◌, ltb, leb,
  ◌==◌, if◌then◌else◌, map, replicate,
}
use pro_os.Prelude.Arrays.{find_index}
use pro_os.Prelude.Int.{ℤ, pos, ◌==ℤ◌, is_positive, failure, success}
use pro_os.Ipc.Process.{Kind, kernel, user}
use pro_os.Sched.{
  Sched, Thread, ready, is_unused, is_zombie, Policy, fair, deadline, default_weight, no_thread,
  thread, update, with_thread, stack_size_max, clamp_priority, priority_max, priority_min,
  priority_levels, arm_timeslice,
}
use pro_os.Sched.Ready.{enqueue_ready}
use pro_os.Sched.Sleep.{remove_from_sleep}

-- The slot that `alloc_process_slot` takes; what it stores there is `no_thread`.
unfoldable pub free_slot : List Thread → Option ℕ
free_slot = find_index (λ t. is_unused t.state || is_zombie t.state)

-- `acquire_pid`; the counter does not wrap.
unfoldable pub acquire_pid : Sched → ℤ × Sched
acquire_pid s =
    let pid = if s.next_pid == 0 then 1 else s.next_pid in
    (pos pid, record s { next_pid = pid + 1 })

-- The fields that `scheduler_create_thread` sets
unfoldable pub new_thread : ℕ → Kind → ℕ → ℤ → Thread
new_thread stack_size kind priority pid = record no_thread {
  pid = pid;
  state = ready;
  stack_size =
      if (stack_size == 0) || ltb stack_size_max stack_size then stack_size_max else stack_size;
  kind = kind;
  base_priority = clamp_priority priority;
  dynamic_priority = clamp_priority priority;
}

-- `scheduler_create_thread`, for an entry that is not NULL: the index of the thread, if there is a slot
unfoldable pub create_thread : Sched → ℕ → Kind → ℕ → Bool → Option ℕ × Sched
create_thread s stack_size kind priority idle =
    with_thread (free_slot s.threads) (none, s)
      (λ i. elim idle [
        | true ↦
            let t = arm_timeslice (new_thread stack_size kind priority (pos 0)) in
            (some i, record (update s i t) { idle = some i })
        | false ↦
            let (pid, w) = acquire_pid s in
            (
              some i,
              enqueue_ready (update w i (arm_timeslice (new_thread stack_size kind priority pid)))
                  i,
            )
      ])

-- `process_create` and `process_create_kernel` with the default priorities
unfoldable pub default_user_priority : ℕ
default_user_priority =
    let candidate = priority_min + 1 in
    clamp_priority (if ltb priority_max candidate then priority_max else candidate)

unfoldable pub pid_of : Option ℕ × Sched → ℤ × Sched
pid_of (none, s) = (failure, s)
pid_of (some i, s) = ((thread s i).pid, s)

unfoldable pub create : Sched → ℕ → ℤ × Sched
create s stack_size = pid_of (create_thread s stack_size user default_user_priority false)

unfoldable pub create_kernel : Sched → ℕ → ℤ × Sched
create_kernel s stack_size =
    pid_of (create_thread s stack_size kernel (clamp_priority priority_min) false)

-- What `process_system_init` sets of a process; the kind and the priorities stay.
unfoldable pub fresh : Thread → Thread
fresh t = record no_thread {
  kind = t.kind;
  base_priority = t.base_priority;
  dynamic_priority = t.dynamic_priority;
}

-- The variables that `process_system_init` sets
unfoldable pub cleared : List Thread → Sched
cleared threads = record {
  threads = map fresh threads;
  queues = replicate priority_levels [];
  ready_bitmap = replicate priority_levels false;
  current = none;
  idle = none;
  sleepers = [];
  next_pid = 1;
  active = false;
}

-- `process_system_init`
unfoldable pub init : Sched → Sched
init s = (create_thread (cleared s.threads) stack_size_max kernel priority_max true).1

-- What `reclaim_zombie` leaves of a thread; the stack's size stays.
unfoldable pub reclaimed : Thread → Thread
reclaimed t = record no_thread {
  stack_size = t.stack_size;
  base_priority = clamp_priority priority_max;
  dynamic_priority = clamp_priority priority_max;
}

-- `reclaim_zombie`
unfoldable pub reclaim_zombie : Sched → ℕ → Sched
reclaim_zombie s i =
    if is_zombie (thread s i).state
    then update (remove_from_sleep s i) i (reclaimed (thread s i))
    else s

-- `process_lookup`
unfoldable pub lookup : Sched → ℤ → Option ℕ
lookup s pid =
    if is_positive pid
    then find_index (λ t. (t.pid ==ℤ pid) && not (is_unused t.state)) s.threads
    else none

-- `process_set_scheduler` at tick `now`; the policy is `none` where its number is no policy.
unfoldable pub set_policy : Policy → ℕ → ℕ → ℕ → Thread → Thread
set_policy fair weight deadline_ticks now t = record t {
  sched_policy = fair;
  sched_weight = if weight == 0 then default_weight else weight;
  sched_deadline = 0;
}
set_policy deadline weight deadline_ticks now t = record t {
  sched_policy = deadline;
  sched_weight = if weight == 0 then default_weight else weight;
  sched_deadline =
      if not (deadline_ticks == 0) && ltb deadline_ticks now
      then (now + deadline_ticks) % 2 ^ 64
      else deadline_ticks;
}

-- The process that is meant: the one that runs for a pid that is not positive
unfoldable pub target : Sched → ℤ → Option ℕ
target s pid = if is_positive pid then lookup s pid else s.current

unfoldable pub set_scheduler : Sched → ℤ → Option Policy → ℕ → ℕ → ℕ → ℤ × Sched
set_scheduler s pid none weight deadline_ticks now = (failure, s)
set_scheduler s pid (some p) weight deadline_ticks now =
    with_thread (target s pid) (failure, s)
      (λ i. (success, update s i (set_policy p weight deadline_ticks now (thread s i))))

-- `process_count`, and the indices that `process_snapshot` copies
unfoldable pub is_listed : Thread → Bool
is_listed t = not (is_unused t.state) && is_positive t.pid

unfoldable pub count_from : ℕ → List Thread → ℕ
count_from total [] = total
count_from total (t ∷ ts) = count_from (if is_listed t then total + 1 else total) ts

unfoldable pub count : Sched → ℕ
count s = count_from 0 s.threads

unfoldable pub snapshot_from : ℕ → List Thread → ℕ → List Thread
snapshot_from max_entries [] n = []
snapshot_from max_entries (t ∷ ts) n =
    let skipped = snapshot_from max_entries ts n in
    let rest = snapshot_from max_entries ts (n + 1) in
    if leb max_entries n then [] else if is_listed t then t ∷ rest else skipped

-- `process_snapshot`, without the stack pointers
unfoldable pub snapshot : Sched → ℕ → List Thread
snapshot s max_entries = snapshot_from max_entries s.threads 0
