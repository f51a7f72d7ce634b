-- ===== src/Sched.antt =====
-- kernel/process.c: the scheduler. The data, and the operations on one thread. A pointer to a process is
-- its index in the table; a linked list of processes is the list of their indices, so `next_run` and
-- `next_sleep` are no fields. The bits of `ready_bitmap` are a list of four Booleans.
pub mod Ready
pub mod Sleep
pub mod Threads
pub mod Calls
pub mod Select
pub mod Sleepers
pub mod Queues
pub mod Lost
mod Tests
use pro_os.Prelude.{
  ℕ, ◌+◌, ◌-◌, ◌*◌, ◌/◌, ◌%◌, ◌^◌, Bool, true, false, Option, none, some, List, [], ltb, leb, ◌==◌,
  if◌then◌else◌, get_or, set, min,
}
use pro_os.Prelude.Int.{ℤ, pos, failure}
use pro_os.Ipc.Process.{Kind, kernel, user}

-- CONFIG_SCHED_PRIORITY_LEVELS, SCHED_PRIORITY_MIN, SCHED_PRIORITY_MAX
abbrev pub priority_levels : ℕ
priority_levels = 4

abbrev pub priority_min : ℕ
priority_min = 0

abbrev pub priority_max : ℕ
priority_max = priority_levels - 1

-- CONFIG_SCHED_DEFAULT_TIMESLICE, CONFIG_SCHED_MAX_DYNAMIC_BOOST, CONFIG_SCHED_BASE_WEIGHT,
-- CONFIG_SCHED_DEFAULT_WEIGHT and CONFIG_PROC_STACK_SIZE
abbrev pub default_timeslice : ℕ
default_timeslice = 4

abbrev pub max_dynamic_boost : ℕ
max_dynamic_boost = 1

abbrev pub base_weight : ℕ
base_weight = 1024

abbrev pub default_weight : ℕ
default_weight = 1024

-- `proc_state_t`
pub data State : Type 0 where
  unused ready running waiting zombie : State

abbrev pub is_unused : State → Bool
is_unused unused = true
is_unused ready = false
is_unused running = false
is_unused waiting = false
is_unused zombie = false

abbrev pub is_ready : State → Bool
is_ready ready = true
is_ready unused = false
is_ready running = false
is_ready waiting = false
is_ready zombie = false

abbrev pub is_running : State → Bool
is_running running = true
is_running unused = false
is_running ready = false
is_running waiting = false
is_running zombie = false

abbrev pub is_waiting : State → Bool
is_waiting waiting = true
is_waiting unused = false
is_waiting ready = false
is_waiting running = false
is_waiting zombie = false

abbrev pub is_zombie : State → Bool
is_zombie zombie = true
is_zombie unused = false
is_zombie ready = false
is_zombie running = false
is_zombie waiting = false

-- `sched_policy_t`
pub data Policy : Type 0 where
  fair deadline : Policy

abbrev pub is_fair : Policy → Bool
is_fair fair = true
is_fair deadline = false

-- The fields of `struct process` that kernel/process.c schedules by
pub record Thread : Type 0 where
  pub pid : ℤ
  pub state : State
  pub stack_size : ℕ
  pub exit_code : ℤ
  pub kind : Kind
  pub base_priority : ℕ
  pub dynamic_priority : ℕ
  pub sched_policy : Policy
  pub sched_weight : ℕ
  pub sched_deadline : ℕ
  pub vruntime : ℕ
  pub on_run_queue : Bool
  pub time_slice_ticks : ℕ
  pub time_slice_remaining : ℕ
  pub wake_deadline : ℕ

-- The variables of kernel/process.c; `threads` is the array `processes`, and `sleepers` is `sleep_list`.
pub record Sched : Type 0 where
  pub threads : List Thread
  pub queues : List (List ℕ)
  pub ready_bitmap : List Bool
  pub current : Option ℕ
  pub idle : Option ℕ
  pub sleepers : List ℕ
  pub next_pid : ℕ
  pub active : Bool

abbrev pub stack_size_max : ℕ
stack_size_max = 4096

unfoldable pub no_thread : Thread
no_thread = record {
  pid = failure;
  state = unused;
  stack_size = stack_size_max;
  exit_code = pos 0;
  kind = kernel;
  base_priority = 0;
  dynamic_priority = 0;
  sched_policy = fair;
  sched_weight = default_weight;
  sched_deadline = 0;
  vruntime = 0;
  on_run_queue = false;
  time_slice_ticks = 0;
  time_slice_remaining = 0;
  wake_deadline = 0;
}

abbrev pub thread : Sched → ℕ → Thread
thread s i = get_or s.threads i no_thread

-- The thread at an index is assigned to.
abbrev pub update : Sched → ℕ → Thread → Sched
update s i t = record s { threads = set s.threads i t }

abbrev pub is_at : Option ℕ → ℕ → Bool
is_at none i = false
is_at (some j) i = i == j

-- What is done with the thread at a pointer, unless it is NULL
abbrev pub with_thread : {A : Type 0} → Option ℕ → A → (ℕ → A) → A
with_thread none a f = a
with_thread (some i) a f = f i

-- `scheduler_clamp_priority`; no caller passes a negative number.
pub clamp_priority : ℕ → ℕ
clamp_priority value =
    if ltb value priority_min
    then priority_min
    else if ltb priority_max value
    then priority_max
    else value

-- `scheduler_timeslice_for`, on 32-bit words
pub timeslice_for : ℕ → ℕ
timeslice_for priority =
    let base = if ltb 0 default_timeslice then default_timeslice else 1 in
    let offset = min (clamp_priority priority - priority_min) 4 in
    let slice = (base * 2 ^ offset) % 2 ^ 32 in if slice == 0 then 1 else slice

-- `scheduler_reset_priority`, `scheduler_demote_priority` and `scheduler_boost_priority`
pub reset_priority : Thread → Thread
reset_priority t = record t { dynamic_priority = t.base_priority }

pub demote_priority : Thread → Thread
demote_priority t =
    if ltb t.dynamic_priority priority_max
    then record t { dynamic_priority = (t.dynamic_priority + 1) % 2 ^ 8 }
    else t

pub boosted : ℕ → ℕ
boosted base =
    if ltb priority_min base then base - min max_dynamic_boost (base - priority_min) else base

pub boost_priority : Thread → Thread
boost_priority t = record t { dynamic_priority = clamp_priority (boosted t.base_priority) }

-- `scheduler_arm_timeslice`
pub arm_timeslice : Thread → Thread
arm_timeslice t =
    let slice = timeslice_for t.dynamic_priority in
    record t { time_slice_ticks = slice; time_slice_remaining = slice }

-- The ticks that a thread has used up, and what they cost: `scheduler_account_runtime` on 32- and 64-bit words.
pub used_ticks : Thread → ℕ
used_ticks t =
    if leb t.time_slice_remaining t.time_slice_ticks
    then t.time_slice_ticks - t.time_slice_remaining
    else t.time_slice_ticks

pub scaled : ℕ → ℕ → ℕ
scaled used weight =
    let cost = used * base_weight / (if weight == 0 then default_weight else weight) in
    if cost == 0 then 1 else cost

pub accounted : Thread → Thread
accounted t =
    if is_fair t.sched_policy
    then (if used_ticks t == 0
        then t
        else record t { vruntime = (t.vruntime + scaled (used_ticks t) t.sched_weight) % 2 ^ 64 })
    else t

-- `scheduler_account_runtime`
pub account_runtime : Sched → ℕ → Sched
account_runtime s i = if is_at s.idle i then s else update s i (accounted (thread s i))
