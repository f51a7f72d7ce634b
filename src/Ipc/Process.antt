-- ===== src/Ipc/Process.antt =====
-- kernel/proc.h and kernel/ipc.h: the part of `struct process` that kernel/ipc.c works on, and
-- `process_lookup` of kernel/process.c. A pointer to a process is its index in the process table.
use pro_os.Prelude.{
  ◌≡◌, refl, ◌<◌, length, arith, ℕ, Bool, false, ◌&&◌, Option, none, some, List, get_or, set,
  replicate, if◌then◌else◌,
}
use pro_os.Prelude.Arrays.{find_index, find_index-set, find_index-Found}
use pro_os.Prelude.Int.{ℤ, pos, ◌==ℤ◌, is_positive, failure}

-- CONFIG_MSG_QUEUE_LEN, CONFIG_MSG_DATA_MAX, CONFIG_IPC_ENDPOINT_WAITERS,
-- CONFIG_IPC_CAPACITY_PER_PROC, CONFIG_MAX_PROCS
abbrev pub msg_queue_len : ℕ
msg_queue_len = 16

abbrev pub msg_data_max : ℕ
msg_data_max = 256

abbrev pub endpoint_waiters : ℕ
endpoint_waiters = 8

abbrev pub caps_per_proc : ℕ
caps_per_proc = 16

abbrev pub max_procs : ℕ
max_procs = 32

-- CONFIG_PROCESS_CHANNEL_SLOTS and CONFIG_IPC_MAX_SHARED_PER_PROC
abbrev pub channel_slots_max : ℕ
channel_slots_max = 8

abbrev pub shared_per_proc : ℕ
shared_per_proc = 8

-- IPC_INVALID_PID and IPC_ANY_PROCESS, both -1
abbrev pub invalid_pid : ℤ
invalid_pid = failure

abbrev pub any_process : ℤ
any_process = failure

-- IPC_RIGHT_SEND, IPC_RIGHT_RECV and IPC_RIGHT_SHARE
abbrev pub right_send : ℕ
right_send = 0x1

abbrev pub right_recv : ℕ
right_recv = 0x2

abbrev pub right_share : ℕ
right_share = 0x4

-- `struct ipc_mailbox_slot`; the array `bytes` is the field `data`.
pub record Slot : Type 0 where
  pub used : Bool
  pub sender : ℤ
  pub flags : ℕ
  pub size : ℕ
  pub bytes : List ℕ

-- `struct ipc_mailbox_state`, without its lock
pub record Mailbox : Type 0 where
  pub slots : List Slot
  pub count : ℕ
  pub waiters : List ℤ
  pub waiter_count : ℕ

-- `struct ipc_cap_entry`
pub record Cap : Type 0 where
  pub used : Bool
  pub peer : ℤ
  pub rights : ℕ

-- `thread_kind_t`
pub data Kind : Type 0 where
  kernel user : Kind

-- `struct ipc_share_link`
pub record ShareLink : Type 0 where
  pub used : Bool
  pub share_id : ℤ

-- `struct process`; `alive` says that its state is not PROC_UNUSED.
pub record Process : Type 0 where
  pub alive : Bool
  pub pid : ℤ
  pub kind : Kind
  pub mailbox : Mailbox
  pub caps : List Cap
  pub cap_count : ℕ
  pub ipc_waiting : Bool
  pub channel_slots : List ℤ
  pub channel_count : ℕ
  pub wait_channel : ℤ
  pub shares : List ShareLink
  pub share_count : ℕ

unfoldable pub blank_slot : Slot
blank_slot = record {
  used = false;
  sender = pos 0;
  flags = 0;
  size = 0;
  bytes = replicate msg_data_max 0;
}

abbrev pub no_cap : Cap
no_cap = record { used = false; peer = invalid_pid; rights = 0 }

abbrev pub no_link : ShareLink
no_link = record { used = false; share_id = failure }

abbrev pub no_mailbox : Mailbox
no_mailbox = record {
  slots = replicate msg_queue_len blank_slot;
  count = 0;
  waiters = replicate endpoint_waiters invalid_pid;
  waiter_count = 0;
}

abbrev pub no_process : Process
no_process = record {
  alive = false;
  pid = invalid_pid;
  kind = kernel;
  mailbox = no_mailbox;
  caps = replicate caps_per_proc no_cap;
  cap_count = 0;
  ipc_waiting = false;
  channel_slots = replicate channel_slots_max failure;
  channel_count = 0;
  wait_channel = failure;
  shares = replicate shared_per_proc no_link;
  share_count = 0;
}

-- `process_lookup`
unfoldable pub lookup : ℤ → List Process → Option ℕ
lookup pid procs =
    if is_positive pid then find_index (λ p. p.alive && (p.pid ==ℤ pid)) procs else none

-- A process keeps its index as long as its pid and its state do.
pub lookup-set :
    (pid : ℤ) (procs : List Process) (i : ℕ) (p : Process)
    → p.pid ≡ (get_or procs i no_process).pid
    → p.alive ≡ (get_or procs i no_process).alive
    → lookup pid (set procs i p) ≡ lookup pid procs
unfolding lookup
lookup-set pid procs i p e a =
    rw (find_index-set (λ q. q.alive && (q.pid ==ℤ pid)) procs i p no_process (rw (e, a) refl)) refl

-- An index that `process_lookup` finds lies in the table.
pub lookup-lt :
    (pid : ℤ) (procs : List Process) (i : ℕ) → lookup pid procs ≡ some i → i < length procs
unfolding lookup
lookup-lt pid procs i e =
    (find_index-Found (λ q. q.alive && (q.pid ==ℤ pid)) procs i (ground arith)).in_table
