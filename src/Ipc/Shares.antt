-- ===== src/Ipc/Shares.antt =====
-- kernel/ipc.c: regions of memory that two processes share: the table of regions, the links of each
-- process to it, and what `ipc_attach_process` and `ipc_detach_process` do with them.
pub mod Links
pub mod Regions
pub mod Rollback
mod Tests
use Prim.Native.Nat.{bit_and}
use pro_os.Prelude.{
  ℕ, zero, suc, ◌+◌, ◌-◌, ◌*◌, ◌%◌, ◌^◌, Bool, true, false, not, ◌&&◌, ◌||◌, Option, none, some,
  List, [], ◌∷◌, map, ltb, ◌==◌, if◌then◌else◌, get_or, set, replicate,
}
use pro_os.Prelude.Arrays.{find_index}
use pro_os.Prelude.Int.{ℤ, pos, ◌==ℤ◌, is_positive, failure, success}
use pro_os.Ipc.Process.{
  Process, ShareLink, no_process, no_link, no_cap, caps_per_proc, shared_per_proc, right_share,
  invalid_pid, lookup,
}
use pro_os.Ipc.Caps.{check}
use pro_os.Ipc.Mailbox.{clear}

-- CONFIG_IPC_PAGE_SIZE, CONFIG_USER_SPACE_LIMIT, CONFIG_IPC_MAX_SHARED_REGIONS
abbrev pub page_size : ℕ
page_size = 4096

abbrev pub user_space_limit : ℕ
user_space_limit = 0x80000000

abbrev pub max_regions : ℕ
max_regions = 64

-- `struct ipc_share_record`
pub record Region : Type 0 where
  pub used : Bool
  pub owner : ℤ
  pub target : ℤ
  pub addr : ℕ
  pub pages : ℕ
  pub flags : ℕ

abbrev pub no_region : Region
no_region = record {
  used = false;
  owner = invalid_pid;
  target = invalid_pid;
  addr = 0;
  pages = 0;
  flags = 0;
}

-- `share_attach_to_process`
pub attach : Process → ℤ → ℤ × Process
attach p id = elim (find_index (λ l. not l.used) p.shares) [
  | none ↦ (failure, p)
  | some i ↦ (
    success,
    record p {
      shares = set p.shares i (record { used = true; share_id = id });
      share_count = if ltb p.share_count shared_per_proc then p.share_count + 1 else p.share_count;
    },
  )
]

abbrev pub links_to : ℤ → ShareLink → Bool
links_to id l = l.used && (l.share_id ==ℤ id)

-- `share_detach_from_process`
pub detach : Process → ℤ → Process
detach p id = elim (find_index (links_to id) p.shares) [
  | none ↦ p
  | some i ↦ record p {
    shares = set p.shares i no_link;
    share_count = if ltb 0 p.share_count then p.share_count - 1 else p.share_count;
  }
]

-- The end of the region in a `uintptr_t`.
pub region_end : ℕ → ℕ → ℕ
region_end base pages = (base + (pages * page_size) % 2 ^ 32) % 2 ^ 32

-- The checks of `ipc_share` on the region; a NULL address is 0.
pub valid_region : ℕ → ℕ → Bool
valid_region base pages =
    not (base == 0)
    && (not (pages == 0)
        && ((bit_and base (page_size - 1) == 0)
            && (not (ltb (region_end base pages) base)
                && not (ltb user_space_limit (region_end base pages)))))

-- Both attachments of `ipc_share`, the second only after the first; the two may be one process.
pub attach_both : ℕ → ℕ → ℤ → List Process → Bool × List Process
attach_both owner target id procs =
    let (code, p) = attach (get_or procs owner no_process) id in
    let procs' = set procs owner p in
    let (code', q) = attach (get_or procs' target no_process) id in
    if not (code ==ℤ success) then (false, procs') else (code' ==ℤ success, set procs' target q)

-- The roll-back of `ipc_share`.
pub detach_both : ℕ → ℕ → ℤ → List Process → List Process
detach_both owner target id procs =
    let procs' = set procs owner (detach (get_or procs owner no_process) id) in
    set procs' target (detach (get_or procs' target no_process) id)

-- The part of `ipc_share` under the lock.
pub share_locked : ℕ → ℕ → ℤ → ℕ → ℕ → List Process → List Region → ℤ × List Process × List Region
share_locked owner t target base pages procs table = elim (find_index (λ r. not r.used) table) [
  | none ↦ (failure, procs, table)
  | some i ↦
      let (done, procs') = attach_both owner t (pos i) procs in
      if done
      then (
        success,
        procs',
        set table i (record {
          used = true;
          owner = (get_or procs owner no_process).pid;
          target = target;
          addr = base;
          pages = pages;
          flags = 0;
        }),
      )
      else (failure, detach_both owner t (pos i) procs', set table i no_region)
]

-- `ipc_share`
pub share :
    Bool → ℤ → ℕ → ℕ → Option ℕ → List Process → List Region → ℤ × List Process × List Region
share initialized target base pages current procs table =
    if not (initialized && (is_positive target && valid_region base pages))
    then (failure, procs, table)
    else elim current [
      | none ↦ (failure, procs, table)
      | some owner ↦
          if not (check (get_or procs owner no_process) target right_share)
          then (failure, procs, table)
          else elim (lookup target procs) [
            | none ↦ (failure, procs, table)
            | some t ↦ share_locked owner t target base pages procs table
          ]
    ]

-- `share_detach_from_process` on the process with a pid, if there is one.
detach_pid : ℤ → ℤ → List Process → List Process
detach_pid pid id procs = elim (lookup pid procs) [
  | none ↦ procs
  | some i ↦ set procs i (detach (get_or procs i no_process) id)
]

-- The loop of `share_drop_for_pid`, from the entry `i` on.
pub drop_from : ℕ → ℤ → List Process → List Region → List Process × List Region
drop_from i pid procs [] = (procs, [])
drop_from i pid procs (r ∷ rs) =
    let hit = r.used && ((r.owner ==ℤ pid) || (r.target ==ℤ pid)) in
    let procs' =
      if hit then detach_pid r.target (pos i) (detach_pid r.owner (pos i) procs) else procs in
    let (procs'', rest) = drop_from (suc i) pid procs' rs in
    (procs'', (if hit then no_region else r) ∷ rest)

-- `share_drop_for_pid`
pub drop_for_pid : ℤ → List Process → List Region → List Process × List Region
drop_for_pid pid procs table =
    if is_positive pid then drop_from 0 pid procs table else (procs, table)

-- `ipc_attach_process`; also what `ipc_detach_process` leaves of the fields, whatever the order.
pub attach_process : Process → Process
attach_process p = record p {
  mailbox = clear p.mailbox;
  caps = replicate caps_per_proc no_cap;
  cap_count = 0;
  shares = replicate shared_per_proc no_link;
  share_count = 0;
  ipc_waiting = false;
}

-- `ipc_detach_process` on the process at index `i`.
pub detach_process : Bool → ℕ → List Process → List Region → List Process × List Region
detach_process initialized i procs table =
    let (procs', table') =
      if initialized
      then drop_for_pid (get_or procs i no_process).pid procs table
      else (procs, table) in
    (set procs' i (attach_process (get_or procs' i no_process)), table')
