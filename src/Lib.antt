-- ===== src/Lib.antt =====
-- proOS, a 32-bit hobby kernel in C: models of parts of the kernel and their properties.
--
-- The modelled parts, each in the module of its name, with its children for the proofs:
--
-- * Sync (kernel/sync.c, kernel/config.h): mutexes and semaphores with wait queues of bounded
--   size. A blocking call is given by its rounds, `lock_round` and `wait_round`: one pass
--   through the loop of `sync_mutex_lock` or `sync_semaphore_wait`, which the spin lock makes
--   atomic. The process that makes a call is an argument, the processes to wake are results.
--   Sync/Waiters has the wait queues, Sync/Mutexes and Sync/Semaphores the entries,
--   Sync/Handover and Sync/Exclusion who gets a mutex, Sync/Tables the two tables under all
--   calls.
-- * Memory (kernel/memory.c): the bump allocator, on 32-bit words that wrap. Memory/Words has
--   `align_up`, Memory/Blocks what requests are given.
-- * NetSocket (kernel/net_socket.c, the devices of kernel/net.c): raw sockets with a ring of
--   received frames. What a driver answers to a frame that is sent is an argument of `send`, and
--   polling a driver one of `poll_devices`. NetSocket/Rings has one socket against a queue of
--   frames, NetSocket/Delivery the table.
-- * Inet (kernel/ethernet.c, kernel/arp.c, kernel/ipv4.c, kernel/icmp.c, `net_receive_frame` of
--   kernel/net.c): the protocols over one state, `Net`, with the frames that were handed to the
--   drivers. A driver is a function, a received frame the memory from its first byte on with the
--   length beside it. Inet.antt has the checksum and `send_frame`, Inet/Arp the cache and its
--   packets, Inet/Ipv4 and Inet/Icmp what is sent and the table of replies, Inet/Input the way
--   of a received frame. Inet/Checksum and Inet/Seals are about the checksums, Inet/Frames about
--   what is read of a frame that was written, Inet/Exchange about two systems that ask and
--   answer.
-- * Klog (kernel/klog.c): the log's ring and its levels. Klog/Names has the names of the levels
--   and the choice of a log file, Klog/Lines the line of an entry and the calls of the file
--   system that write the log files, Klog/Ring the ring against the list of the last entries,
--   Klog/Table the levels of the modules, Klog/Publish the message to the log service, whose pid
--   is an argument.
-- * Ipc (kernel/ipc.c, parts of kernel/proc.h, `process_lookup` of kernel/process.c):
--   Ipc/Process has the fields of a process that are used here, and a pointer to a process is
--   its index in the process table; Ipc/Caps the rights of a process and `capability_check`,
--   `ipc_cap_grant`, `ipc_cap_revoke`, `ipc_cap_query`; Ipc/Mailbox the slots and waiters of a
--   mailbox; Ipc/Messages `ipc_send` and a round of `ipc_recv`, whose search has the number of
--   stored messages and one more as its fuel. That is enough, since every turn takes a message
--   out. Ipc/Channels has one channel, its ring, its waiters and its subscribers,
--   Ipc/Channels/Calls the calls `ipc_channel_create`, `_join`, `_leave`, `_send`, `_receive`
--   (by its rounds) and `_peek`, and the channel part of `ipc_process_cleanup`. The counter of
--   ids is a number that does not wrap. Ipc/Shares has the shared regions: the links of a
--   process, the range check and the roll-back of `ipc_share`, and what `ipc_detach_process`
--   frees. Ipc/Start is `ipc_system_init` with the channels of the kernel's services.
-- * Ramfs (kernel/ramfs.c): the file system in memory, a table of entries with full path names.
--   A C string is the list of its bytes. Ramfs/Text and Ramfs/Paths have the string loops and
--   the paths, Ramfs/Tree the invariant that the entries form a tree, creation and removal,
--   Ramfs/Files what is read after writing and appending, Ramfs/Root the calls on the kernel's
--   own volume (`ramfs_write` appends).
-- * Sched (kernel/process.c): the scheduler. The linked lists through `next_run` and
--   `next_sleep` are lists of indices, the bits of `ready_bitmap` a list of Booleans, and
--   `get_ticks` is an argument. A call of a thread is cut at its `context_switch`: `block`,
--   `sleep`, `yield`, `exit` and `preempt` go up to it, `leave` is what `process_schedule` does
--   behind it, `dispatch` its turn up to the next switch, and `resume` what the thread does when
--   it runs again. A tick between two of these is a step of its own. Each step is atomic: a tick
--   inside `process_schedule` while it changes a queue is left out. Sched/Ready, Sched/Sleep,
--   Sched/Threads and Sched/Calls have the code, Sched/Queues the invariant and the steps,
--   Sched/Select the search for the next thread, Sched/Sleepers the list of sleeping threads,
--   Sched/Lost a tick that comes inside `process_block_current`. Pids do not wrap.
-- * Blockdev (kernel/blockdev.c, kernel/partition.c): the table of block devices, and what a
--   driver is asked for by an access, through a partition or not. `access` follows the parents
--   on fuel; one more than the number of parents is enough. Blockdev/Bounds has the range
--   checks, Blockdev/Names the table, Blockdev/Scan the scan for partitions, given the first
--   block that is read and the memory that is granted.
-- * Vfs (kernel/vfs.c, kernel/devicefs.c): the virtual file system in front of Ramfs. Vfs.antt
--   has `normalize_path`, Vfs/Names, Vfs/Normal and Vfs/Texts its results, Vfs/Mounts the mounts
--   and `resolve_mount`, Vfs/Calls the aliases and the calls on paths, Vfs/Calls/Handles open
--   files, Vfs/Adapters the operations of a RAM volume. The operations of a mounted file system
--   are functions on the state of all of them, so that any file system can stand behind a mount;
--   Vfs/Keeping has sequences of calls over file systems that keep a property. Vfs/Devices is
--   the file system of the devices, with its table in Vfs/Devices/Entries and the texts of its
--   files in Vfs/Devices/Shown; what the drivers of the keyboard and the mouse answer is an
--   argument. Vfs/Start puts them together with the log files of Klog in `vfs_init`:
--   Vfs/Start/Trees and Vfs/Start/Calls are about its volumes, Vfs/Start/Runs and Vfs/Start/Root
--   about every run from it on. The text that `debug_publish_memory_info` writes to
--   "/System/meminfo" is an argument.
-- * Volmgr (kernel/volmgr.c): the volumes for the partitions of that table, with their names and
--   paths. Volmgr/Table has the invariant of the table of volumes, Volmgr/Table/Attached what
--   attaching a device and a scan make of it.
--
-- Shared by them: Prelude (tests, lists), Prelude/Arrays (loops over arrays that are used as
-- queues or searched), Prelude/Rings (arrays used as rings), Prelude/Blocks (copies of bytes),
-- Prelude/Bits (`&`, `|`, `~`), Prelude/Int (the C `int`: pids, handles, codes, counts). Each
-- part has a module Tests with runs on small inputs and the theorems at concrete ones.
--
-- Conventions: a function that changes state returns the new state behind its result. A C flag
-- that is only ever 0 or 1 is a Bool. Pointers to table entries are indices. Unsigned machine
-- words wrap by `%`, and the count of a semaphore, an `int`, from INT_MAX to -2 ^ 31. The loop
-- that folds the carries of a checksum recurs on a proof that its sum falls. Apart from the
-- search of `ipc_recv` and `access` no model needs fuel: all other loops run over tables, queues,
-- texts or counts. The functions `step` stand for what callers may do, in any order.
--
-- Not modelled: the spin locks themselves (each locked region is one step), the texts that other
-- parts write to the log, the registries of services and device nodes, and the other parts of
-- the kernel: the assembly of the context switch, the FAT file systems, modules, shell, console,
-- drivers, the boot code and the user programs.
pub mod Prelude
pub mod Sync
pub mod Memory
pub mod NetSocket
pub mod Inet
pub mod Ipc
pub mod Klog
pub mod Ramfs
pub mod Sched
pub mod Blockdev
pub mod Vfs
pub mod Volmgr
