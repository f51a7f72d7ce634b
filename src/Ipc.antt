-- ===== src/Ipc.antt =====
-- kernel/ipc.c: messages between processes, the rights to send them, shared regions, and channels.
-- Every function works on the fields of `struct process` that kernel/ipc.c reads and writes, in
-- Ipc/Process.
pub mod Process
pub mod Caps
pub mod Mailbox
pub mod Messages
pub mod Channels
pub mod Shares
pub mod Start
