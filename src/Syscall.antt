-- ===== src/Syscall.antt =====
-- syscalls.c: the system calls.
pub mod Answering
pub mod Basic
pub mod Brk
pub mod Exit
pub mod Fork
pub mod Lock
pub mod Cvar
pub mod Pipe
pub mod Tty
pub mod Reclaim
