-- ===== src/Trap.antt =====
-- traphandlers.c: the handlers of the interrupt vector table, and CheckBlocked of kernel.c.
pub mod Clock
pub mod Faults
pub mod Terminal
pub mod Dispatch
