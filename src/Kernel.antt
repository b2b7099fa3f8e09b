-- ===== src/Kernel.antt =====
-- The kernel's global state (kernel.c's globals, struct PCB of process.h, struct pipe of pipe.h) and
-- the commands over it. A PCB is found by its address; reading one through `NULL` or after `free`
-- is undefined behaviour, which ends a command in `fault`.
mod State
mod Commands
pub mod Processes
unfoldable pub use State.*
unfoldable pub use Commands.*
