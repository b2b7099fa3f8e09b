-- ===== src/Process.antt =====
-- process.c: the life of a process, and the switch from one to the next.
mod Space
mod Create
mod CopyTables
mod Switch
pub mod SwitchLaws
pub mod Runnable
pub mod CopyLaws
pub mod NewProcess
pub mod Freeing
pub mod KernelStack
pub mod Switched
pub mod RoundTrip
unfoldable pub use Space.*
unfoldable pub use Create.*
unfoldable pub use CopyTables.*
unfoldable pub use Switch.*
