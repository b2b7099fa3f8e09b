-- ===== src/Examples.antt =====
-- Concrete inputs: the kernel's functions on small states, and the theorems applied to them.
mod Data
mod Structures
mod Pages
mod Calls
mod Answers
mod Loading
mod Processes
mod Departures
