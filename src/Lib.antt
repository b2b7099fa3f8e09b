-- ===== src/Lib.antt =====
-- The Yalnix kernel: processes, memory, system calls and traps.
--
-- The kernel runs one process at a time. The hardware enters it through the handlers of
-- traphandlers.c; TrapKernelHandler dispatches to the system calls of syscalls.c; these move
-- processes between queues (queue.c), give frames out and take them back (kernel.c, list.c), and
-- switch processes through SwapProcess (process.c) and the context switch (contextswitch.c). Pipes
-- are a linked list (pipe.c) of buffers with a queue each.
--
-- Base               numbers, lists, options, and the C int as ℤ
-- Memory             nodes at addresses, for the pointer level of list.c and queue.c
-- Queue              queue.c; Queue/Chain: the chain of its nodes; Queue/Fifo: a queue as a
--                    list, oldest first
-- LinkedList         list.c; LinkedList/Stack: a list as a stack
-- Hardware           include/hardware.h: page sizes, page table entries, page arithmetic
-- Frames             AllocatePFN, DeallocatePFN (kernel.c), and the loops over page tables
-- Kernel             the global variables, struct PCB (process.h), struct pipe (pipe.h), and
--                    commands over this state
-- ContextSwitch      contextswitch.c: KCSwitch, KCCopy
-- Process            process.c: init_process, free_addr_space, delete_process, CopyUPT, SwapProcess;
--                    Process/KernelStack: the kernel stack in region 0's table
-- PipeList           pipe.c; PipeList/Rising, PipeList/Ids: the ids along the list
-- Syscall            syscalls.c: Basic (GetPid, GetPPid, Delay, Wait), Brk, Exit, Fork, Lock, Cvar,
--                    Pipe, Tty, Reclaim (PipeInit, Reclaim). Syscall/Exit/Scan: the passes over the
--                    queues together; Syscall/Exit/Waited: KernelExit of a child and KernelWait of its
--                    parent; Syscall/Answering: calls one after the other against what a pipe
--                    (Pipe/Stream) or a terminal (Trap/Terminal/Stream) promises
-- Trap               traphandlers.c: Clock (with CheckBlocked of kernel.c), Faults, Terminal, Dispatch
-- Load               load_program.c: LoadProgram; KernelExec of syscalls.c. Load/Image: what is known of
--                    a file, and the arithmetic of pages; Load/Pages: the loops over region 1's table;
--                    Load/Arguments: argc, argv and the strings on the new stack
-- Boot               kernel.c: SetUpGlobals, SetRegion0_pt, SetKernelBrk; Boot/Start: KernelStart
-- Census             the frames of all processes together, over calls one after the other
-- Examples           the functions on concrete states
--
-- A command takes the state to a value and a state, or to `fault`: undefined behaviour, such as a
-- read through NULL, through a freed PCB, or behind an array. A queue of processes and a list of ids
-- are lists in the kernel's state; the pointer level is in Queue and LinkedList. `malloc` is not code
-- of the kernel: the state holds what its n-th call returns, NULL where it fails. The same holds for
-- the ids of `helper_new_pid`. What a user's pointer leads to is an argument of the call that reads
-- it; a write through one is recorded in `outputs`.
--
-- A system call that switches processes is split at the switch: the first part ends with `sleeps` and
-- the point where the process goes on (`Point`), with the locals that it still needs there; the
-- second part is a function of its own, which the process runs when it is switched to again
-- (`kernel_wait_return` behind `kernel_wait`). `goes` is a jump to such a point without a switch.
--
-- The loops over a page table, a buffer or a queue run a number of rounds that is fixed before they
-- start, and are recursive in that number. The loops of the pipe calls that wake processes test a queue's size
-- in each round; a round takes one process off the queue and adds one at most, so the size at the start
-- bounds the rounds, and is their number here (Syscall/Pipe/WakeFuel).
--
-- Not modelled: the TLB, TracePrintf, the interrupt vector, the contents of pages other than the
-- argument block, the user library under etc/yuserlib, the test programs under progs. How `open`,
-- LoadInfo and `read` end is what a `File` says. What malloc does to the kernel's break is a function
-- of its own (SetKernelBrk) and not a part of the commands that call malloc.
-- SetUpGlobals is modelled with each of its allocations successful, so that the terminals' queues and
-- buffers, and those of locks and condition variables, are not NULL.
pub mod Base
pub mod Memory
pub mod LinkedList
pub mod Queue
pub mod Hardware
pub mod Frames
pub mod Kernel
pub mod ContextSwitch
pub mod Process
pub mod PipeList
pub mod Syscall
pub mod Trap
pub mod Load
pub mod Boot
pub mod Census
pub mod Examples
