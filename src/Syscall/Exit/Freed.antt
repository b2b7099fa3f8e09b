-- ===== src/Syscall/Exit/Freed.antt =====
-- KernelExit of a process that nobody waits for.
use yalnix_implementation.Base.{◌≡◌, ◌≢◌, none, some, false, ℤ, arith, is_pos}
use yalnix_implementation.Hardware.{null, UserContext}
use yalnix_implementation.Kernel.{Kernel, Pcb, fault, load_pcb, update_pcb, put}
use yalnix_implementation.Process.{free_addr_space, delete_process, swap_process}
use yalnix_implementation.Syscall.Exit.{exit_leave, kernel_exit}

-- a switch away from a process whose PCB was freed
swap_freed :
    (k : Kernel) (u : UserContext)
    → k.uctxt k.active_pcb ≡ some u
    → k.pcbs k.active_pcb ≡ none
    → swap_process none k ≡ fault
unfolding swap_process load_pcb
swap_freed k u context freed = ground arith

-- With no queue to go to the process is deleted and then read: undefined behaviour.
pub exit_leave-fault :
    (k : Kernel) (u : UserContext)
    → k.active_pcb ≢ null
    → k.uctxt k.active_pcb ≡ some u
    → exit_leave false k ≡ fault
unfolding exit_leave delete_process free_addr_space load_pcb swap_process
exit_leave-fault k u live context = ground arith

-- KernelExit of a running process with parent 0 and no children, called with a user context, is
-- undefined behaviour: SwapProcess reads the PCB that delete_process freed.
pub kernel_exit-fault :
    (k : Kernel) (exit_code : ℤ) (u : UserContext) (p : Pcb)
    → k.active_pcb ≢ null
    → k.uctxt k.active_pcb ≡ some u
    → k.pcbs k.active_pcb ≡ some p
    → p.ppid ≡ 0
    → is_pos p.num_children ≡ false
    → kernel_exit exit_code k ≡ fault
unfolding kernel_exit load_pcb update_pcb
kernel_exit-fault k exit_code u p live context holds orphan childless = ground (
  arith,
  exit_leave-fault
      (record k { pcbs = put k.pcbs k.active_pcb (some (record p { exit_code = exit_code })) }) u,
)
