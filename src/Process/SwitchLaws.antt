-- ===== src/Process/SwitchLaws.antt =====
-- What SwapProcess does.
use yalnix_implementation.Base.{ℕ, suc, ◌≡◌, ◌≢◌, some, List, [], ◌∷◌, ◌++◌, arith}
use yalnix_implementation.Hardware.{Ptr, null, UserContext, kernel_stack_page}
use yalnix_implementation.Kernel.{
  Kernel, Pcb, QueueId, ready, ok, put, put_queue, load_pcb, update_pcb, queue_add, queue_pop,
}
use yalnix_implementation.ContextSwitch.{map_stack, kc_switch, kernel_context_switch}
use yalnix_implementation.Process.Switch.{swapped, switch_from, swap_process}

-- the registers of the trap, saved in the PCB with the kernel context
abbrev pub saved : Pcb → UserContext → ℕ → Pcb
saved p u kc = record p {
  user_context = record p.user_context { sp = u.sp; pc = u.pc };
  kernel_context = kc;
}

-- the state in which `n` runs and `a` waits on `q`
abbrev pub after_switch : Kernel → Ptr → Ptr → QueueId → Pcb → Pcb → UserContext → List Ptr → Kernel
after_switch k a n q p next u rest =
    let popped = put_queue k.queues ready rest in
    record k {
      queues = put_queue popped q (popped q ++ a ∷ []);
      memory = record k.memory { mallocs = suc k.memory.mallocs };
      pcbs =
          put
            (put k.pcbs a
              (some (record p { user_context = record p.user_context { sp = u.sp; pc = u.pc } })))
            a (some (saved p u k.kernel_context));
      ptbr1 = n;
      active_pcb = n;
      k_pt = map_stack kernel_stack_page next.kernel_stack_pt k.k_pt;
      kernel_context = next.kernel_context;
    }

-- If the running process is not the idle process, the oldest ready process is another one, their
-- PCBs are there, and a queue node can be allocated, SwapProcess puts the running process behind
-- the processes of the queue it is moved to, saves its stack pointer, program counter and kernel
-- context, and runs the oldest ready process on its own page table, kernel stack and context.
pub swap_process-switch :
    (k : Kernel) (n : Ptr) (q : QueueId) (p next idle : Pcb) (u : UserContext) (rest : List Ptr)
    → k.active_pcb ≢ null
    → n ≢ null
    → n ≢ k.active_pcb
    → k.idle_pcb ≢ null
    → k.pcbs k.active_pcb ≡ some p
    → k.pcbs n ≡ some next
    → k.pcbs k.idle_pcb ≡ some idle
    → p.pid ≢ idle.pid
    → k.uctxt k.active_pcb ≡ some u
    → k.queues ready ≡ n ∷ rest
    → k.memory.malloc k.memory.mallocs ≢ null
    → swap_process (some q) k ≡ ok swapped (after_switch k k.active_pcb n q p next u rest)
unfolding swap_process switch_from load_pcb update_pcb queue_add queue_pop kc_switch
    kernel_context_switch
swap_process-switch k n q p next idle u rest a1 a2 a3 a4 a5 a6 a7 a8 a9 a10 a11 = ground arith
