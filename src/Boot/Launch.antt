-- ===== src/Boot/Launch.antt =====
-- KernelStart: the state behind each of its parts.
use yalnix_implementation.Base.{
  suc, ◌+◌, ◌-◌, ◌/◌, ◌≤◌, ◌<◌, ◌≡◌, List, [], ◌∷◌, arith, pos, replicate,
}
use yalnix_implementation.Hardware.{
  Pte, max_pt_len, max_locks, max_cvars, page_size, kernel_stack_page, vmem_region_size,
  terminal_max_line,
}
use yalnix_implementation.Kernel.{Kernel, ok, unset, unused_lock, unused_cvar, terminal_open}
use yalnix_implementation.PipeList.{init_head_pipe, empty_pipe}
use yalnix_implementation.Boot.{ids_up, frames_from, set_region0_pt, set_up_globals}
use yalnix_implementation.Boot.Start.{Sizes, set_region1_pt, set_up_memory}
use yalnix_implementation.Boot.Tables.{clean_up-set_region0_pt}
use yalnix_implementation.Load.ThrowAway.{HasRoom}

-- text, data and heap end in this order, and a page at least is free below the stack
pub record Ordered (z : Sizes) : Type 0 where
  pub text : z.data_start ≤ z.data_end
  pub heap : z.data_end ≤ z.brk
  pub free : z.brk < kernel_stack_page

abbrev pub region0 : Sizes → List Pte
region0 z = set_region0_pt z.data_start z.data_end z.brk max_pt_len 0

-- the state with its page tables and globals set up
abbrev pub prepared : Sizes → Kernel → Kernel
prepared z k = record k {
  queues = λ _. [];
  lock_list = ids_up max_locks 0 [];
  cvar_list = ids_up max_cvars (max_locks + 1) [];
  lock_status = λ _. unused_lock;
  cvar_status = λ _. unused_cvar;
  tty_read_buffers = λ _. replicate terminal_max_line 0;
  tty_write_trackers = λ _. terminal_open;
  tty_read_trackers = λ _. 0;
  k_pt = region0 z;
  ptbr1 = k.memory.malloc (suc k.memory.mallocs);
  memory = record k.memory {
    mallocs = suc (suc (suc k.memory.mallocs));
    pfn_list =
        frames_from (z.pmem_size / page_size - vmem_region_size / page_size)
          (vmem_region_size / page_size);
  };
  pipes =
      empty_pipe (k.memory.malloc (suc (suc k.memory.mallocs))) (pos (max_locks + max_cvars + 1))
        unset
      ∷ [];
}

pub set_up_memory-prepared :
    (z : Sizes) (k : Kernel)
    → Ordered z
    → HasRoom k.memory
    → set_up_memory z k ≡ ok tt (prepared z k)
unfolding set_up_memory set_up_globals init_head_pipe set_region1_pt
set_up_memory-prepared z k h room = ground (
  arith,
  room k.memory.mallocs,
  room (suc k.memory.mallocs),
  room (suc (suc k.memory.mallocs)),
  clean_up-set_region0_pt z.data_start z.data_end z.brk h.text h.heap (omega (arith, h.free)),
)
