-- ===== src/Boot/Start.antt =====
-- kernel.c: KernelStart and SetRegion1_pt. The interrupt vector, and what `malloc` does to region 0
-- through SetKernelBrk once the page table is set up, are not part of the state.
use yalnix_implementation.Base.{
  ℕ, zero, suc, ◌-◌, ◌/◌, ◌==◌, if◌then◌else◌, Option, none, some, List, [], ◌∷◌, ℤ, pos, eq_int,
  set,
}
use yalnix_implementation.Hardware.{
  Ptr, null, Pte, pte, valid_frame, no_x_w_r, max_pt_len, page_size,
}
use yalnix_implementation.Kernel.{
  M, pure, ◌>>=◌, ◌>>◌, gets, modify, put, load_pcb, undefined_behaviour, error_code, count_malloc,
  ready, queue_add,
}
use yalnix_implementation.ContextSwitch.{kernel_context_copy}
use yalnix_implementation.Process.{init_process}
use yalnix_implementation.Load.Image.{File}
use yalnix_implementation.Load.{load_program}
use yalnix_implementation.Boot.{set_region0_pt, set_up_globals}

-- The sizes that the kernel finds: of the memory in bytes, and the pages at which its text and data
-- end. `brk` is the page of `kernel_brk` behind the allocation of the two page tables.
pub record Sizes : Type 0 where
  pub pmem_size : ℕ
  pub data_start : ℕ
  pub data_end : ℕ
  pub brk : ℕ

-- The table at `u_pt` becomes the one of region 1. Its entries are 0, and only the hardware has it.
unfoldable pub set_region1_pt : Ptr → M ℤ
set_region1_pt u_pt =
    if u_pt == null then pure error_code else do modify λ k. record k { ptbr1 = u_pt }; pure (pos 0)

-- the loop before virtual memory is enabled: `n` pages from `i` on
unfoldable pub clean_up : ℕ → ℕ → List Pte → List Pte
clean_up zero i pt = pt
clean_up (suc n) i pt = clean_up n (suc i) (set pt i (pte valid_frame no_x_w_r i))

-- "progs/init" and "progs/idle"
abbrev pub default_prog : List ℕ
default_prog = b'p' ∷ b'r' ∷ b'o' ∷ b'g' ∷ b's' ∷ b'/' ∷ b'i' ∷ b'n' ∷ b'i' ∷ b't' ∷ []

abbrev pub idle_name : List ℕ
idle_name = b'p' ∷ b'r' ∷ b'o' ∷ b'g' ∷ b's' ∷ b'/' ∷ b'i' ∷ b'd' ∷ b'l' ∷ b'e' ∷ []

abbrev pub prog_name : List (List ℕ) → List ℕ
prog_name [] = default_prog
prog_name (prog ∷ args) = prog

-- `&cmd_args[1]`; without arguments it leads behind the NULL that ends them, to `beyond`
abbrev pub idle_args : List (List ℕ) → List (List ℕ) → List (List ℕ)
idle_args beyond [] = beyond
idle_args beyond (prog ∷ args) = args

-- `NULL` for `none`
abbrev pub pointer : Option Ptr → Ptr
pointer none = null
pointer (some a) = a

-- the two page tables and the globals
unfoldable pub set_up_memory : Sizes → M (Unit {0})
unfolding set_region1_pt clean_up
set_up_memory z = do
  k_pt ← gets λ k. k.memory.malloc k.memory.mallocs
  modify count_malloc
  u_pt ← gets λ k. k.memory.malloc k.memory.mallocs
  modify count_malloc
  if k_pt == null then undefined_behaviour else do
    _ ← set_region1_pt u_pt
    modify λ k. record k {
      k_pt =
          clean_up (z.brk - z.data_end) z.data_end
            (set_region0_pt z.data_start z.data_end z.brk max_pt_len 0);
    }
    _ ← set_up_globals (z.pmem_size / page_size)
    pure tt

-- The idle process, which becomes the active one: the kernel's stack is its stack from then on.
-- A failure to load it is only reported.
unfoldable pub start_idle : File → List (List ℕ) → M Ptr
start_idle file args = do
  u ← gets λ k. k.uctxt k.active_pcb
  r ← init_process
  modify λ k. record k { idle_pcb = pointer r }
  _ ← load_program file args (pointer r)
  modify λ k. record k { active_pcb = pointer r; uctxt = put k.uctxt (pointer r) u }
  pure (pointer r)

-- How KernelStart ends: the machine is stopped, or runs the idle process.
pub data Boot : Type 0 where
  halted started : Boot

-- The loaded program is put on the ready queue and gets a copy of the kernel's stack.
unfoldable pub launch : Ptr → Ptr → M Boot
launch prog idle = do
  _ ← queue_add (some ready) prog
  modify λ k. record k { ptbr1 = idle }
  p ← load_pcb idle
  modify λ k. record k { uctxt = put k.uctxt idle (some p.user_context) }
  kernel_context_copy prog
  pure started

-- the first program
unfoldable pub start_prog : File → List (List ℕ) → Ptr → M Boot
unfolding launch
start_prog file args idle = do
  r ← init_process
  c ← load_program file args (pointer r)
  if eq_int c error_code then pure halted else launch (pointer r) idle

-- `file_at` is what a name leads to.
unfoldable pub kernel_start : Sizes → (List ℕ → File) → List (List ℕ) → List (List ℕ) → M Boot
unfolding set_up_memory start_idle start_prog
kernel_start z file_at beyond cmd_args = do
  set_up_memory z
  idle ← start_idle (file_at idle_name) (idle_args beyond cmd_args)
  start_prog (file_at (prog_name cmd_args)) cmd_args idle
