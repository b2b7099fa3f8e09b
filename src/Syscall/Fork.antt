-- ===== src/Syscall/Fork.antt =====
-- syscalls.c: KernelFork.
pub mod Parts
pub mod Forked
pub mod RunOut
use yalnix_implementation.Base.{ℕ, ◌==◌, if◌then◌else◌, none, some, pos, is_neg, set}
use yalnix_implementation.Hardware.{
  Ptr, pte, valid_frame, invalid_frame, no_x_w_r, no_x_no_w_no_r, kernel_stack_page,
}
use yalnix_implementation.Frames.Loops.{Status, done, error, undefined}
use yalnix_implementation.Kernel.{
  Pcb, ready, M, pure, ◌>>=◌, ◌>>◌, gets, modify, load_pcb, update_pcb, undefined_behaviour,
  queue_add, Outcome, returns, in_fork, goes, refuse, active_process, trap_context,
}
use yalnix_implementation.ContextSwitch.{find_reserved, kernel_context_copy}
use yalnix_implementation.Process.{copy_upt, init_process}

abbrev pub inherit : Pcb → Pcb → Pcb
inherit parent child = record child {
  user_heap_pt_index = parent.user_heap_pt_index;
  user_stack_pt_index = parent.user_stack_pt_index;
  user_data_pt_index = parent.user_data_pt_index;
  user_text_pt_index = parent.user_text_pt_index;
}

-- `CopyUPT` from the active process to the child, with region 0's entry `r` for the copying
unfoldable pub copy_tables : Ptr → ℕ → M Status
copy_tables child r = do
  parent ← active_process
  c ← load_pcb child
  m ← gets λ k. k.memory
  let done_copy = copy_upt parent.user_page_table c.user_page_table 0 m
  update_pcb child λ p. record p { user_page_table = done_copy.table }
  modify λ k. record k {
    memory = done_copy.memory;
    k_pt = set k.k_pt r (pte valid_frame no_x_w_r done_copy.reserved);
  }
  pure done_copy.status

-- the child is ready to run on a copy of the kernel stack; both processes go on behind the copy
unfoldable pub start_child : Ptr → ℕ → M Outcome
start_child child r = do
  modify λ k. record k { k_pt = set k.k_pt r (pte invalid_frame no_x_no_w_no_r 0) }
  c ← queue_add (some ready) child
  if is_neg c then refuse else do kernel_context_copy child; pure (goes (in_fork child))

unfoldable pub fork_child : Ptr → M Outcome
unfolding copy_tables start_child
fork_child child = do
  parent ← active_process
  update_pcb child (inherit parent)
  k_pt ← gets λ k. k.k_pt
  elim (find_reserved kernel_stack_page k_pt) [
    | none ↦ refuse
    | some r ↦ do
      s ← copy_tables child r
      elim s [ done ↦ start_child child r | error ↦ refuse | undefined ↦ undefined_behaviour ]
  ]

-- The C code writes to the new PCB before it looks whether there is one.
unfoldable pub kernel_fork : M Outcome
unfolding fork_child
kernel_fork = do
  u ← trap_context
  elim u [
    | none ↦ refuse
    | some _ ↦ do
      r ← init_process
      elim r [ none ↦ undefined_behaviour | some child ↦ fork_child child ]
  ]

-- behind the copy: 0 in the child, the child's pid in the parent
unfoldable pub kernel_fork_return : Ptr → M Outcome
kernel_fork_return child = do
  me ← active_process
  c ← load_pcb child
  pure (returns (if me.pid == c.pid then pos 0 else pos c.pid))
