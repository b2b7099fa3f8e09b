-- ===== src/Trap/Faults.antt =====
-- traphandlers.c: TrapIllegalHandler, TrapMathHandler and TrapMemoryHandler.
pub mod Stack
use yalnix_implementation.Base.{ℕ, ◌-◌, ◌==◌, if◌then◌else◌, none, some, ℤ, pos, negsuc, get_elem?}
use yalnix_implementation.Hardware.{
  null, valid_frame, no_x_w_r, page_of, down_to_page, region1_index,
}
use yalnix_implementation.Frames.Loops.{done, error, undefined, map_entries}
use yalnix_implementation.Kernel.{
  defunct, M, pure, ◌>>=◌, ◌>>◌, gets, undefined_behaviour, error_code, Outcome, returns, in_kill,
  active_process, update_active, trap_context,
}
use yalnix_implementation.Process.{swap_process}
use yalnix_implementation.Syscall.Pipe.{onward}
use yalnix_implementation.Syscall.Brk.{walk_active}
use yalnix_implementation.Syscall.Exit.{kernel_exit}

-- what TrapIllegalHandler and TrapMathHandler do: the process goes to the defunct queue
unfoldable pub trap_kill_handler : M Outcome
trap_kill_handler = do
  a ← gets λ k. k.active_pcb
  if a == null then pure (returns (pos 0)) else do
    update_active λ p. record p { exit_code = error_code }
    s ← swap_process (some defunct)
    pure (onward in_kill s)

unfoldable pub trap_illegal_handler : M Outcome
unfolding trap_kill_handler
trap_illegal_handler = trap_kill_handler

unfoldable pub trap_math_handler : M Outcome
unfolding trap_kill_handler
trap_math_handler = trap_kill_handler

-- the loop that maps pages from the fault up to the stack
unfoldable pub grow_stack : ℕ → M Outcome
unfolding walk_active
grow_stack target = do
  p ← active_process
  s ← walk_active (map_entries no_x_w_r (p.user_stack_pt_index - target) target)
  elim s [
    | done ↦ pure (returns (pos 0))
    | error ↦ pure (returns (pos 0))
    | undefined ↦ undefined_behaviour
  ]

-- The page table is read at the target before the target is compared with 0.
unfoldable pub grow_from : ℤ → M Outcome
unfolding grow_stack
grow_from (negsuc n) = undefined_behaviour
grow_from (pos target) = do
  p ← active_process
  elim (get_elem? p.user_page_table target) [
    | none ↦ undefined_behaviour
    | some e ↦ if e.valid == valid_frame then kernel_exit error_code else grow_stack target
  ]

unfoldable pub trap_memory_handler : M Outcome
unfolding grow_from
trap_memory_handler = do
  u ← trap_context
  a ← gets λ k. k.active_pcb
  elim u [
    | none ↦ kernel_exit error_code
    | some c ↦
        if a == null
        then kernel_exit error_code
        else grow_from (region1_index (page_of (down_to_page c.addr)))
  ]
