-- ===== src/Syscall/Brk.antt =====
-- syscalls.c: KernelBrk.
pub mod Heap
pub mod Shrink
pub mod RunningOut
pub mod HalfGrown
use yalnix_implementation.Base.{
  ℕ, ◌-◌, ◌==◌, ltb, leb, if◌then◌else◌, Option, none, some, Bool, true, false, ◌||◌, List, ℤ, pos,
  negsuc,
}
use yalnix_implementation.Hardware.{
  null, Pte, valid_frame, invalid_frame, no_x_w_r, page_of, up_to_page, region1_index,
}
use yalnix_implementation.Frames.{Memory}
use yalnix_implementation.Frames.Loops.{
  Status, done, error, undefined, Walk, map_entries, unmap_entries, some_entry,
}
use yalnix_implementation.Kernel.{
  Pcb, M, pure, ◌>>=◌, ◌>>◌, gets, modify, undefined_behaviour, error_code, active_process,
  update_active,
}

-- a loop over the active process's page table
unfoldable pub walk_active : (List Pte → Memory → Walk) → M Status
walk_active loop = do
  p ← active_process
  m ← gets λ k. k.memory
  update_active λ q. record q { user_page_table = (loop p.user_page_table m).table }
  modify λ k. record k { memory = (loop p.user_page_table m).memory }
  pure (loop p.user_page_table m).status

-- the last lines of KernelBrk, behind its loops
unfoldable pub finish_brk : ℕ → Status → M ℤ
finish_brk target done = do
  update_active λ p. record p { user_heap_pt_index = target }
  pure (pos 0)
finish_brk target error = pure error_code
finish_brk target undefined = undefined_behaviour

-- a first loop over the stretch that returns `ERROR` at an entry with the valid bit `bit`, and a
-- second loop that changes the stretch
unfoldable pub checked_walk : ℕ → Option Bool → (List Pte → Memory → Walk) → M ℤ
unfolding walk_active finish_brk
checked_walk target none loop = undefined_behaviour
checked_walk target (some true) loop = pure error_code
checked_walk target (some false) loop = do s ← walk_active loop; finish_brk target s

unfoldable pub brk_to : ℕ → Pcb → M ℤ
unfolding checked_walk
brk_to target p =
    let heap = p.user_heap_pt_index in
    let pt = p.user_page_table in
    if ltb heap target
    then checked_walk target (some_entry valid_frame (target - heap) heap pt)
        (map_entries no_x_w_r (target - heap) heap)
    else checked_walk target (some_entry invalid_frame (heap - target) target pt)
        (unmap_entries (heap - target) target)

unfoldable pub kernel_brk : ℕ → M ℤ
unfolding brk_to
kernel_brk addr = if addr == null then pure error_code else do
  p ← active_process
  elim (region1_index (page_of (up_to_page addr))) [
    | negsuc _ ↦ pure error_code
    | pos target ↦
        if leb p.user_stack_pt_index target || leb target p.user_data_pt_index
        then pure error_code
        else brk_to target p
  ]
