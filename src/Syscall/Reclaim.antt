-- ===== src/Syscall/Reclaim.antt =====
-- syscalls.c: KernelPipeInit and KernelReclaim.
use yalnix_implementation.Base.{
  ℕ, ◌+◌, ◌==◌, leb, if◌then◌else◌, Bool, true, ◌∷◌, ℤ, pos, negsuc, is_neg,
}
use yalnix_implementation.Hardware.{Ptr, null, max_locks, max_cvars}
use yalnix_implementation.Frames.{malloc_fails}
use yalnix_implementation.Kernel.{
  M, pure, ◌>>=◌, ◌>>◌, gets, modify, error_code, int_at, emit, count_malloc,
}
use yalnix_implementation.PipeList.{add_pipe, remove_pipe}

unfoldable pub kernel_pipe_init : Ptr → M ℤ
kernel_pipe_init pipe_idp = if pipe_idp == null then pure error_code else do
  id ← add_pipe
  if is_neg id then pure error_code else do emit (int_at pipe_idp id); pure (pos 0)

-- `i <= n`
abbrev pub at_most : ℤ → ℕ → Bool
at_most (pos i) n = leb i n
at_most (negsuc i) n = true

-- An id is put back on the list of its kind; a negative one goes to the locks.
unfoldable pub kernel_reclaim : ℤ → M ℤ
kernel_reclaim id =
    if at_most id max_locks
    then (do
      no_node ← gets λ k. malloc_fails k.memory
      modify count_malloc
      modify λ k. record k { lock_list = if no_node then k.lock_list else id ∷ k.lock_list }
      pure (if no_node then error_code else pos 0))
    else if at_most id (max_cvars + max_locks)
    then (do
      no_node ← gets λ k. malloc_fails k.memory
      modify count_malloc
      modify λ k. record k { cvar_list = if no_node then k.cvar_list else id ∷ k.cvar_list }
      pure (if no_node then error_code else pos 0))
    else remove_pipe id
