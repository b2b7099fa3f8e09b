-- ===== src/Process/Space.antt =====
-- process.c: free_addr_space and delete_process.
use yalnix_implementation.Base.{◌==◌, if◌then◌else◌, none, Bool, true, false, ℤ, pos}
use yalnix_implementation.Hardware.{Ptr, null}
use yalnix_implementation.Frames.{Memory}
use yalnix_implementation.Frames.Loops.{release_frames}
use yalnix_implementation.Kernel.{
  Kernel, Pcb, M, pure, ◌>>=◌, ◌>>◌, gets, modify, load_pcb, put, error_code,
}

-- `free_addr_space` of the PCB's tables: kernel stack first, `false` is `ERROR`. The entries stay.
unfoldable pub free_tables : Pcb → Memory → Bool × Memory
free_tables p m =
    let (freed, m') = release_frames p.kernel_stack_pt m in
    elim freed [ true ↦ release_frames p.user_page_table m' | false ↦ (false, m') ]

unfoldable pub free_addr_space : Ptr → M ℤ
unfolding free_tables
free_addr_space pcb = do
  p ← load_pcb pcb
  let run = λ (k : Kernel). free_tables p k.memory
  freed ← gets λ k. (run k).0
  modify λ k. record k { memory = (run k).1 }
  pure (if freed then pos 0 else error_code)

-- the PCB is given back to `malloc`; a later access to it is undefined behaviour
unfoldable pub delete_process : Ptr → M ℤ
unfolding free_addr_space
delete_process pcb = if pcb == null then pure error_code else do
  _ ← free_addr_space pcb
  modify λ k. record k { pcbs = put k.pcbs pcb none }
  pure (pos 0)
