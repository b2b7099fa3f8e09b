-- ===== src/Load.antt =====
-- load_program.c: LoadProgram; syscalls.c: KernelExec. What the files hold is a parameter
-- (Load/Image), and the contents of pages are not modelled, but for the argument block.
pub mod Image
pub mod Arguments
pub mod Pages
pub mod ArgumentBytes
pub mod ArgumentBlock
pub mod ThrowAway
pub mod Placement
pub mod Loaded
pub mod Sections
pub mod Layout
pub mod Fresh
pub mod RunOut
use yalnix_implementation.Base.{
  ℕ, ◌+◌, ◌-◌, ◌==◌, ltb, leb, if◌then◌else◌, Bool, true, false, ◌||◌, none, some, List, [], ◌∷◌, ℤ,
  pos, negsuc, eq_int, replicate,
}
use yalnix_implementation.Hardware.{Ptr, null, Pte, vmem_region_size, vmem_1_limit, max_pt_len}
use yalnix_implementation.Frames.{Memory}
use yalnix_implementation.Frames.Loops.{Status, Walk, done, error, undefined}
use yalnix_implementation.Kernel.{
  Pcb, M, pure, ◌>>=◌, ◌>>◌, gets, modify, load_pcb, update_pcb, undefined_behaviour, error_code,
  emit, bytes_at, count_malloc, trap_context, update_active,
}
use yalnix_implementation.Process.{free_addr_space}
use yalnix_implementation.Load.Image.{
  LoadInfo, File, cannot_open, not_yalnix, executable, text_page, data_page, data_pages,
  argc_address, stack_pointer, stack_pages,
}
use yalnix_implementation.Load.Arguments.{build_arguments, bytes_from}
use yalnix_implementation.Load.Pages.{throw_away, place_pages, protect_text}

-- `KILL` of ykernel.h
abbrev pub kill_code : ℤ
kill_code = negsuc 1

-- the old region 1 goes
unfoldable pub clear_region1 : Ptr → M (Unit {0})
unfolding throw_away
clear_region1 proc = do
  p ← load_pcb proc
  m ← gets λ k. k.memory
  update_pcb proc λ q. record q { user_page_table = (throw_away p.user_page_table m).0 }
  modify λ k. record k { memory = (throw_away p.user_page_table m).1 }

-- a loop that gives pages to a section
unfoldable pub place_section : Ptr → ℕ → ℕ → M Status
unfolding place_pages
place_section proc n i = do
  p ← load_pcb proc
  m ← gets λ k. k.memory
  update_pcb proc λ q. record q { user_page_table = (place_pages n i p.user_page_table m).table }
  modify λ k. record k { memory = (place_pages n i p.user_page_table m).memory }
  pure (place_pages n i p.user_page_table m).status

-- the next section, where the one before is placed
abbrev pub then_section : Status → M Status → M Status
then_section done next = next
then_section error next = pure error
then_section undefined next = pure undefined

unfoldable pub place_sections : LoadInfo → List (List ℕ) → Ptr → M Status
unfolding place_section
place_sections li args proc = do
  update_pcb proc λ p. record p { user_text_pt_index = text_page li }
  t ← place_section proc li.t_npg (text_page li)
  then_section t (do
    update_pcb proc λ p. record p { user_data_pt_index = data_page li }
    d ← place_section proc (data_pages li) (data_page li)
    then_section d (do
      update_pcb proc λ p. record p {
        user_heap_pt_index = data_page li + data_pages li;
        user_stack_pt_index = max_pt_len - stack_pages args;
      }
      place_section proc (stack_pages args) (max_pt_len - stack_pages args)))

-- The two reads, the protection of the text, the program counter and the arguments.
unfoldable pub finish_load : LoadInfo → Bool → Bool → List (List ℕ) → Ptr → M ℤ
unfolding protect_text build_arguments bytes_from
finish_load li false data_read args proc = pure kill_code
finish_load li true false args proc = pure kill_code
finish_load li true true args proc = do
  update_pcb proc
      λ p. record p { user_page_table = protect_text li.t_npg (text_page li) p.user_page_table }
  emit (bytes_at li.id_end (replicate (li.ud_end - li.id_end) 0))
  update_pcb proc λ p. record p { user_context = record p.user_context { pc = li.entry } }
  emit (
      bytes_at (argc_address args) (
        bytes_from (vmem_1_limit - argc_address args) (argc_address args)
          (build_arguments args (λ _. 0))))
  pure (pos 0)

-- behind the checks; `ptbr1` is set to the process's table
unfoldable pub commit_load : LoadInfo → Bool → Bool → List (List ℕ) → Ptr → M ℤ
unfolding clear_region1 place_sections finish_load
commit_load li text_read data_read args proc = do
  update_pcb proc λ p. record p { user_context = record p.user_context { sp = stack_pointer args } }
  a ← gets λ k. k.memory.malloc k.memory.mallocs
  modify count_malloc
  if a == null then pure error_code else do
    modify λ k. record k { ptbr1 = proc }
    clear_region1 proc
    s ← place_sections li args proc
    elim s [
      | done ↦ finish_load li text_read data_read args proc
      | error ↦ do _ ← free_addr_space proc; pure error_code
      | undefined ↦ undefined_behaviour
    ]

unfoldable pub load_program : File → List (List ℕ) → Ptr → M ℤ
unfolding commit_load
load_program cannot_open args proc = pure error_code
load_program not_yalnix args proc = pure error_code
load_program (executable li text_read data_read) args proc =
    if ltb li.entry vmem_region_size
    then pure error_code
    else if leb max_pt_len (stack_pages args + data_page li + data_pages li)
    then pure error_code
    else commit_load li text_read data_read args proc

-- `file` is what the path at `filename` leads to, `args` what `argvec` points at.
unfoldable pub kernel_exec : File → List (List ℕ) → Ptr → Ptr → M ℤ
unfolding load_program
kernel_exec file args filename argvec = do
  u ← trap_context
  elim u [
    | none ↦ pure error_code
    | some _ ↦ if (filename == null) || (argvec == null) then pure error_code else do
      update_active λ p. record p { user_context = record { addr = 0; code = 0; sp = 0; pc = 0 } }
      a ← gets λ k. k.active_pcb
      r ← load_program file args a
      pure (if eq_int r error_code then error_code else pos 0)
  ]
