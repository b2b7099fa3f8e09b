-- ===== src/Examples/Loading.antt =====
-- Loading programs, forking, and the start of the kernel.
use yalnix_implementation.Base.{
  ℕ, ◌+◌, ◌*◌, ◌≡◌, refl, arith, some, true, false, List, [], ◌∷◌, pos, replicate,
}
use yalnix_implementation.Hardware.{pte, max_pt_len}
use yalnix_implementation.Kernel.{Kernel, Pcb, ◌>>=◌, put, ok, Ends, returns, error_code}
use yalnix_implementation.Load.Image.{
  LoadInfo, File, cannot_open, executable, region1_page, strings_start, argc_address, stack_pointer,
  stack_pages,
}
use yalnix_implementation.Load.Arguments.{build_arguments}
use yalnix_implementation.Load.ArgumentBlock.{Block, Fits, stack_pages-Fits, build_arguments-Block}
use yalnix_implementation.Load.Sections.{Loadable}
use yalnix_implementation.Load.Layout.{LaidOut, load_program-LaidOut}
use yalnix_implementation.Load.Fresh.{blank-Loadable, Fitting}
use yalnix_implementation.Load.{load_program}
use yalnix_implementation.Load.Loaded.{text_placed}
use yalnix_implementation.Load.Pages.{place_pages, throw_away}
use yalnix_implementation.Load.RunOut.{Doubled, stopped_process, load_program-Doubled}
use yalnix_implementation.Frames.{allocate_pfn, pop_frame}
use yalnix_implementation.Process.{free_addr_space}
use yalnix_implementation.Syscall.Exit.{kernel_exit}
use yalnix_implementation.Trap.Dispatch.{UserMemory, yalnix_prefix, trap_kernel_handler}
use yalnix_implementation.Trap.Dispatch.Exec.{
  executed, astray, with_cleared, trap_kernel_handler-exec, trap_kernel_handler-astray,
  trap_kernel_handler-refused,
}
use yalnix_implementation.Boot.Start.{Sizes, started, kernel_start}
use yalnix_implementation.Boot.Bootable.{Bootable}
use yalnix_implementation.Boot.Started.{Running, kernel_start-Running}
use yalnix_implementation.Examples.Data.{machine, process, context, memory}

-- "ab" and "c"
abbrev args : List (List ℕ)
args = (97 ∷ 98 ∷ []) ∷ (99 ∷ []) ∷ []

build_arguments-Block_example : Block args (stack_pointer args) (build_arguments args (λ _. 7))
unfolding stack_pages stack_pointer argc_address strings_start
build_arguments-Block_example =
    build_arguments-Block args (λ _. 7) (omega arith)
      ((ground arith, (ground arith, tt)), ((ground arith, tt), tt))

stack_pages-Fits_example : Fits args
unfolding stack_pages stack_pointer argc_address strings_start
stack_pages-Fits_example = stack_pages-Fits args (omega arith)

-- a page of text at the start of region 1, and a page of data and one of bss two pages above
abbrev program : LoadInfo
program = record {
  entry = 0x100040;
  t_faddr = 0;
  t_vaddr = 0x100000;
  t_npg = 1;
  t_end = 0x101000;
  id_faddr = 8192;
  id_vaddr = 0x104000;
  id_npg = 1;
  id_end = 0x105000;
  ud_vaddr = 0x106000;
  ud_npg = 1;
  ud_end = 0x107000;
}

abbrev new_process : Pcb
new_process = record (process 1 0) { user_page_table = replicate max_pt_len (pte 0 0 0) }

-- the running process has no pages yet, and five frames are free
abbrev empty : Kernel
empty = record machine {
  pcbs = put machine.pcbs 20 (some new_process);
  memory = record memory { pfn_list = 50 ∷ 51 ∷ 52 ∷ 53 ∷ 54 ∷ [] };
}

program-Fitting : Fitting program args
unfolding stack_pages stack_pointer argc_address strings_start region1_page
program-Fitting = record { linked = omega arith; gap = omega arith; ordered = omega arith }

program-Loadable : Loadable empty 20 program args new_process
unfolding stack_pages stack_pointer argc_address strings_start
program-Loadable =
    blank-Loadable max_pt_len empty 20 program args new_process refl refl (ground arith) refl
      (λ c. ground arith) program-Fitting (omega arith) (omega arith)

load_program-LaidOut_example :
    LaidOut empty 20 program args new_process
      (load_program (executable program true true) args 20 empty)
load_program-LaidOut_example =
    load_program-LaidOut empty 20 program args new_process program-Loadable

abbrev user : File → UserMemory
user file = record { file_at = λ _. file; args_at = λ _. args; bytes_in = λ _. [] }

trap_kernel_handler-exec_example :
    trap_kernel_handler (user (executable program true true)) (yalnix_prefix + 2) 900 904 0 empty
    ≡ ok (returns (pos 0)) (executed empty program args new_process context)
trap_kernel_handler-exec_example =
    trap_kernel_handler-exec empty (user (executable program true true)) program new_process context
      900 904 0 (ground arith) (ground arith) refl refl program-Loadable

trap_kernel_handler-astray_example :
    trap_kernel_handler (user (executable program true false)) (yalnix_prefix + 2) 900 904 0 empty
    ≡ ok (returns (pos 0)) (astray empty program args new_process context)
trap_kernel_handler-astray_example =
    trap_kernel_handler-astray empty (user (executable program true false)) program true false
      new_process context 900 904 0 refl (ground arith) (ground arith) refl refl program-Loadable

trap_kernel_handler-refused_example :
    trap_kernel_handler (user cannot_open) (yalnix_prefix + 2) 900 904 0 empty
    ≡ kernel_exit error_code (with_cleared empty new_process)
trap_kernel_handler-refused_example =
    trap_kernel_handler-refused empty (user cannot_open) new_process context 900 904 0
      (ground arith) (ground arith) (ground arith) refl refl tt

-- no frame is free
abbrev short : Kernel
short = record empty { memory = record empty.memory { pfn_list = [] } }

load_program-Doubled_example :
    Ends
      (λ r k'.
        Doubled
          (stopped_process short 20 program args new_process)
          (text_placed short 20 program args new_process).memory
          k')
      ((load_program (executable program true true) args 20 >>= λ _. free_addr_space 20) short)
unfolding place_pages throw_away allocate_pfn pop_frame region1_page
load_program-Doubled_example =
    load_program-Doubled short 20 program true true args new_process (ground arith) refl
      (λ c. ground arith) program-Fitting.linked program-Fitting.gap refl

-- region 0 with free pages between heap and stack, and a machine of 256 frames
abbrev sizes : Sizes
sizes = record { pmem_size = 256 * 8192; data_start = 10; data_end = 20; brk = 30 }

abbrev reset : Kernel
reset = record machine { active_pcb = 0; queues = λ _. []; new_pid = λ n. n }

abbrev programs : List ℕ → File
programs name = executable program true true

program-Fitting_tail : Fitting program ((99 ∷ []) ∷ [])
unfolding stack_pages stack_pointer argc_address strings_start region1_page
program-Fitting_tail = record { linked = omega arith; gap = omega arith; ordered = omega arith }

program-Bootable : Bootable sizes reset context programs [] args program program
unfolding stack_pages stack_pointer argc_address strings_start
program-Bootable = record {
  sizes = record { text = omega arith; heap = omega arith; free = omega arith };
  alone = refl;
  context = refl;
  room = λ c. ground arith;
  apart = ground arith;
  first_pid = refl;
  next_pid = ground arith;
  idle_file = refl;
  prog_file = refl;
  idle_fits = program-Fitting_tail;
  prog_fits = program-Fitting;
  enough = omega arith;
}

kernel_start-Running_example :
    Ends
      (λ r k'. (r ≡ started) × Running context program program ((99 ∷ []) ∷ []) args k')
      (kernel_start sizes programs [] args reset)
kernel_start-Running_example =
    kernel_start-Running sizes reset context programs [] args program program program-Bootable
