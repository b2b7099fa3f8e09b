-- ===== src/Trap/Dispatch/Exec.antt =====
-- TrapKernelHandler with the code of Exec: a file that loads, and one whose pages cannot be read.
use yalnix_implementation.Base.{
  ℕ, ◌+◌, ◌≤◌, ◌<◌, ◌⊎◌, ◌&&◌, ◌≡◌, ◌≢◌, refl, some, true, false, Bool, List, arith, pos, ==-refl,
}
use yalnix_implementation.Hardware.{Ptr, null, UserContext, vmem_region_size, max_pt_len}
use yalnix_implementation.Kernel.{Kernel, Pcb, ok, put, returns, load_pcb, update_pcb, error_code}
use yalnix_implementation.Load.Image.{
  LoadInfo, File, cannot_open, not_yalnix, executable, data_page, data_pages, stack_pages,
  stack_pointer,
}
use yalnix_implementation.Load.Sections.{Loadable, reaches_finish}
use yalnix_implementation.Load.Layout.{load_program-LaidOut}
use yalnix_implementation.Load.Loaded.{loaded, placed}
use yalnix_implementation.Load.{kill_code, finish_load, kernel_exec, load_program}
use yalnix_implementation.Syscall.Exit.{kernel_exit}
use yalnix_implementation.Trap.Dispatch.{
  UserMemory, yalnix_prefix, start_program, exec_call, trap_kernel_handler, dispatch,
}

-- the process without the registers of its old program
abbrev pub cleared : Pcb → Pcb
cleared p = record p { user_context = record { addr = 0; code = 0; sp = 0; pc = 0 } }

abbrev pub with_cleared : Kernel → Pcb → Kernel
with_cleared k p = record k { pcbs = put k.pcbs k.active_pcb (some (cleared p)) }

-- the state behind a call of Exec: the program is loaded, and the trap returns into it
abbrev pub executed : Kernel → LoadInfo → List (List ℕ) → Pcb → UserContext → Kernel
executed k li args p c =
    let k' = loaded (with_cleared k p) k.active_pcb li args (cleared p) in
    record k' {
      uctxt = put k.uctxt k.active_pcb (some (record c { sp = stack_pointer args; pc = li.entry }));
    }

pub cleared-Loadable :
    (k : Kernel) (li : LoadInfo) (args : List (List ℕ)) (p : Pcb)
    → Loadable k k.active_pcb li args p
    → Loadable (with_cleared k p) k.active_pcb li args (cleared p)
cleared-Loadable k li args p h = record {
  live = h.live;
  holds = rw (==-refl k.active_pcb) refl;
  room = h.room;
  linked = h.linked;
  gap = h.gap;
  ordered = h.ordered;
  table = h.table;
  frames = h.frames;
  old_frames = h.old_frames;
  enough = h.enough;
}

kernel_exec-loaded :
    (k : Kernel) (li : LoadInfo) (args : List (List ℕ)) (p : Pcb) (c : UserContext)
    (filename argvec : Ptr)
    → filename ≢ null
    → argvec ≢ null
    → k.uctxt k.active_pcb ≡ some c
    → Loadable k k.active_pcb li args p
    → kernel_exec (executable li true true) args filename argvec k
      ≡ ok (pos 0) (loaded (with_cleared k p) k.active_pcb li args (cleared p))
unfolding kernel_exec update_pcb
kernel_exec-loaded k li args p c filename argvec named given context h = ground (
  arith,
  h.live,
  h.holds,
  (load_program-LaidOut (with_cleared k p) k.active_pcb li args (cleared p)
      (cleared-Loadable k li args p h)).returned,
)

-- If the running process's call of Exec names a file that loads, with the conditions of
-- LoadProgram, and neither of its arguments is NULL, TrapKernelHandler returns 0 in the state that
-- LoadProgram leaves, with the stack pointer of the trap's user context at the argument block and
-- its program counter at the file's entry.
pub trap_kernel_handler-exec :
    (k : Kernel) (user : UserMemory) (li : LoadInfo) (p : Pcb) (c : UserContext) (r0 r1 r2 : ℕ)
    → r0 ≢ null
    → r1 ≢ null
    → k.uctxt k.active_pcb ≡ some c
    → user.file_at r0 ≡ executable li true true
    → Loadable k k.active_pcb li (user.args_at r1) p
    → trap_kernel_handler user (yalnix_prefix + 2) r0 r1 r2 k
      ≡ ok (returns (pos 0)) (executed k li (user.args_at r1) p c)
unfolding trap_kernel_handler dispatch exec_call start_program load_pcb
trap_kernel_handler-exec k user li p c r0 r1 r2 named given context file h =
    ground
      (arith, h.live, kernel_exec-loaded k li (user.args_at r1) p c r0 r1 named given context h)

-- the state in which the pages are placed and the trap returns to address 0
abbrev pub astray : Kernel → LoadInfo → List (List ℕ) → Pcb → UserContext → Kernel
astray k li args p c = record (placed (with_cleared k p) k.active_pcb li args (cleared p)) {
  uctxt = put k.uctxt k.active_pcb (some (record c { sp = stack_pointer args; pc = 0 }));
}

finish_load-kill :
    (li : LoadInfo) (text_read data_read : Bool) (args : List (List ℕ)) (a : Ptr) (k : Kernel)
    → text_read && data_read ≡ false
    → finish_load li text_read data_read args a k ≡ ok kill_code k
unfolding finish_load
finish_load-kill li false data_read args a k short = refl
finish_load-kill li true false args a k short = refl
finish_load-kill li true true args a k short = cc

kernel_exec-killed :
    (k : Kernel) (li : LoadInfo) (text_read data_read : Bool) (args : List (List ℕ)) (p : Pcb)
    (c : UserContext) (filename argvec : Ptr)
    → text_read && data_read ≡ false
    → filename ≢ null
    → argvec ≢ null
    → k.uctxt k.active_pcb ≡ some c
    → Loadable k k.active_pcb li args p
    → kernel_exec (executable li text_read data_read) args filename argvec k
      ≡ ok (pos 0) (placed (with_cleared k p) k.active_pcb li args (cleared p))
unfolding kernel_exec update_pcb
kernel_exec-killed k li text_read data_read args p c filename argvec short named given context h =
    let a = k.active_pcb in
    ground (
      arith,
      h.live,
      h.holds,
      reaches_finish (with_cleared k p) a li args (cleared p) (cleared-Loadable k li args p h)
          text_read data_read,
      finish_load-kill li text_read data_read args a
          (placed (with_cleared k p) a li args (cleared p)) short,
    )

-- If the running process's call of Exec names a file with the conditions of LoadProgram, but a
-- read of its text or data is short, and neither argument is NULL, TrapKernelHandler returns 0 and
-- the trap returns to address 0: the code that asks for the process to be killed is taken for
-- success.
pub trap_kernel_handler-astray :
    (k : Kernel) (user : UserMemory) (li : LoadInfo) (text_read data_read : Bool) (p : Pcb)
    (c : UserContext) (r0 r1 r2 : ℕ)
    → text_read && data_read ≡ false
    → r0 ≢ null
    → r1 ≢ null
    → k.uctxt k.active_pcb ≡ some c
    → user.file_at r0 ≡ executable li text_read data_read
    → Loadable k k.active_pcb li (user.args_at r1) p
    → trap_kernel_handler user (yalnix_prefix + 2) r0 r1 r2 k
      ≡ ok (returns (pos 0)) (astray k li (user.args_at r1) p c)
unfolding trap_kernel_handler dispatch exec_call start_program load_pcb
trap_kernel_handler-astray k user li text_read data_read p c r0 r1 r2 short named given context file
      h =
    ground (
      arith,
      h.live,
      kernel_exec-killed k li text_read data_read (user.args_at r1) p c r0 r1 short named given
          context h,
    )

-- LoadProgram refuses the file before it commits.
abbrev pub IsRefused : File → List (List ℕ) → Type 0
IsRefused cannot_open args = Unit
IsRefused not_yalnix args = Unit
IsRefused (executable li text_read data_read) args =
    (li.entry < vmem_region_size) ⊎ (max_pt_len ≤ stack_pages args + data_page li + data_pages li)

load_program-refused :
    (file : File) (args : List (List ℕ)) (a : Ptr) (k : Kernel)
    → IsRefused file args
    → load_program file args a k ≡ ok error_code k
unfolding load_program
load_program-refused cannot_open args a k refused = refl
load_program-refused not_yalnix args a k refused = refl
load_program-refused (executable li text_read data_read) args a k refused = ground arith

-- If the running process's call of Exec names a file that cannot be opened, is not in the format,
-- has its entry below region 1, or leaves no page between heap and stack, and neither argument is
-- NULL, TrapKernelHandler does what KernelExit with ERROR does, in a state in which nothing but
-- the registers in the process's PCB has changed.
pub trap_kernel_handler-refused :
    (k : Kernel) (user : UserMemory) (p : Pcb) (c : UserContext) (r0 r1 r2 : ℕ)
    → r0 ≢ null
    → r1 ≢ null
    → k.active_pcb ≢ null
    → k.pcbs k.active_pcb ≡ some p
    → k.uctxt k.active_pcb ≡ some c
    → IsRefused (user.file_at r0) (user.args_at r1)
    → trap_kernel_handler user (yalnix_prefix + 2) r0 r1 r2 k
      ≡ kernel_exit error_code (with_cleared k p)
unfolding trap_kernel_handler dispatch exec_call kernel_exec update_pcb
trap_kernel_handler-refused k user p c r0 r1 r2 named given live holds context refused = ground (
  arith,
  load_program-refused (user.file_at r0) (user.args_at r1) k.active_pcb (with_cleared k p) refused,
)
