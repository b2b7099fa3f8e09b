-- ===== src/Trap/Dispatch.antt =====
-- traphandlers.c: TrapKernelHandler.
pub mod Exec
use yalnix_implementation.Base.{
  ℕ, none, some, ◌+◌, ◌-◌, ◌^◌, ◌==◌, ltb, if◌then◌else◌, List, [], ◌∷◌, ℤ, pos, negsuc, eq_int,
}
use yalnix_implementation.Hardware.{Ptr}
use yalnix_implementation.Kernel.{
  M, pure, ◌>>=◌, ◌>>◌, gets, modify, put, load_pcb, undefined_behaviour, Outcome, returns,
  error_code,
}
use yalnix_implementation.Load.Image.{File}
use yalnix_implementation.Load.{kernel_exec}
use yalnix_implementation.Syscall.Basic.{kernel_get_pid, kernel_delay, kernel_wait}
use yalnix_implementation.Syscall.Brk.{kernel_brk}
use yalnix_implementation.Syscall.Exit.{kernel_exit}
use yalnix_implementation.Syscall.Fork.{kernel_fork}
use yalnix_implementation.Syscall.Lock.{kernel_lock_init, kernel_acquire, kernel_release}
use yalnix_implementation.Syscall.Cvar.{
  kernel_cvar_init, kernel_cvar_signal, kernel_cvar_broadcast, kernel_cvar_wait,
}
use yalnix_implementation.Syscall.Pipe.{kernel_pipe_read, kernel_pipe_write}
use yalnix_implementation.Syscall.Reclaim.{kernel_pipe_init, kernel_reclaim}
use yalnix_implementation.Syscall.Tty.{kernel_tty_read, kernel_tty_write}

-- `(int) r` of a 32-bit register
unfoldable pub to_int : ℕ → ℤ
to_int r = if ltb r (2 ^ 31) then pos r else negsuc (2 ^ 32 - 1 - r)

-- the calls that the handler knows, by the last byte of their codes
pub data Call : Type 0 where
  fork exec exit wait getpid brk delay tty_read tty_write : Call
  pipe_init pipe_read pipe_write : Call
  lock_init lock_acquire lock_release : Call
  cvar_init cvar_signal cvar_broadcast cvar_wait reclaim unknown : Call

abbrev pub yalnix_prefix : ℕ
yalnix_prefix = 0xabcdef00

abbrev pub codes : List (ℕ × Call)
codes =
    (0x01, fork)
    ∷ (0x02, exec)
    ∷ (0x03, exit)
    ∷ (0x04, wait)
    ∷ (0x05, getpid)
    ∷ (0x06, brk)
    ∷ (0x07, delay)
    ∷ (0x21, tty_read)
    ∷ (0x22, tty_write)
    ∷ (0x48, pipe_init)
    ∷ (0x49, pipe_read)
    ∷ (0x4a, pipe_write)
    ∷ (0x66, cvar_init)
    ∷ (0x67, cvar_signal)
    ∷ (0x68, cvar_broadcast)
    ∷ (0x69, cvar_wait)
    ∷ (0x63, lock_init)
    ∷ (0x64, lock_acquire)
    ∷ (0x65, lock_release)
    ∷ (0x6a, reclaim)
    ∷ []

abbrev pub find_call : ℕ → List (ℕ × Call) → Call
find_call code [] = unknown
find_call code ((n, c) ∷ cs) = if code == yalnix_prefix + n then c else find_call code cs

-- A call that cannot switch.
abbrev pub plain : M ℤ → M Outcome
plain m = do r ← m; pure (returns r)

-- the user context goes on in the program that the active process now holds
unfoldable pub start_program : M (Unit {0})
start_program = do
  a ← gets λ k. k.active_pcb
  p ← load_pcb a
  u ← gets λ k. k.uctxt a
  elim u [
    | none ↦ undefined_behaviour
    | some c ↦ modify λ k. record k {
      uctxt = put k.uctxt a (some (record c { sp = p.user_context.sp; pc = p.user_context.pc }));
    }
  ]

-- a call of KernelExec that returns `ERROR` ends the process
unfoldable pub exec_call : File → List (List ℕ) → Ptr → Ptr → M Outcome
unfolding start_program
exec_call file args filename argvec = do
  c ← kernel_exec file args filename argvec
  if eq_int c error_code then kernel_exit error_code else do start_program; pure (returns c)

-- What the user's pointers lead to: the file of a path, the strings of an argument vector, and the
-- bytes of a buffer.
pub record UserMemory : Type 0 where
  pub file_at : Ptr → File
  pub args_at : Ptr → List (List ℕ)
  pub bytes_in : Ptr → List ℕ

-- `r0`, `r1`, `r2` are the registers.
unfoldable pub dispatch : UserMemory → Call → ℕ → ℕ → ℕ → M Outcome
unfolding to_int exec_call
dispatch user fork r0 r1 r2 = kernel_fork
dispatch user exec r0 r1 r2 = exec_call (user.file_at r0) (user.args_at r1) r0 r1
dispatch user exit r0 r1 r2 = kernel_exit (to_int r0)
dispatch user wait r0 r1 r2 = kernel_wait r0
dispatch user getpid r0 r1 r2 = plain kernel_get_pid
dispatch user brk r0 r1 r2 = plain (kernel_brk r0)
dispatch user delay r0 r1 r2 = kernel_delay (to_int r0)
dispatch user tty_read r0 r1 r2 = kernel_tty_read (to_int r0) r1 (to_int r2)
dispatch user tty_write r0 r1 r2 = kernel_tty_write (to_int r0) (to_int r2) (user.bytes_in r1)
dispatch user pipe_init r0 r1 r2 = plain (kernel_pipe_init r0)
dispatch user pipe_read r0 r1 r2 = kernel_pipe_read (to_int r0) r1 (to_int r2)
dispatch user pipe_write r0 r1 r2 = kernel_pipe_write (to_int r0) r1 (to_int r2) (user.bytes_in r1)
dispatch user lock_init r0 r1 r2 = plain (kernel_lock_init r0)
dispatch user lock_acquire r0 r1 r2 = kernel_acquire (to_int r0)
dispatch user lock_release r0 r1 r2 = plain (kernel_release (to_int r0))
dispatch user cvar_init r0 r1 r2 = plain (kernel_cvar_init r0)
dispatch user cvar_signal r0 r1 r2 = plain (kernel_cvar_signal (to_int r0))
dispatch user cvar_broadcast r0 r1 r2 = plain (kernel_cvar_broadcast (to_int r0))
dispatch user cvar_wait r0 r1 r2 = kernel_cvar_wait (to_int r0) (to_int r1)
dispatch user reclaim r0 r1 r2 = plain (kernel_reclaim (to_int r0))
dispatch user unknown r0 r1 r2 = pure (returns (to_int r0))

unfoldable pub trap_kernel_handler : UserMemory → ℕ → ℕ → ℕ → ℕ → M Outcome
unfolding dispatch
trap_kernel_handler user code = dispatch user (find_call code codes)
