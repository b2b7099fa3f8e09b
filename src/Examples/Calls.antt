-- ===== src/Examples/Calls.antt =====
-- Switches, system calls and the clock.
use yalnix_implementation.Base.{◌∷◌, ◌≡◌, refl, arith, some, true, [], pos}
use yalnix_implementation.Kernel.{
  Kernel, put, int_at, Pcb, ok, fault, ◌>>=◌, Ends, returns, error_code, ready, blocked,
  not_blocked, blocked_delay, pipe_wait, set_to,
}
use yalnix_implementation.Process.{swapped, swap_process}
use yalnix_implementation.Process.Switched.{bound_for, Switching, Switched, swap_process-Switched}
use yalnix_implementation.Syscall.Lock.{
  read_lock_status, write_lock_status, write_user_int, kernel_lock_init, kernel_acquire,
}
use yalnix_implementation.Syscall.Lock.Unusable.{NoLockHeld}
use yalnix_implementation.Syscall.Cvar.{
  kernel_cvar_init, kernel_cvar_signal, kernel_cvar_broadcast, kernel_cvar_wait,
}
use yalnix_implementation.Syscall.Cvar.Unusable.{cvar-refused}
use yalnix_implementation.Syscall.Pipe.Wake.{wake_reader, unblock_first, unblock_all, wake_loop}
use yalnix_implementation.Syscall.Pipe.WakeFuel.{wake_rounds-enough}
use yalnix_implementation.Syscall.Pipe.WakeLaws.{Lost, wake_reader-Lost}
use yalnix_implementation.Trap.Clock.{check_pcb}
use yalnix_implementation.Trap.Clock.Delay.{looks, delay_lasts}
use yalnix_implementation.Boot.{set_up_globals}
use yalnix_implementation.Boot.Globals.{first_cvar_init-fault}
use yalnix_implementation.Syscall.Lock.Steps.{start, inits, acquires, Steps-NoLockHeld}
use yalnix_implementation.Examples.Data.{machine, paged, process, context}

-- the running process goes to the blocked queue, and 30 runs
paged-Switching : Switching paged (process 1 0) (process 2 1) (process 0 0) context
paged-Switching = record {
  live = ground arith;
  holds = refl;
  idle_live = ground arith;
  idle_holds = refl;
  next_live = ground arith;
  other = ground arith;
  next_holds = refl;
  context = refl;
  not_staying = λ same. ground arith;
  room = ground arith;
  table = omega arith;
}

swap_process-Switched_example :
    Ends
      (λ r k'.
        (r ≡ swapped)
        × Switched paged
            (bound_for (process 1 0) (process 0 0) (some blocked))
            (process 1 0)
            (process 2 1)
            context
            k')
      (swap_process (some blocked) paged)
swap_process-Switched_example =
    swap_process-Switched paged (some blocked) (process 1 0) (process 2 1) (process 0 0) context
      paged-Switching

-- the lock 1 is made, and an attempt to acquire it is refused
abbrev one_lock : Kernel
one_lock = record machine {
  lock_list = [];
  lock_status = put machine.lock_status 1 0;
  outputs = int_at 900 (pos 1) ∷ [];
}

Steps-NoLockHeld_example : NoLockHeld one_lock
unfolding kernel_lock_init kernel_acquire read_lock_status write_lock_status write_user_int
Steps-NoLockHeld_example =
    Steps-NoLockHeld machine one_lock (λ i. refl)
      (acquires (inits start 900 (pos 0) refl) (pos 1) (returns error_code) refl)

cvar-refused_example :
    (kernel_cvar_signal (pos 150) machine ≡ ok error_code machine)
    × (kernel_cvar_broadcast (pos 150) machine ≡ ok error_code machine)
    × (kernel_cvar_wait (pos 150) (pos 3) machine ≡ ok (returns error_code) machine)
cvar-refused_example = cvar-refused machine 150 (pos 3) (omega arith) (omega arith) (λ i. refl)

-- the running process reads a pipe on which 30 waits, with 40 at the head of the blocked queue
wake_reader-Lost_example :
    Ends
      (λ _ k'. Lost machine k' 500 30 40 [] [] (process 2 1) (process 3 1))
      (wake_reader (set_to (some (pipe_wait 500))) machine)
wake_reader-Lost_example =
    wake_reader-Lost machine 500 30 40 [] [] (process 2 1) (process 3 1) refl refl (ground arith)
      (ground arith) (ground arith) refl refl (ground arith) (ground arith)

abbrev sleeper : Pcb
sleeper = record (process 2 1) { blocked_code = blocked_delay; clock_ticks = pos 3 }

delay_lasts_example :
    ((check_pcb true (looks 1 (λ _. true) sleeper)).0 ≡ some blocked)
    × ((check_pcb true (looks 3 (λ _. true) sleeper)).0 ≡ some ready)
    × ((looks 4 (λ _. true) sleeper).blocked_code ≡ not_blocked)
delay_lasts_example = delay_lasts 3 1 (λ _. true) sleeper refl refl (omega arith)

first_cvar_init-fault_example : (set_up_globals 256 >>= λ _. kernel_cvar_init 900) machine ≡ fault
first_cvar_init-fault_example = first_cvar_init-fault 256 machine 900 (ground arith)

wake_rounds-enough_example :
    (unblock_first 10 0 true 2 machine ≡ unblock_first 1 0 true 2 machine)
    × (unblock_all 10 0 2 machine ≡ unblock_all 1 0 2 machine)
    × (wake_loop 10 0 (pipe_wait 500) machine ≡ wake_loop 1 0 (pipe_wait 500) machine)
wake_rounds-enough_example =
    wake_rounds-enough machine (pipe_wait 500) 10 2 true refl refl (omega arith) (omega arith)
