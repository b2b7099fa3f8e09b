-- ===== src/Trap/Clock.antt =====
-- kernel.c: CheckBlocked; traphandlers.c: TrapClockHandler.
pub mod Delay
pub mod Round
pub mod Waking
pub mod RoundRobin
use yalnix_implementation.Base.{
  ℕ, zero, suc, ◌==◌, if◌then◌else◌, Option, none, some, Bool, true, false, not, List, [], ◌∷◌, ℤ,
  pos, dec, is_pos, eq_int, length,
}
use yalnix_implementation.Hardware.{Ptr, null}
use yalnix_implementation.Kernel.{
  Kernel, Pcb, QueueId, ready, blocked, M, pure, ◌>>=◌, ◌>>◌, gets, modify, load_pcb, update_pcb,
  not_blocked, blocked_delay, blocked_tty_transmit, terminal_open, queue_add, queue_pop, Point,
  Outcome, returns, in_clock, refuse,
}
use yalnix_implementation.Process.{Swap, swap_process, swap_return}
use yalnix_implementation.Syscall.Pipe.{onward}

-- What CheckBlocked does to the process and which queue it names; `none` is `NULL`. `open_tty` says
-- whether the process's terminal is open.
unfoldable pub check_pcb : Bool → Pcb → Option QueueId × Pcb
check_pcb open_tty p =
    if eq_int p.blocked_code blocked_delay
    then (if is_pos p.clock_ticks
        then (some blocked, record p { clock_ticks = dec p.clock_ticks })
        else (some ready, record p { blocked_code = not_blocked }))
    else if eq_int p.blocked_code blocked_tty_transmit
    then (if open_tty
        then (some ready, record p { blocked_code = not_blocked; tty_terminal = 0 })
        else (none, p))
    else (some blocked, p)

unfoldable pub check_blocked : Ptr → M (Option QueueId)
unfolding check_pcb
check_blocked pcb = if pcb == null then pure none else do
  p ← load_pcb pcb
  open_tty ← gets λ k. k.tty_write_trackers p.tty_terminal == terminal_open
  update_pcb pcb λ q. (check_pcb open_tty q).1
  pure (check_pcb open_tty p).0

-- the loop over the blocked queue; what `queue_add` returns is not looked at
unfoldable pub clock_loop : ℕ → M (Unit {0})
unfolding check_blocked
clock_loop zero = pure tt
clock_loop (suc n) = do
  p ← queue_pop blocked
  if p == null then clock_loop n else do q ← check_blocked p; _ ← queue_add q p; clock_loop n

-- behind the switch
unfoldable pub clock_rest : M Outcome
unfolding clock_loop
clock_rest = do
  limit ← gets λ k. length (k.queues blocked)
  clock_loop limit
  pure (returns (pos 0))

unfoldable pub trap_clock_handler : M Outcome
trap_clock_handler = do
  modify λ k. record k { global_clock_ticks = suc k.global_clock_ticks }
  s ← swap_process (some ready)
  pure (onward in_clock s)

unfoldable pub trap_clock_return : M Outcome
unfolding clock_rest
trap_clock_return = do swap_return; clock_rest
