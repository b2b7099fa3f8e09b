-- ===== src/Trap/Terminal.antt =====
-- traphandlers.c: TrapTTYReceiveHandler and TrapTTYTransmitHandler.
pub mod Lines
pub mod Quiet
pub mod Stream
use yalnix_implementation.Base.{
  ℕ, ◌+◌, ◌-◌, ◌==◌, ltb, if◌then◌else◌, some, not, List, [], ◌∷◌, ◌++◌, length, take, drop,
  is_empty,
}
use yalnix_implementation.Hardware.{Ptr, num_terminals, terminal_max_line}
use yalnix_implementation.Kernel.{
  ready, tty_read, tty_write, M, pure, ◌>>=◌, ◌>>◌, gets, modify, load_pcb, update_pcb,
  undefined_behaviour, put, not_blocked, terminal_open, queue_add, queue_pop, active_process,
}
use yalnix_implementation.Trap.Clock.{check_blocked}

-- how many of `n` bytes there is room for
abbrev pub to_copy : ℕ → ℕ → ℕ
to_copy tracked n = if ltb (terminal_max_line - tracked) n then terminal_max_line - tracked else n

-- `memcpy(ttyBuffer + tracked, bytes, n)`
unfoldable pub fill : ℕ → List ℕ → List ℕ → List ℕ
fill tracked bytes bs = take tracked bs ++ (bytes ++ drop (tracked + length bytes) bs)

-- the first reader in line goes on
unfoldable pub wake_reading : ℕ → M (Unit {0})
wake_reading tty = do
  n ← queue_pop (tty_read tty)
  update_pcb n λ p. record p { blocked_code = not_blocked }
  _ ← queue_add (some ready) n
  pure tt

-- `bytes` is the line that `TtyReceive` hands over, `TERMINAL_MAX_LINE` bytes at most; `tty` is the
-- context's code.
unfoldable pub trap_tty_receive_handler : ℕ → List ℕ → M (Unit {0})
unfolding fill wake_reading
trap_tty_receive_handler tty bytes = if not (ltb tty num_terminals) then undefined_behaviour else do
  bs ← gets λ k. k.tty_read_buffers tty
  tracked ← gets λ k. k.tty_read_trackers tty
  let n = to_copy tracked (length bytes)
  modify λ k. record k {
    tty_read_buffers = put k.tty_read_buffers tty (fill tracked (take n bytes) bs);
    tty_read_trackers = put k.tty_read_trackers tty (tracked + n);
  }
  waiting ← gets λ k. k.queues (tty_read tty)
  if is_empty waiting then pure tt else wake_reading tty

-- the writer at the head of the terminal's queue is looked at, and stays there
unfoldable pub wake_writing : Ptr → M (Unit {0})
wake_writing w = do
  p ← load_pcb w
  me ← active_process
  if me.pid == p.pid then pure tt else do q ← check_blocked w; _ ← queue_add q w; pure tt

unfoldable pub trap_tty_transmit_handler : ℕ → M (Unit {0})
unfolding wake_writing
trap_tty_transmit_handler tty = if not (ltb tty num_terminals) then undefined_behaviour else do
  modify λ k. record k { tty_write_trackers = put k.tty_write_trackers tty terminal_open }
  waiting ← gets λ k. k.queues (tty_write tty)
  elim waiting [ [] ↦ pure tt | w ∷ _ ↦ wake_writing w ]
