-- ===== src/Syscall/Tty.antt =====
-- syscalls.c: KernelTtyRead and KernelTtyWrite. The four terminals' queues and buffers are there from
-- the start of the kernel on.
use yalnix_implementation.Base.{
  ℕ, zero, suc, ◌+◌, ◌-◌, ◌==◌, ltb, if◌then◌else◌, none, some, Bool, true, not, ◌||◌, List, [],
  ◌∷◌, ◌++◌, ℤ, pos, negsuc, length, take, drop, replicate, is_empty,
}
use yalnix_implementation.Hardware.{Ptr, num_terminals, terminal_max_line}
use yalnix_implementation.Kernel.{
  QueueId, ready, tty_read, tty_write, M, pure, ◌>>=◌, ◌>>◌, gets, modify, load_pcb, update_pcb,
  undefined_behaviour, put, not_blocked, blocked_tty_read, blocked_tty_write, blocked_tty_transmit,
  terminal_closed, queue_add, queue_pop, queue_peek, bytes_at, transmit, emit, Outcome, returns,
  goes, in_tty_read, in_tty_write, refuse, update_active, active_process,
}
use yalnix_implementation.Process.{swap_process}
use yalnix_implementation.Syscall.Pipe.{onward}

-- `ttyBuffer[0] == 0`
abbrev pub starts_empty : List ℕ → Bool
starts_empty [] = true
starts_empty (b ∷ bs) = b == 0

-- The loop that looks for a newline among the first `n` bytes: how many it passes, the newline
-- included.
unfoldable pub line_length : ℕ → List ℕ → ℕ
line_length zero bs = 0
line_length (suc n) [] = 0
line_length (suc n) (b ∷ bs) = if b == 10 then 1 else suc (line_length n bs)

-- the number of bytes that a read takes
abbrev pub line_amount : ℕ → ℕ → List ℕ → ℕ
line_amount len tracked bs = let n = line_length tracked bs in if ltb len n then len else n

-- `memset`, then `memcpy` of the bytes saved: the buffer of which `n` of the `tracked` bytes were read
unfoldable pub move_up : ℕ → ℕ → List ℕ → List ℕ
move_up n tracked bs =
    let saved = take (tracked - n) (drop n bs) in
    let cleared = replicate tracked 0 ++ drop tracked bs in saved ++ drop (length saved) cleared

-- A reader that waits goes to the ready queue, and stays at the head of the terminal's.
unfoldable pub wake_next : QueueId → M (Unit {0})
wake_next q = do
  n ← queue_peek q
  update_pcb n λ p. record p { blocked_code = not_blocked }
  _ ← queue_add (some ready) n
  pure tt

-- KernelTtyRead behind its waiting
unfoldable pub tty_take : ℕ → Ptr → ℕ → M Outcome
unfolding line_length move_up wake_next
tty_take tty buf len = do
  bs ← gets λ k. k.tty_read_buffers tty
  tracked ← gets λ k. k.tty_read_trackers tty
  let n = line_amount len tracked bs
  emit (bytes_at buf (take n bs))
  modify λ k. record k {
    tty_read_buffers = put k.tty_read_buffers tty (move_up n tracked bs);
    tty_read_trackers = put k.tty_read_trackers tty (tracked - n);
  }
  waiting ← gets λ k. k.queues (tty_read tty)
  if is_empty waiting || starts_empty (move_up n tracked bs)
      then pure tt
      else wake_next (tty_read tty)
  pure (returns (pos n))

unfoldable pub tty_wait : ℕ → Ptr → ℕ → M Outcome
tty_wait tty buf len = do
  update_active λ p. record p { blocked_code = blocked_tty_read; tty_terminal = tty }
  s ← swap_process (some (tty_read tty))
  pure (onward (in_tty_read tty buf len) s)

-- The arrays of the terminals are read before the id is checked.
unfoldable pub kernel_tty_read : ℤ → Ptr → ℤ → M Outcome
unfolding tty_take tty_wait
kernel_tty_read (negsuc n) buf len = undefined_behaviour
kernel_tty_read (pos tty) buf (negsuc n) =
    if ltb tty num_terminals then refuse else undefined_behaviour
kernel_tty_read (pos tty) buf (pos len) =
    if not (ltb tty num_terminals)
    then undefined_behaviour
    else if len == 0
    then pure (returns (pos 0))
    else do
      bs ← gets λ k. k.tty_read_buffers tty
      waiting ← gets λ k. k.queues (tty_read tty)
      if not (is_empty waiting) || starts_empty bs
          then tty_wait tty buf len
          else tty_take tty buf len

-- The end of KernelTtyWrite: the writer leaves the queue, and the next one is woken.
unfoldable pub tty_done : ℕ → ℕ → M Outcome
unfolding wake_next
tty_done tty written = do
  _ ← queue_pop (tty_write tty)
  waiting ← gets λ k. k.queues (tty_write tty)
  if is_empty waiting then pure tt else wake_next (tty_write tty)
  pure (returns (pos written))

abbrev pub chunk : List ℕ → ℕ
chunk bytes = if ltb terminal_max_line (length bytes) then terminal_max_line else length bytes

-- one line goes to the terminal, which is closed until its interrupt
unfoldable pub tty_send : ℕ → List ℕ → ℕ → M Outcome
tty_send tty bytes written = do
  modify λ k. record k { tty_write_trackers = put k.tty_write_trackers tty terminal_closed }
  emit (transmit tty (take (chunk bytes) bytes))
  pure (goes (in_tty_write tty (drop (chunk bytes) bytes) (written + chunk bytes)))

-- the heads of the two loops of KernelTtyWrite; `bytes` are those left
unfoldable pub tty_write_loop : ℕ → List ℕ → ℕ → M Outcome
unfolding tty_done tty_send
tty_write_loop tty bytes written = if is_empty bytes then tty_done tty written else do
  t ← gets λ k. k.tty_write_trackers tty
  if not (t == terminal_closed) then tty_send tty bytes written else do
    update_active λ p. record p { blocked_code = blocked_tty_transmit; tty_terminal = tty }
    s ← swap_process none
    pure (onward (in_tty_write tty bytes written) s)

unfoldable pub tty_enqueue : ℕ → List ℕ → M Outcome
unfolding tty_write_loop
tty_enqueue tty bytes = do
  a ← gets λ k. k.active_pcb
  _ ← queue_add (some (tty_write tty)) a
  h ← queue_peek (tty_write tty)
  first ← load_pcb h
  me ← active_process
  if first.pid == me.pid then tty_write_loop tty bytes 0 else do
    update_active λ p. record p { blocked_code = blocked_tty_write; tty_terminal = tty }
    s ← swap_process none
    pure (onward (in_tty_write tty bytes 0) s)

-- `bytes` are the `len` bytes at the caller's `buf`
unfoldable pub kernel_tty_write : ℤ → ℤ → List ℕ → M Outcome
unfolding tty_enqueue
kernel_tty_write (negsuc n) len bytes = undefined_behaviour
kernel_tty_write (pos tty) (negsuc n) bytes =
    if ltb tty num_terminals then refuse else undefined_behaviour
kernel_tty_write (pos tty) (pos len) bytes =
    if not (ltb tty num_terminals)
    then undefined_behaviour
    else if len == 0
    then pure (returns (pos 0))
    else tty_enqueue tty bytes
