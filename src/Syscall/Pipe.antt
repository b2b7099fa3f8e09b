-- ===== src/Syscall/Pipe.antt =====
-- syscalls.c: KernelPipeRead and KernelPipeWrite.
pub mod Buffer
pub mod Bytes
pub mod Wake
pub mod WakeLaws
pub mod WakeFuel
pub mod ByteQueue
pub mod Quiet
pub mod Answers
pub mod Stream
use yalnix_implementation.Base.{
  ℕ, zero, suc, ◌+◌, ◌-◌, ◌==◌, ltb, leb, if◌then◌else◌, Option, none, some, Bool, true, false, not,
  ◌||◌, List, [], ◌∷◌, ℤ, pos, negsuc, is_neg, is_pos, length, take,
}
use yalnix_implementation.Hardware.{Ptr, null, pipe_buffer_len}
use yalnix_implementation.Kernel.{
  Kernel, Pipe, PipeQueue, unset, set_to, QueueId, blocked, M, pure, ◌>>=◌, ◌>>◌, gets, modify,
  undefined_behaviour, blocked_pipe_read, blocked_pipe_write, pipe_free, pipe_not_free, queue_add,
  bytes_at, emit, Point, Outcome, returns, sleeps, goes, in_pipe_read, in_pipe_write, refuse,
  update_active,
}
use yalnix_implementation.Process.{Swap, swapped, stayed, failed, swap_process, swap_return}
use yalnix_implementation.PipeList.{get_pipe}
use Buffer.{remove_front, append_bytes}
use Wake.{wake_reader, wake_writer, wake_all}

-- `curr_pipe`, a pointer to a pipe that may have been freed
abbrev pub pipe_at : List Pipe → Ptr → Option Pipe
pipe_at [] a = none
pipe_at (p ∷ ps) a = if p.addr == a then some p else pipe_at ps a

abbrev pub change_pipe : List Pipe → Ptr → (Pipe → Pipe) → List Pipe
change_pipe [] a f = []
change_pipe (p ∷ ps) a f = if p.addr == a then f p ∷ ps else p ∷ change_pipe ps a f

unfoldable pub load_pipe : Ptr → M Pipe
load_pipe a = do
  ps ← gets λ k. k.pipes
  elim (pipe_at ps a) [ none ↦ undefined_behaviour | some p ↦ pure p ]

unfoldable pub update_pipe : Ptr → (Pipe → Pipe) → M (Unit {0})
update_pipe a f = modify λ k. record k { pipes = change_pipe k.pipes a f }

-- the caller goes to the pipe's queue and to the blocked queue, and another process runs
unfoldable pub pipe_block : Ptr → ℤ → M Swap
pipe_block a code = do
  update_active λ p. record p { blocked_code = code }
  pipe ← load_pipe a
  me ← gets λ k. k.active_pcb
  elim pipe.queue [
    | unset ↦ undefined_behaviour
    | set_to q ↦ do _ ← queue_add q me; swap_process (some blocked)
  ]

-- control goes on at the point, in this process or when it runs again
abbrev pub onward : Point → Swap → Outcome
onward p swapped = sleeps p
onward p stayed = goes p
onward p failed = goes p

-- the amount that a read takes, and the pipe behind it
abbrev pub amount : ℕ → Pipe → ℕ
amount len p = if ltb len p.plen then len else p.plen

abbrev pub after_read : ℕ → Pipe → Pipe
after_read len p = record p {
  being_used = pipe_not_free;
  buf = remove_front len p.plen p.buf;
  plen = p.plen - amount len p;
}

-- KernelPipeRead behind its waiting
unfoldable pub pipe_take : Ptr → Ptr → ℕ → M Outcome
pipe_take a buf len = do
  p ← load_pipe a
  emit (bytes_at buf (take (amount len p) p.buf))
  update_pipe a (after_read len)
  if ltb 0 (p.plen - amount len p) then wake_reader p.queue else wake_writer p.queue
  update_pipe a λ q. record q { being_used = pipe_free }
  pure (returns (pos (amount len p)))

-- the `while` of KernelPipeRead, and what follows it
unfoldable pub pipe_read_loop : Ptr → Ptr → ℕ → M Outcome
unfolding pipe_take
pipe_read_loop a buf len = do
  p ← load_pipe a
  if not (p.plen == 0)
      then pipe_take a buf len
      else do s ← pipe_block a blocked_pipe_read; pure (onward (in_pipe_read a buf len) s)

unfoldable pub kernel_pipe_read : ℤ → Ptr → ℤ → M Outcome
unfolding pipe_read_loop
kernel_pipe_read pipe_id buf (negsuc n) = refuse
kernel_pipe_read pipe_id buf (pos len) =
    if (buf == null) || ltb pipe_buffer_len len then refuse else do
      ps ← gets λ k. k.pipes
      elim (get_pipe ps pipe_id) [
        | none ↦ refuse
        | some p ↦
            if p.being_used == pipe_not_free
            then (do
              s ← pipe_block p.addr blocked_pipe_read
              pure (onward (in_pipe_read p.addr buf len) s))
            else pipe_read_loop p.addr buf len
      ]

-- the amount that a write stores
abbrev pub room : List ℕ → Pipe → ℕ
room bytes p =
    if leb (length bytes) (pipe_buffer_len - p.plen) then length bytes else pipe_buffer_len - p.plen

abbrev pub after_write : List ℕ → Pipe → Pipe
after_write bytes p = record p {
  being_used = pipe_not_free;
  buf = append_bytes p.plen (take (room bytes p) bytes) p.buf;
  plen = p.plen + room bytes p;
}

-- KernelPipeWrite behind its waiting; `bytes` are the `len` bytes at the caller's `buf`
unfoldable pub pipe_put : Ptr → List ℕ → M Outcome
pipe_put a bytes = do
  p ← load_pipe a
  update_pipe a (after_write bytes)
  wake_all p.queue
  update_pipe a λ q. record q { being_used = pipe_free }
  pure (returns (pos (room bytes p)))

-- the `while` of KernelPipeWrite, and what follows it
unfoldable pub pipe_write_loop : Ptr → List ℕ → M Outcome
unfolding pipe_put
pipe_write_loop a bytes = do
  p ← load_pipe a
  if not (p.being_used == pipe_not_free)
      then pipe_put a bytes
      else do s ← pipe_block a blocked_pipe_write; pure (onward (in_pipe_write a bytes) s)

-- `len > PIPE_BUFFER_LEN`
abbrev pub bad_length : ℤ → Bool
bad_length (pos n) = ltb pipe_buffer_len n
bad_length (negsuc n) = false

-- The call goes on with a pipe that was not found: undefined behaviour.
unfoldable pub kernel_pipe_write : ℤ → Ptr → ℤ → List ℕ → M Outcome
unfolding pipe_write_loop
kernel_pipe_write pipe_id buf len bytes =
    if not (is_pos pipe_id) || is_neg len || bad_length len || (buf == null) then refuse else do
      ps ← gets λ k. k.pipes
      elim (get_pipe ps pipe_id) [
        | none ↦ undefined_behaviour
        | some p ↦ pipe_write_loop p.addr bytes
      ]
