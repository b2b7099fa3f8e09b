-- ===== src/Syscall/Pipe/ByteQueue.antt =====
-- What a pipe promises: a queue of bytes with a bound, and the calls on it.
use yalnix_implementation.Base.{
  ℕ, ◌-◌, ltb, if◌then◌else◌, Option, none, some, List, ◌++◌, length, take, drop, is_empty,
}
use yalnix_implementation.Hardware.{pipe_buffer_len}

-- a call of KernelPipeWrite or KernelPipeRead
pub data Call : Type 0 where
  write : List ℕ → Call
  read : ℕ → Call

-- `refused` is ERROR; `wrote` and `got` show what the call returns and hands over
pub data Answer : Type 0 where
  refused : Answer
  wrote : ℕ → Answer
  got : List ℕ → Answer

-- a write stores what there is room for
abbrev pub stored : List ℕ → List ℕ → List ℕ
stored q bytes = take (pipe_buffer_len - length q) bytes

-- `none` is a call that waits
abbrev pub answer : List ℕ → Call → Option (Answer × List ℕ)
answer q (write bytes) =
    if ltb pipe_buffer_len (length bytes)
    then some (refused, q)
    else some (wrote (length (stored q bytes)), q ++ stored q bytes)
answer q (read n) =
    if ltb pipe_buffer_len n
    then some (refused, q)
    else if is_empty q
    then none
    else some (got (take n q), drop n q)
