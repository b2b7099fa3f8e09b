-- ===== src/Syscall/Pipe/Wake.antt =====
-- How a pipe call wakes processes. Where the C code means to compare it assigns: the tests
-- `curr_pcb->pid = process_to_wake->pid` and `blocked_code = BLOCKED_PIPE_WRITE` write the field and
-- test the value written.
use yalnix_implementation.Base.{
  ℕ, zero, suc, ◌==◌, ltb, if◌then◌else◌, none, some, Bool, true, false, [], ◌∷◌, length, pos,
}
use yalnix_implementation.Hardware.{Ptr}
use yalnix_implementation.Kernel.{
  PipeQueue, unset, set_to, QueueId, ready, blocked, M, pure, ◌>>=◌, ◌>>◌, gets, load_pcb,
  update_pcb, undefined_behaviour, not_blocked, queue_add, queue_pop,
}

-- The inner loops of KernelPipeRead: round `j` is made while `j` is below the size that the blocked
-- queue then has, `n` rounds at most. The process at the head of the blocked queue leaves it and
-- gets the pid `pid`; the loop goes on only if that is 0. With `keep` the process that left goes to
-- the ready queue.
unfoldable pub unblock_first : ℕ → ℕ → Bool → ℕ → M (Unit {0})
unblock_first zero j keep pid = pure tt
unblock_first (suc n) j keep pid = do
  size ← gets λ k. length (k.queues blocked)
  if ltb j size
      then (do
        p ← queue_pop blocked
        update_pcb p λ c. record c { pid = pid }
        _ ←
            (if pid == 0
              then queue_add (some blocked) p
              else if keep
              then queue_add (some ready) p
              else pure (pos 0))
        if pid == 0 then unblock_first n (suc j) keep pid else pure tt)
      else pure tt

-- the process at the head of the pipe's queue, marked as not blocked
unfoldable pub pop_waiting : QueueId → M Ptr
pop_waiting q = do
  w ← queue_pop q
  update_pcb w λ c. record c { blocked_code = not_blocked }
  pure w

-- bytes are left: the first process in line is woken
unfoldable pub wake_reader : PipeQueue → M (Unit {0})
unfolding unblock_first pop_waiting
wake_reader unset = undefined_behaviour
wake_reader (set_to none) = undefined_behaviour
wake_reader (set_to (some q)) = do
  waiting ← gets λ k. k.queues q
  elim waiting [
    | [] ↦ pure tt
    | _ ∷ _ ↦ do
      w ← pop_waiting q
      c ← load_pcb w
      n ← gets λ k. length (k.queues blocked)
      unblock_first n 0 false c.pid
      c' ← load_pcb w
      _ ← queue_add (some ready) w
      pure tt
  ]

-- No bytes are left. The test for a writer holds for each process, so one round is made.
unfoldable pub wake_writer : PipeQueue → M (Unit {0})
unfolding unblock_first pop_waiting
wake_writer unset = undefined_behaviour
wake_writer (set_to none) = undefined_behaviour
wake_writer (set_to (some q)) = do
  waiting ← gets λ k. k.queues q
  elim waiting [
    | [] ↦ pure tt
    | _ ∷ _ ↦ do
      w ← pop_waiting q
      c ← load_pcb w
      n ← gets λ k. length (k.queues blocked)
      unblock_first n 0 true c.pid
  ]

-- The inner loop of KernelPipeWrite: round `j` is made while `j` is below the size that the queue
-- then has, `n` rounds at most.
unfoldable pub unblock_all : ℕ → ℕ → ℕ → M (Unit {0})
unblock_all zero j pid = pure tt
unblock_all (suc n) j pid = do
  size ← gets λ k. length (k.queues blocked)
  if ltb j size
      then (do
        p ← queue_pop blocked
        update_pcb p λ c. record c { pid = pid }
        _ ← (if pid == 0 then queue_add (some blocked) p else queue_add (some ready) p)
        unblock_all n (suc j) pid)
      else pure tt

-- The outer loop, with the same kind of bound.
unfoldable pub wake_loop : ℕ → ℕ → QueueId → M (Unit {0})
unfolding unblock_all pop_waiting
wake_loop zero i q = pure tt
wake_loop (suc n) i q = do
  size ← gets λ k. length (k.queues q)
  if ltb i size
      then (do
        w ← pop_waiting q
        c ← load_pcb w
        m ← gets λ k. length (k.queues blocked)
        unblock_all m 0 c.pid
        wake_loop n (suc i) q)
      else pure tt

unfoldable pub wake_all : PipeQueue → M (Unit {0})
unfolding wake_loop
wake_all unset = undefined_behaviour
wake_all (set_to none) = undefined_behaviour
wake_all (set_to (some q)) = do n ← gets λ k. length (k.queues q); wake_loop n 0 q
