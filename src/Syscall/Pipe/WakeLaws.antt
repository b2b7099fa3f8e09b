-- ===== src/Syscall/Pipe/WakeLaws.antt =====
-- What the assignments in the tests of the pipe calls do.
use yalnix_implementation.Base.{ℕ, suc, ◌≡◌, ◌≢◌, refl, some, List, [], ◌∷◌, ◌++◌, arith}
use yalnix_implementation.Hardware.{Ptr, null}
use yalnix_implementation.Kernel.{
  Kernel, Pcb, set_to, ready, blocked, pipe_wait, ok, Ends, ends, put, put_queue, load_pcb,
  update_pcb, queue_add, queue_pop, not_blocked,
}
use yalnix_implementation.Syscall.Pipe.Wake.{wake_reader}

-- what waking the reader `w` does to it and to the process `b`
pub record Lost (k k' : Kernel) (a : ℕ) (w b : Ptr) (ws bs : List Ptr) (cw cb : Pcb) : Type 0 where
  pub readied : k'.queues ready ≡ k.queues ready ++ w ∷ []
  pub still_blocked : k'.queues blocked ≡ bs
  pub waiting : k'.queues (pipe_wait a) ≡ ws
  pub renamed : k'.pcbs b ≡ some (record cb { pid = cw.pid })

abbrev lost_state : Kernel → ℕ → Ptr → Ptr → List Ptr → List Ptr → Pcb → Pcb → Kernel
lost_state k a w b ws bs cw cb = record k {
  queues =
      put_queue (put_queue (put_queue k.queues (pipe_wait a) ws) blocked bs) ready
        (k.queues ready ++ w ∷ []);
  pcbs =
      put (put k.pcbs w (some (record cw { blocked_code = not_blocked }))) b
        (some (record cb { pid = cw.pid }));
  memory = record k.memory { mallocs = suc k.memory.mallocs };
}

module _ (k : Kernel) (a : ℕ) (w b : Ptr) (ws bs : List Ptr) (cw cb : Pcb)
    (line : k.queues (pipe_wait a) ≡ w ∷ ws) (sleepers : k.queues blocked ≡ b ∷ bs)
    (w_live : w ≢ null) (b_live : b ≢ null) (other : w ≢ b) (w_holds : k.pcbs w ≡ some cw)
    (b_holds : k.pcbs b ≡ some cb) (user : cw.pid ≢ 0)
    (room : k.memory.malloc k.memory.mallocs ≢ null) where
  wake_reader-lost_state :
      wake_reader (set_to (some (pipe_wait a))) k ≡ ok tt (lost_state k a w b ws bs cw cb)
  unfolding wake_reader load_pcb update_pcb queue_add queue_pop
  wake_reader-lost_state = ground arith

  -- Where a pipe read that leaves bytes wakes a reader with a pid other than 0 that is not at the
  -- head of the blocked queue, both PCBs are there, and a queue node can be allocated, the process
  -- at that head leaves the queue with the reader's pid, and is not what goes to the ready queue:
  -- the reader does.
  pub wake_reader-Lost :
      Ends (λ _ k'. Lost k k' a w b ws bs cw cb) (wake_reader (set_to (some (pipe_wait a))) k)
  wake_reader-Lost = rw wake_reader-lost_state (
      ends (record {
        readied = refl;
        still_blocked = refl;
        waiting = ground arith;
        renamed = ground arith;
      }))
