-- ===== src/Syscall/Pipe/Quiet.antt =====
-- KernelPipeRead and KernelPipeWrite on a pipe that no process waits at.
use yalnix_implementation.Base.{
  ℕ, ◌==◌, ◌≡◌, ◌≢◌, refl, ap, ◌∙◌, ltb, true, false, some, List, [], ◌∷◌, ℤ, pos, is_pos, eq_int,
  length, take, arith,
}
use yalnix_implementation.Hardware.{Ptr, null, pipe_buffer_len}
use yalnix_implementation.Kernel.{
  Kernel, Pipe, set_to, QueueId, ok, error_code, pipe_free, Output, bytes_at, returns,
}
use yalnix_implementation.PipeList.{get_pipe}
use yalnix_implementation.Syscall.Pipe.{
  pipe_at, change_pipe, load_pipe, update_pipe, amount, after_read, pipe_take, pipe_read_loop,
  kernel_pipe_read, room, after_write, pipe_put, pipe_write_loop, kernel_pipe_write,
}
use yalnix_implementation.Syscall.Pipe.Wake.{wake_reader, wake_writer, wake_loop, wake_all}
use yalnix_implementation.Syscall.Pipe.Bytes.{contents, IsPipe}

-- The pipe has the id, no process uses it or waits at it, and its bytes are `c`.
pub record Quiet (k : Kernel) (id : ℤ) (p : Pipe) (c : List ℕ) : Type 0 where
  pub positive : is_pos id ≡ true
  pub found : get_pipe k.pipes id ≡ some p
  pub there : pipe_at k.pipes p.addr ≡ some p
  pub unused : p.being_used ≡ pipe_free
  pub waiters : QueueId
  pub queue : p.queue ≡ set_to (some waiters)
  pub nobody : k.queues waiters ≡ []
  pub well_formed : IsPipe p
  pub bytes : contents p ≡ c

-- a change of the pipe that leaves its id and address
pipe_at-change :
    (ps : List Pipe) (p q : Pipe) (a : Ptr) (f : Pipe → Pipe)
    → pipe_at ps a ≡ some p
    → f p ≡ q
    → q.addr ≡ a
    → pipe_at (change_pipe ps a f) a ≡ some q
pipe_at-change [] p q a f at e same = ground arith
pipe_at-change (x ∷ ps) p q a f at e same = ground (arith, pipe_at-change ps p q a f)

pub get_pipe-id :
    (ps : List Pipe) (id : ℤ) (p : Pipe) → get_pipe ps id ≡ some p → eq_int p.id id ≡ true
unfolding get_pipe
get_pipe-id [] id p found = ground arith
get_pipe-id (x ∷ ps) id p found = ground (arith, get_pipe-id ps id p)

pipe_at-addr : (ps : List Pipe) (p : Pipe) (a : Ptr) → pipe_at ps a ≡ some p → (p.addr == a) ≡ true
pipe_at-addr [] p a at = ground arith
pipe_at-addr (x ∷ ps) p a at = ground (arith, pipe_at-addr ps p a)

get_pipe-change :
    (ps : List Pipe) (p q : Pipe) (a : Ptr) (id : ℤ) (f : Pipe → Pipe)
    → get_pipe ps id ≡ some p
    → pipe_at ps a ≡ some p
    → f p ≡ q
    → eq_int q.id id ≡ true
    → get_pipe (change_pipe ps a f) id ≡ some q
unfolding get_pipe
get_pipe-change [] p q a id f found at e same = ground arith
get_pipe-change (x ∷ ps) p q a id f found at e same =
    ground (arith, get_pipe-id (x ∷ ps) id p, pipe_at-addr ps p a, get_pipe-change ps p q a id f)

-- the state behind a call
abbrev pub used : Kernel → Ptr → (Pipe → Pipe) → Kernel
used k a f = record k {
  pipes = change_pipe (change_pipe k.pipes a f) a λ q. record q { being_used = pipe_free };
}

module _ (k : Kernel) (id : ℤ) (p : Pipe) (buf : Ptr) (w : QueueId) (positive : is_pos id ≡ true)
    (found : get_pipe k.pipes id ≡ some p) (there : pipe_at k.pipes p.addr ≡ some p)
    (unused : p.being_used ≡ pipe_free) (queue : p.queue ≡ set_to (some w))
    (nobody : k.queues w ≡ []) (buffer : buf ≢ null) where
  pub kernel_pipe_write-quiet :
      (bytes : List ℕ)
      → ltb pipe_buffer_len (length bytes) ≡ false
      → kernel_pipe_write id buf (pos (length bytes)) bytes k
        ≡ ok (returns (pos (room bytes p))) (used k p.addr (after_write bytes))
  unfolding kernel_pipe_write pipe_write_loop pipe_put load_pipe update_pipe wake_all wake_loop
  kernel_pipe_write-quiet bytes short = ground arith

  pub kernel_pipe_write-long :
      (bytes : List ℕ)
      → ltb pipe_buffer_len (length bytes) ≡ true
      → kernel_pipe_write id buf (pos (length bytes)) bytes k ≡ ok (returns error_code) k
  unfolding kernel_pipe_write
  kernel_pipe_write-long bytes over = ground arith

  pub kernel_pipe_read-quiet :
      (n : ℕ)
      → ltb pipe_buffer_len n ≡ false
      → (p.plen == 0) ≡ false
      → kernel_pipe_read id buf (pos n) k
        ≡ ok (returns (pos (amount n p))) (record (used k p.addr (after_read n)) {
          outputs = bytes_at buf (take (amount n p) p.buf) ∷ k.outputs;
        })
  unfolding kernel_pipe_read pipe_read_loop pipe_take load_pipe update_pipe wake_reader wake_writer
  kernel_pipe_read-quiet n short some_left = ground arith

  pub kernel_pipe_read-long :
      (n : ℕ)
      → ltb pipe_buffer_len n ≡ true
      → kernel_pipe_read id buf (pos n) k ≡ ok (returns error_code) k
  unfolding kernel_pipe_read
  kernel_pipe_read-long n over = ground arith

-- the pipe is quiet again behind a call that changes its bytes alone
pub Quiet-used :
    (k : Kernel) (id : ℤ) (p : Pipe) (c c' : List ℕ) (f : Pipe → Pipe) (outs : List Output)
    → Quiet k id p c
    → (f p).addr ≡ p.addr
    → (f p).id ≡ p.id
    → (f p).queue ≡ p.queue
    → IsPipe (f p)
    → contents (f p) ≡ c'
    → Quiet
        (record (used k p.addr f) { outputs = outs })
        id
        (record (f p) { being_used = pipe_free })
        c'
Quiet-used k id p c c' f outs h same_addr same_id same_queue v bytes =
    let a = p.addr in
    let free : Pipe → Pipe = λ q. record q { being_used = pipe_free } in
    let named : eq_int (f p).id id ≡ true =
      ap (λ i. eq_int i id) same_id ∙ get_pipe-id k.pipes id p h.found in
    let at : pipe_at (change_pipe k.pipes a f) a ≡ some (f p) =
      pipe_at-change k.pipes p (f p) a f h.there refl same_addr in
    let found : get_pipe (change_pipe k.pipes a f) id ≡ some (f p) =
      get_pipe-change k.pipes p (f p) a id f h.found h.there refl named in
    record {
      positive = h.positive;
      found =
          get_pipe-change (change_pipe k.pipes a f) (f p) (free (f p)) a id free found at refl
            named;
      there =
          ap (pipe_at (change_pipe (change_pipe k.pipes a f) a free)) same_addr
          ∙ pipe_at-change (change_pipe k.pipes a f) (f p) (free (f p)) a free at refl same_addr;
      unused = refl;
      waiters = h.waiters;
      queue = same_queue ∙ h.queue;
      nobody = h.nobody;
      well_formed = record { buffer = v.buffer; fits = v.fits };
      bytes = bytes;
    }
