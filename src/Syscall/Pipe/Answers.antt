-- ===== src/Syscall/Pipe/Answers.antt =====
-- KernelPipeRead and KernelPipeWrite on a pipe that no process waits at: one call against a queue of bytes.
use mathlib.Core.Path.{subst}
use yalnix_implementation.Base.{
  ℕ, ◌-◌, ◌==◌, ◌≡◌, ◌≢◌, refl, sym, ap, ◌∙◌, ltb, false, Bool-cases, Option, List, [], ◌∷◌, ◌++◌,
  ℤ, pos, length, take, drop, is_empty, arith, inl, inr, take-append-ge, length-take,
}
use yalnix_implementation.Hardware.{Ptr, null, pipe_buffer_len}
use yalnix_implementation.Kernel.{
  Kernel, Pipe, Run, M, ends, error_code, Output, bytes_at, Outcome, returns, pipe_free,
}
use yalnix_implementation.Syscall.Answering.{Service, Promise}
use yalnix_implementation.Syscall.Pipe.ByteQueue.{
  Call, write, read, Answer, refused, wrote, got, stored, answer,
}
use yalnix_implementation.Syscall.Pipe.{
  amount, after_read, kernel_pipe_read, room, after_write, kernel_pipe_write,
}
use yalnix_implementation.Syscall.Pipe.Bytes.{
  contents, IsPipe, after_read-Reads, after_write-Writes, length-contents, length-stored, take-room,
}
use yalnix_implementation.Syscall.Pipe.Quiet.{
  Quiet, used, kernel_pipe_write-quiet, kernel_pipe_write-long, kernel_pipe_read-quiet,
  kernel_pipe_read-long, Quiet-used,
}

-- a call by the running process, with a buffer at `buf`
abbrev pub call : ℤ → Ptr → Call → M Outcome
call id buf (write bytes) = kernel_pipe_write id buf (pos (length bytes)) bytes
call id buf (read n) = kernel_pipe_read id buf (pos n)

-- what the caller sees of an answer: the value, and the bytes written to its buffer
abbrev pub value : Answer → Outcome
value refused = returns error_code
value (wrote n) = returns (pos n)
value (got bytes) = returns (pos (length bytes))

abbrev pub handed : Ptr → Answer → List Output → List Output
handed buf (got bytes) outs = bytes_at buf bytes ∷ outs
handed buf refused outs = outs
handed buf (wrote n) outs = outs

-- a pipe as a queue of bytes
abbrev pub pipe_service : ℤ → Ptr → Service Call Answer (List ℕ)
pipe_service id buf = record {
  answer = answer;
  call = call id buf;
  value = value;
  handed = handed buf;
}

-- The pipe holds the bytes `c`, and is quiet; nothing has changed but the pipes and the outputs.
pub record Holding (k0 : Kernel) (id : ℤ) (outs : List Output) (c : List ℕ) (k : Kernel)
    : Type 0 where
  pub pipe : Pipe
  pub quiet : Quiet k id pipe c
  pub written : k.outputs ≡ outs
  pub rest_same : k ≡ record k0 { pipes = k.pipes; outputs = k.outputs }

-- a call that the queue of bytes answers
abbrev pub Promised :
    Kernel → ℤ → Ptr → List Output → Option (Answer × List ℕ) → Run Outcome → Type 0
Promised k0 id buf = Promise (pipe_service id buf) (Holding k0 id)

module _ (k0 k : Kernel) (id : ℤ) (buf : Ptr) (outs : List Output) (c : List ℕ)
    (h : Holding k0 id outs c k) (buffer : buf ≢ null) where
  abbrev p : Pipe
  p = h.pipe

  size : length c ≡ p.plen
  size = ap length (sym h.quiet.bytes) ∙ length-contents p h.quiet.well_formed

  put_back : (bytes : List ℕ) → room bytes p ≡ length (stored c bytes)
  put_back bytes =
      sym (length-stored bytes p)
      ∙ ap length (take-room bytes p)
      ∙ ap (λ m. length (take (pipe_buffer_len - m) bytes)) (sym size)

  then-Holding :
      (f : Pipe → Pipe) (outs' : List Output) (c' : List ℕ)
      → (f p).addr ≡ p.addr
      → (f p).id ≡ p.id
      → (f p).queue ≡ p.queue
      → IsPipe (f p)
      → contents (f p) ≡ c'
      → Holding k0 id outs' c' (record (used k p.addr f) { outputs = outs' })
  then-Holding f outs' c' same_addr same_id same_queue v bytes = record {
    pipe = record (f p) { being_used = pipe_free };
    quiet = Quiet-used k id p c c' f outs' h.quiet same_addr same_id same_queue v bytes;
    written = refl;
    rest_same =
        ap (λ (j : Kernel). record j { pipes = (used k p.addr f).pipes; outputs = outs' })
          h.rest_same;
  }

  held_behind : (bytes : List ℕ) → contents (after_write bytes p) ≡ c ++ stored c bytes
  held_behind bytes =
      let q = h.quiet in
      (after_write-Writes bytes p q.well_formed).held
      ∙ ap (λ l. take pipe_buffer_len (l ++ bytes)) q.bytes
      ∙ take-append-ge pipe_buffer_len c bytes (omega (arith, size, q.well_formed.fits))

  write-Answers :
      (bytes : List ℕ)
      → Promised k0 id buf outs (answer c (write bytes)) (call id buf (write bytes) k)
  write-Answers bytes =
      let q = h.quiet in
      elim (Bool-cases (ltb pipe_buffer_len (length bytes))) [
        | inl over ↦ rw over (
            rw
              (kernel_pipe_write-long k id p buf q.waiters q.positive q.found q.there q.unused
                q.queue q.nobody buffer bytes over)
              (ends (refl, h)))
        | inr short ↦ rw short (
            rw
              (kernel_pipe_write-quiet k id p buf q.waiters q.positive q.found q.there q.unused
                q.queue q.nobody buffer bytes short)
              (ends (
                ap (λ n. returns (pos n)) (put_back bytes),
                subst
                    (λ o.
                      Holding k0 id outs (c ++ stored c bytes)
                        (record (used k p.addr (after_write bytes)) { outputs = o }))
                    (sym h.written)
                    (then-Holding (after_write bytes) outs (c ++ stored c bytes) refl refl refl
                      (after_write-Writes bytes p q.well_formed).valid (held_behind bytes)),
              )))
      ]

  some_bytes : is_empty c ≡ false → (p.plen == 0) ≡ false
  some_bytes some_left = nonempty c p.plen size some_left
    where
      nonempty : (l : List ℕ) (m : ℕ) → length l ≡ m → is_empty l ≡ false → (m == 0) ≡ false
      nonempty [] m e f = ground arith
      nonempty (x ∷ xs) m e f = ground arith

  amount_taken : (n : ℕ) → amount n p ≡ length (take n c)
  amount_taken n = ground (arith, length-take n c, size)

  left_behind :
      (n : ℕ)
      → Holding k0 id
          (bytes_at buf (take n c) ∷ outs)
          (drop n c)
          (record (used k p.addr (after_read n)) {
            outputs = bytes_at buf (take (amount n p) p.buf) ∷ k.outputs;
          })
  left_behind n =
      let q = h.quiet in
      let r = after_read-Reads n p q.well_formed in
      let bytes : take (amount n p) p.buf ≡ take n c = r.taken ∙ ap (take n) q.bytes in
      subst
        (λ o.
          Holding k0 id (bytes_at buf (take n c) ∷ outs) (drop n c)
            (record (used k p.addr (after_read n)) { outputs = o }))
        (sym (
          ap (λ b. bytes_at buf b ∷ k.outputs) bytes
          ∙ ap (λ o. bytes_at buf (take n c) ∷ o) h.written))
        (then-Holding (after_read n) (bytes_at buf (take n c) ∷ outs) (drop n c) refl refl refl
          r.valid (r.left ∙ ap (drop n) q.bytes))

  read-Answers : (n : ℕ) → Promised k0 id buf outs (answer c (read n)) (call id buf (read n) k)
  read-Answers n =
      let q = h.quiet in
      elim (Bool-cases (ltb pipe_buffer_len n)) [
        | inl over ↦ rw over (
            rw
              (kernel_pipe_read-long k id p buf q.waiters q.positive q.found q.there q.unused
                q.queue q.nobody buffer n over)
              (ends (refl, h)))
        | inr short ↦ elim (Bool-cases (is_empty c)) [
          | inl waits ↦ rw short (rw waits tt)
          | inr some_left ↦ rw short (
              rw some_left (
                rw
                  (kernel_pipe_read-quiet k id p buf q.waiters q.positive q.found q.there q.unused
                    q.queue q.nobody buffer n short (some_bytes some_left))
                  (ends (ap (λ m. returns (pos m)) (amount_taken n), left_behind n))))
        ]
      ]

pub call-Answers :
    (k0 k : Kernel) (id : ℤ) (buf : Ptr) (outs : List Output) (c : List ℕ) (cl : Call)
    → Holding k0 id outs c k
    → buf ≢ null
    → Promised k0 id buf outs (answer c cl) (call id buf cl k)
call-Answers k0 k id buf outs c (write bytes) h buffer =
    write-Answers k0 k id buf outs c h buffer bytes
call-Answers k0 k id buf outs c (read n) h buffer = read-Answers k0 k id buf outs c h buffer n
