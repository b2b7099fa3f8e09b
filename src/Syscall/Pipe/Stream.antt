-- ===== src/Syscall/Pipe/Stream.antt =====
-- KernelPipeRead and KernelPipeWrite on a pipe that no process waits at, against a queue of bytes.
use mathlib.Core.Path.{subst}
use yalnix_implementation.Base.{ℕ, ◌≡◌, ◌≢◌, refl, some, List, ℤ}
use yalnix_implementation.Hardware.{Ptr, null}
use yalnix_implementation.Kernel.{Kernel, Pipe, Ends}
use yalnix_implementation.Syscall.Answering.{
  answers, calls, values, all_handed, Promises, calls-answers,
}
use yalnix_implementation.Syscall.Pipe.ByteQueue.{Call, Answer}
use yalnix_implementation.Syscall.Pipe.Quiet.{Quiet}
use yalnix_implementation.Syscall.Pipe.Answers.{pipe_service, Holding, call-Answers}

-- On a pipe with a well-formed buffer that no process uses or waits at, whatever calls of
-- KernelPipeWrite and KernelPipeRead follow one another, with a buffer that is not NULL, where
-- none of them reads from an empty pipe, they answer as a queue of at most 256 bytes does: a write
-- stores the bytes that there is room for behind the others and returns their number, a read hands
-- over the oldest bytes, as many as asked for or as there are, a length above 256 is refused, and
-- at the end the pipe holds the bytes that the queue does, and nothing but the pipes and what was
-- handed over has changed.
pub calls-Answered :
    (k : Kernel) (id : ℤ) (buf : Ptr) (p : Pipe) (c c' : List ℕ) (cs : List Call)
    (as' : List Answer)
    → Quiet k id p c
    → buf ≢ null
    → answers (pipe_service id buf) c cs ≡ some (as', c')
    → Ends
        (λ os k'.
          (os ≡ values (pipe_service id buf) as')
          × Holding k id (all_handed (pipe_service id buf) as' k.outputs) c' k')
        (calls (pipe_service id buf) cs k)
calls-Answered k id buf p c c' cs as' quiet buffer all =
    let s = pipe_service id buf in
    subst (λ o. Promises s (Holding k id) k.outputs o (calls s cs k)) all
      (calls-answers s (Holding k id) (λ outs q j cl h. call-Answers k j id buf outs q cl h buffer)
        cs k.outputs c k (record { pipe = p; quiet = quiet; written = refl; rest_same = refl }))
