-- ===== src/Examples/Answers.antt =====
-- Waiting for a child, a stack that grows, and the lines of a terminal.
use yalnix_implementation.Base.{ℕ, ◌*◌, ◌≡◌, refl, arith, some, [], ◌∷◌, List, pos, replicate}
use yalnix_implementation.Hardware.{pte, page_of, down_to_page, region1_index}
use yalnix_implementation.Kernel.{
  Kernel, Pcb, put, put_queue, defunct, blocked, blocked_delay, Ends, returns,
}
use yalnix_implementation.Syscall.Basic.{kernel_wait}
use yalnix_implementation.Syscall.Basic.Reaping.{Reaped, kernel_wait-Reaped}
use yalnix_implementation.Trap.Faults.{trap_memory_handler}
use yalnix_implementation.Trap.Faults.Stack.{StackGrown, trap_memory_handler-StackGrown}
use yalnix_implementation.Syscall.Answering.{Service, calls, values, all_handed}
use yalnix_implementation.Trap.Terminal.Quiet.{
  Call, receive, read, Answer, received, nothing, got, terminal_service, Holding,
}
use yalnix_implementation.Trap.Terminal.Stream.{calls-Received}
use yalnix_implementation.Trap.Clock.{clock_rest}
use yalnix_implementation.Trap.Clock.Round.{Round, clock_rest-Round}
use yalnix_implementation.Examples.Data.{machine, process, context, pcb_at, queue_at}

-- a parent of the defunct processes 30 and 40, behind one that is not its child
abbrev parent : Pcb
parent = record (process 1 0) { num_children = pos 2 }

abbrev family : Kernel
family = record machine {
  pcbs = put pcb_at 20 (some parent);
  queues = put_queue queue_at defunct (10 ∷ 30 ∷ 40 ∷ []);
}

kernel_wait-Reaped_example :
    Ends
      (λ o k'.
        (o ≡ returns (pos 0)) × Reaped family 900 parent (process 2 1) (10 ∷ []) (40 ∷ []) k')
      (kernel_wait 900 family)
kernel_wait-Reaped_example =
    kernel_wait-Reaped family 900 30 parent (process 2 1) (10 ∷ []) (40 ∷ []) (ground arith)
      (ground arith) (ground arith) refl refl refl refl (λ i. ground arith) refl
      (process 0 0, ground arith, refl, refl, tt)

-- a fault in page 5 of region 1
abbrev faulting : Kernel
faulting = record machine { uctxt = λ _. some (record context { addr = 133 * 8192 }) }

trap_memory_handler-StackGrown_example :
    StackGrown faulting (process 1 0) 5 (trap_memory_handler faulting)
unfolding page_of down_to_page region1_index
trap_memory_handler-StackGrown_example =
    trap_memory_handler-StackGrown faulting 5 (process 1 0) (record context { addr = 133 * 8192 })
      (pte 0 0 0) (ground arith) refl refl refl refl refl (omega arith) (omega arith) (omega arith)
      (ground arith, (ground arith, (ground arith, tt)))

-- 30 waits for a tick that has come, and 40 for one that has not
abbrev due : Pcb
due = record (process 2 1) { blocked_code = blocked_delay }

abbrev early : Pcb
early = record (process 3 1) { blocked_code = blocked_delay; clock_ticks = pos 2 }

abbrev ticking : Kernel
ticking = record machine {
  pcbs = put (put pcb_at 30 (some due)) 40 (some early);
  queues = put_queue queue_at blocked (30 ∷ 40 ∷ []);
}

clock_rest-Round_example :
    Ends
      (λ o k'. (o ≡ returns (pos 0)) × Round ticking ((30, due) ∷ (40, early) ∷ []) [] (30 ∷ []) k')
      (clock_rest ticking)
clock_rest-Round_example =
    clock_rest-Round ticking ((30, due) ∷ (40, early) ∷ []) refl
      (ground arith, refl, refl, (ground arith, refl, refl, tt)) (λ i. ground arith)

-- a terminal with nothing to read, and what is typed and read
abbrev quiet : Kernel
quiet = record machine { tty_read_buffers = put machine.tty_read_buffers 2 (replicate 1024 0) }

quiet-Holding : Holding quiet 2 [] [] quiet
quiet-Holding = record {
  valid = record { buffer = refl; fits = omega arith };
  held = refl;
  clean = refl;
  nobody = refl;
  written = refl;
  rest_same = refl;
}

abbrev typed : List Call
typed = receive (104 ∷ 105 ∷ 10 ∷ 111 ∷ []) ∷ read 80 ∷ read 0 ∷ receive (107 ∷ []) ∷ read 1 ∷ []

abbrev shown : List Answer
shown = received ∷ got (104 ∷ 105 ∷ 10 ∷ []) ∷ nothing ∷ received ∷ got (111 ∷ []) ∷ []

abbrev served : Service Call Answer (List ℕ)
served = terminal_service 2 900

calls-Received_example :
    Ends
      (λ os k'.
        (os ≡ values served shown) × Holding quiet 2 (all_handed served shown []) (107 ∷ []) k')
      (calls served typed quiet)
calls-Received_example =
    calls-Received quiet 2 900 typed shown [] (107 ∷ []) refl quiet-Holding refl
