-- ===== src/Examples/Departures.antt =====
-- Exits as a whole, ticks of the clock, calls on a pipe, and a fork without enough frames.
use yalnix_implementation.Base.{ℕ, ◌≡◌, refl, arith, some, [], ◌∷◌, List, pos, replicate}
use yalnix_implementation.Kernel.{
  Kernel, Pcb, Pipe, ready, blocked, defunct, pipe_wait, put, put_queue, fault, Ends, blocked_wait,
  sleeps, in_exit, returns,
}
use yalnix_implementation.Syscall.Exit.{exit_scan, kernel_exit}
use yalnix_implementation.Syscall.Exit.Scanning.{Exiting, Scans}
use yalnix_implementation.Syscall.Exit.Scan.{exit_scan-Scans}
use yalnix_implementation.Syscall.Exit.Departure.{coded}
use yalnix_implementation.Syscall.Exit.Leaving.{Leaving, Departed, kernel_exit-fault_unkept}
use yalnix_implementation.Syscall.Exit.Departed.{kernel_exit-Departed}
use yalnix_implementation.Syscall.Exit.Waited.{Parting, Told, exit_then_wait, exit_then_wait-Told}
use yalnix_implementation.Process.Runnable.{Fair}
use yalnix_implementation.Trap.Clock.RoundRobin.{ticks, ticks-Runs}
use yalnix_implementation.PipeList.{get_pipe}
use yalnix_implementation.Syscall.Pipe.ByteQueue.{Call, write, read, Answer, wrote, got, refused}
use yalnix_implementation.Syscall.Pipe.Quiet.{Quiet}
use yalnix_implementation.Syscall.Answering.{Service, calls, values, all_handed}
use yalnix_implementation.Syscall.Pipe.Answers.{pipe_service, Holding}
use yalnix_implementation.Syscall.Pipe.Stream.{calls-Answered}
use yalnix_implementation.Examples.Data.{machine, process, context, pipe, pcb_at}

-- 30 leaves; its parent 20 waits for it behind 40, and 50 is a defunct child
abbrev dead : Pcb
dead = process 4 2

abbrev waiting : Pcb
waiting = record (process 1 0) { blocked_code = blocked_wait }

abbrev awaited : Kernel
awaited = record machine {
  active_pcb = 30;
  pcbs = put (put pcb_at 20 (some waiting)) 50 (some dead);
  queues =
      put_queue (put_queue (put_queue machine.queues ready []) blocked (40 ∷ 20 ∷ [])) defunct
        (50 ∷ []);
}

awaited-Exiting : Exiting awaited (process 2 1)
awaited-Exiting = record {
  live = ground arith;
  holds = refl;
  ready_there = tt;
  blocked_there = (
    ground arith,
    ground arith,
    (process 3 1, refl),
    (ground arith, ground arith, (waiting, refl), tt),
  );
  defunct_there = (ground arith, ground arith, (dead, refl), tt);
  apart = ((ground arith, (ground arith, tt)), ((ground arith, tt), (tt, tt)));
  room = λ c. ground arith;
}

exit_scan-Scans_example : Ends (Scans (process 2 1) awaited) (exit_scan awaited)
exit_scan-Scans_example = exit_scan-Scans awaited (process 2 1) awaited-Exiting

kernel_exit-fault_unkept_example : kernel_exit (pos 5) awaited ≡ fault
kernel_exit-fault_unkept_example =
    kernel_exit-fault_unkept awaited (process 2 1) (pos 5) context awaited-Exiting refl refl refl

-- the same, where the parent is ready
abbrev parted : Kernel
parted = record awaited {
  pcbs = put pcb_at 50 (some dead);
  queues = put_queue (put_queue awaited.queues ready (20 ∷ [])) blocked (40 ∷ []);
}

parted-Leaving : Leaving parted (process 2 1) (process 1 0) 20 [] context
parted-Leaving = record {
  exiting = record {
    live = ground arith;
    holds = refl;
    ready_there = (ground arith, ground arith, (process 1 0, refl), tt);
    blocked_there = (ground arith, ground arith, (process 3 1, refl), tt);
    defunct_there = (ground arith, ground arith, (dead, refl), tt);
    apart = ((ground arith, (ground arith, tt)), ((ground arith, tt), (tt, tt)));
    room = λ c. ground arith;
  };
  context = refl;
  child = ground arith;
  parent = refl;
  front = refl;
  next_at = refl;
  idle = process 0 0;
  idle_at = refl;
  idle_live = ground arith;
  idle_other = ground arith;
  idle_ready = (ground arith, tt);
  idle_blocked = (ground arith, tt);
}

kernel_exit-Departed_example :
    Ends
      (λ o k'.
        (o ≡ sleeps in_exit)
        × Departed parted (coded (pos 5) (process 2 1)) (process 1 0) 20 [] context k')
      (kernel_exit (pos 5) parted)
kernel_exit-Departed_example =
    kernel_exit-Departed parted (process 2 1) (process 1 0) (pos 5) 20 [] context parted-Leaving

-- the parent counts its child, and waits when it runs
abbrev mother : Pcb
mother = record (process 1 0) { num_children = pos 1 }

abbrev parting : Kernel
parting = record parted { pcbs = put (put pcb_at 20 (some mother)) 50 (some dead) }

parting-Parting : Parting parting (process 2 1) mother 20 [] context context
parting-Parting = record {
  leaving = record {
    exiting = record {
      live = ground arith;
      holds = refl;
      ready_there = (ground arith, ground arith, (mother, refl), tt);
      blocked_there = (ground arith, ground arith, (process 3 1, refl), tt);
      defunct_there = (ground arith, ground arith, (dead, refl), tt);
      apart = ((ground arith, (ground arith, tt)), ((ground arith, tt), (tt, tt)));
      room = λ c. ground arith;
    };
    context = refl;
    child = ground arith;
    parent = refl;
    front = refl;
    next_at = refl;
    idle = process 0 0;
    idle_at = refl;
    idle_live = ground arith;
    idle_other = ground arith;
    idle_ready = (ground arith, tt);
    idle_blocked = (ground arith, tt);
  };
  parent = refl;
  children = refl;
  context = refl;
  only = (dead, ground arith, refl, refl, tt);
}

exit_then_wait-Told_example :
    Ends
      (λ o k'. (o ≡ returns (pos 0)) × Told parting (coded (pos 5) (process 2 1)) mother 20 900 k')
      (exit_then_wait (pos 5) 900 parting)
exit_then_wait-Told_example =
    exit_then_wait-Told parting (process 2 1) mother (pos 5) 20 [] context context 900
      (ground arith) parting-Parting

-- 20 runs, 30 is ready before 40
abbrev line : Kernel
line = record machine {
  queues = put_queue (put_queue machine.queues ready (30 ∷ 40 ∷ [])) blocked [];
}

line-Fair : Fair line 0
line-Fair = record {
  idle_live = ground arith;
  idle = process 0 0;
  idle_at = refl;
  idle_named = refl;
  running = (ground arith, (process 1 0, refl, ground arith), (context, refl));
  waiting = (
    (ground arith, (process 2 1, refl, ground arith), (context, refl)),
    ((ground arith, (process 3 1, refl, ground arith), (context, refl)), tt),
  );
  sleeping = tt;
  room = λ c. ground arith;
}

ticks-Runs_example : Ends (λ _ k'. k'.active_pcb ≡ 40) (ticks 2 line)
ticks-Runs_example = ticks-Runs (30 ∷ []) [] 40 line 0 line-Fair refl

-- an empty pipe behind the head pipe
abbrev empty : Pipe
empty = pipe (pos 5102) (replicate 256 0) 0

abbrev piped : Kernel
piped = record machine {
  pipes = record (pipe (pos 5101) [] 0) { addr = 400 } ∷ empty ∷ [];
  queues = put_queue machine.queues (pipe_wait 500) [];
}

piped-Quiet : Quiet piped (pos 5102) empty []
unfolding get_pipe
piped-Quiet = record {
  positive = refl;
  found = refl;
  there = refl;
  unused = refl;
  waiters = pipe_wait 500;
  queue = refl;
  nobody = refl;
  well_formed = record { buffer = refl; fits = ground arith };
  bytes = refl;
}

abbrev talk : List Call
talk = write (1 ∷ 2 ∷ 3 ∷ []) ∷ read 2 ∷ read 257 ∷ write (4 ∷ []) ∷ read 9 ∷ []

abbrev said : List Answer
said = wrote 3 ∷ got (1 ∷ 2 ∷ []) ∷ refused ∷ wrote 1 ∷ got (3 ∷ 4 ∷ []) ∷ []

abbrev served : Service Call Answer (List ℕ)
served = pipe_service (pos 5102) 900

calls-Answered_example :
    Ends
      (λ os k'.
        (os ≡ values served said) × Holding piped (pos 5102) (all_handed served said []) [] k')
      (calls served talk piped)
calls-Answered_example =
    calls-Answered piped (pos 5102) 900 empty [] [] talk said piped-Quiet (ground arith) refl
