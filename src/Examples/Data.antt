-- ===== src/Examples/Data.antt =====
-- A small kernel: the idle process at 10, a running process at 20 and two others at 30 and 40.
use yalnix_implementation.Base.{
  ℕ, ◌+◌, ◌*◌, replicate, ◌==◌, if◌then◌else◌, Option, none, some, List, [], ◌∷◌, ℤ, pos,
}
use yalnix_implementation.Hardware.{Ptr, Pte, pte, UserContext}
use yalnix_implementation.Frames.{Memory}
use yalnix_implementation.Kernel.{
  Kernel, Pcb, Pipe, QueueId, ready, blocked, pipe_wait, set_to, not_blocked,
}

abbrev pub context : UserContext
context = record { addr = 0; code = 0; sp = 200; pc = 100 }

-- eight pages: text, data, a gap for the heap, and the stack
abbrev pub table : List Pte
table =
    pte 1 5 31
    ∷ pte 1 3 32
    ∷ pte 0 0 0
    ∷ pte 0 0 0
    ∷ pte 0 0 0
    ∷ pte 0 0 0
    ∷ pte 0 0 0
    ∷ pte 1 3 33
    ∷ []

abbrev pub process : ℕ → ℕ → Pcb
process pid ppid = record {
  pid = pid;
  ppid = ppid;
  num_children = pos 0;
  clock_ticks = pos 0;
  exit_code = pos 0;
  user_context = context;
  kernel_context = pid + 100;
  user_page_table = table;
  user_stack_pt_index = 7;
  user_heap_pt_index = 2;
  user_text_pt_index = 0;
  user_data_pt_index = 1;
  kernel_stack_pt = pte 1 3 (60 + 2 * pid) ∷ pte 1 3 (61 + 2 * pid) ∷ [];
  blocked_code = not_blocked;
  tty_terminal = 0;
}

abbrev pub memory : Memory
memory = record { malloc = λ n. n + 1000; mallocs = 0; pfn_list = 50 ∷ 51 ∷ 52 ∷ [] }

abbrev pub pipe : ℤ → List ℕ → ℕ → Pipe
pipe id bytes n = record {
  addr = 500;
  id = id;
  buf = bytes;
  plen = n;
  being_used = 0;
  queue = set_to (some (pipe_wait 500));
}

abbrev pub pcb_at : Ptr → Option Pcb
pcb_at a =
    if a == 10
    then some (process 0 0)
    else if a == 20
    then some (process 1 0)
    else if a == 30
    then some (process 2 1)
    else if a == 40
    then some (process 3 1)
    else none

abbrev pub queue_at : QueueId → List Ptr
queue_at ready = 30 ∷ []
queue_at blocked = 40 ∷ []
queue_at (pipe_wait n) = 30 ∷ []
queue_at _ = []

abbrev pub machine : Kernel
machine = record {
  pcbs = pcb_at;
  active_pcb = 20;
  idle_pcb = 10;
  queues = queue_at;
  memory = memory;
  new_pid = λ n. n + 7;
  pids = 0;
  k_pt = [];
  ptbr1 = 20;
  kernel_context = 77;
  uctxt = λ _. some context;
  global_clock_ticks = 0;
  tty_read_buffers = λ _. [];
  tty_read_trackers = λ _. 0;
  tty_write_trackers = λ _. 0;
  pipes = pipe (pos 5101) [] 0 ∷ pipe (pos 5102) [] 0 ∷ [];
  lock_list = pos 1 ∷ [];
  cvar_list = pos 5100 ∷ [];
  lock_status = λ _. 0;
  cvar_status = λ _. 0;
  outputs = [];
}

-- the same with a table for region 0
abbrev pub paged : Kernel
paged = record machine { k_pt = replicate 128 (pte 1 3 9) }
