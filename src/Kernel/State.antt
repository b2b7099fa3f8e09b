-- ===== src/Kernel/State.antt =====
-- The state: processes, queues, memory, terminals, pipes, locks and condition variables.
use yalnix_implementation.Base.{
  ℕ, Bool, true, false, ◌==◌, if◌then◌else◌, Option, List, ℤ, pos, negsuc,
}
use yalnix_implementation.Hardware.{Ptr, Pte, UserContext}
use yalnix_implementation.Frames.{Memory}

-- the int that a failing function returns
abbrev pub error_code : ℤ
error_code = negsuc 0

-- the blocked codes; KernelExit also stores an exit code where they stand
abbrev pub not_blocked : ℤ
not_blocked = pos 0

abbrev pub blocked_delay : ℤ
blocked_delay = pos 1

abbrev pub blocked_wait : ℤ
blocked_wait = pos 2

abbrev pub blocked_tty_read : ℤ
blocked_tty_read = pos 3

abbrev pub blocked_tty_write : ℤ
blocked_tty_write = pos 4

abbrev pub blocked_tty_transmit : ℤ
blocked_tty_transmit = pos 5

abbrev pub blocked_pipe_read : ℤ
blocked_pipe_read = pos 6

abbrev pub blocked_pipe_write : ℤ
blocked_pipe_write = pos 7

abbrev pub blocked_lock_acquire : ℤ
blocked_lock_acquire = pos 8

-- Three pairs of constants of include.h have the same value.
abbrev pub unused_lock : ℕ
unused_lock = 0

abbrev pub free_lock : ℕ
free_lock = 0

abbrev pub unused_cvar : ℕ
unused_cvar = 0

abbrev pub used_cvar : ℕ
used_cvar = 0

abbrev pub terminal_open : ℕ
terminal_open = 1

abbrev pub terminal_closed : ℕ
terminal_closed = 0

abbrev pub pipe_free : ℕ
pipe_free = 0

abbrev pub pipe_not_free : ℕ
pipe_not_free = 1

-- `struct PCB`; the kernel context is an opaque value of the hardware
pub record Pcb : Type 0 where
  pub pid : ℕ
  pub ppid : ℕ
  pub num_children : ℤ
  pub clock_ticks : ℤ
  pub exit_code : ℤ
  pub user_context : UserContext
  pub kernel_context : ℕ
  pub user_page_table : List Pte
  pub user_stack_pt_index : ℕ
  pub user_heap_pt_index : ℕ
  pub user_text_pt_index : ℕ
  pub user_data_pt_index : ℕ
  pub kernel_stack_pt : List Pte
  pub blocked_code : ℤ
  pub tty_terminal : ℕ

-- the queues of processes that a `queue_t *` can point to
pub data QueueId : Type 0 where
  ready blocked defunct : QueueId
  tty_read tty_write lock_acquire cvar_wait pipe_wait : ℕ → QueueId

abbrev pub eq_queue : QueueId → QueueId → Bool
eq_queue ready ready = true
eq_queue blocked blocked = true
eq_queue defunct defunct = true
eq_queue (tty_read i) (tty_read j) = i == j
eq_queue (tty_write i) (tty_write j) = i == j
eq_queue (lock_acquire i) (lock_acquire j) = i == j
eq_queue (cvar_wait i) (cvar_wait j) = i == j
eq_queue (pipe_wait i) (pipe_wait j) = i == j
eq_queue _ _ = false

-- The `queue` field of a pipe: the head pipe's is never set, a new pipe's may be `NULL`.
pub data PipeQueue : Type 0 where
  unset : PipeQueue
  set_to : Option QueueId → PipeQueue

-- `struct pipe`, with its address
pub record Pipe : Type 0 where
  pub addr : Ptr
  pub id : ℤ
  pub buf : List ℕ
  pub plen : ℕ
  pub being_used : ℕ
  pub queue : PipeQueue

-- what the kernel writes through a user's pointer, and what it hands to `TtyTransmit`
pub data Output : Type 0 where
  int_at : Ptr → ℤ → Output
  bytes_at : Ptr → List ℕ → Output
  transmit : ℕ → List ℕ → Output

pub record Kernel : Type 0 where
  pub pcbs : Ptr → Option Pcb
  pub active_pcb : Ptr
  pub idle_pcb : Ptr
  -- oldest first (Queue/Fifo.antt)
  pub queues : QueueId → List Ptr
  pub memory : Memory
  -- what the n-th call of `helper_new_pid` returns, and the calls so far
  pub new_pid : ℕ → ℕ
  pub pids : ℕ
  -- region 0's page table, and the PCB whose table is in REG_PTBR1 (at boot, the table itself)
  pub k_pt : List Pte
  pub ptbr1 : Ptr
  -- the kernel context that the hardware runs in
  pub kernel_context : ℕ
  -- the user context of the trap in progress, on each process's kernel stack; `none` is `NULL`
  pub uctxt : Ptr → Option UserContext
  pub global_clock_ticks : ℕ
  pub tty_read_buffers : ℕ → List ℕ
  pub tty_read_trackers : ℕ → ℕ
  pub tty_write_trackers : ℕ → ℕ
  -- the linked list of pipes, the head pipe first
  pub pipes : List Pipe
  -- list.c lists, last added first (LinkedList/Stack.antt)
  pub lock_list : List ℤ
  pub cvar_list : List ℤ
  pub lock_status : ℕ → ℕ
  pub cvar_status : ℕ → ℕ
  -- newest first
  pub outputs : List Output

-- a change of an array or a map at one index
abbrev pub put {ℓ} : {A : Type ℓ} → (ℕ → A) → ℕ → A → ℕ → A
put f i v j = if j == i then v else f j

abbrev pub put_queue : (QueueId → List Ptr) → QueueId → List Ptr → QueueId → List Ptr
put_queue f q v r = if eq_queue r q then v else f r
