-- ===== src/Process/Create.antt =====
-- process.c: init_process.
use yalnix_implementation.Base.{
  ℕ, zero, suc, ◌==◌, if◌then◌else◌, Option, none, some, List, [], ◌∷◌, pos, inc, replicate,
  get_elem?,
}
use yalnix_implementation.Hardware.{
  Ptr, null, Pte, pte, UserContext, valid_frame, invalid_frame, no_x_w_r, no_x_no_w_no_r,
  max_pt_len, kernel_stack_size, kernel_stack_page,
}
use yalnix_implementation.Frames.{Memory, allocate_pfn}
use yalnix_implementation.Kernel.{
  Pcb, M, fault, ok, pure, ◌>>=◌, ◌>>◌, gets, modify, load_pcb, update_pcb, undefined_behaviour,
  put, not_blocked, count_malloc,
}

-- A frame for each page of a new kernel stack; `none` where the frames run out.
unfoldable pub allocate_stack : ℕ → Memory → Option (List Pte) × Memory
allocate_stack zero m = (some [], m)
allocate_stack (suc n) m =
    let (r, m') = allocate_pfn m in
    elim r [
      | none ↦ (none, m')
      | some f ↦
          let (rest, m'') = allocate_stack n m' in
          (elim rest [ none ↦ none | some es ↦ some (pte invalid_frame no_x_w_r f ∷ es) ], m'')
    ]

-- the kernel stack of the first process: the pages that region 0's table maps there
unfoldable pub boot_stack : ℕ → ℕ → List Pte → Option (List Pte)
boot_stack zero i k_pt = some []
boot_stack (suc n) i k_pt = elim (get_elem? k_pt i) [
  | none ↦ none
  | some e ↦ elim (boot_stack n (suc i) k_pt) [
    | none ↦ none
    | some es ↦ some (pte valid_frame no_x_w_r e.pfn ∷ es)
  ]
]

abbrev pub new_pcb : ℕ → ℕ → UserContext → List Pte → Pcb
new_pcb pid ppid u stack = record {
  pid = pid;
  ppid = ppid;
  num_children = pos 0;
  clock_ticks = pos 0;
  exit_code = pos 0;
  user_context = u;
  kernel_context = 0;
  user_page_table = replicate max_pt_len (pte invalid_frame no_x_no_w_no_r 0);
  user_stack_pt_index = 0;
  user_heap_pt_index = 0;
  user_text_pt_index = 0;
  user_data_pt_index = 0;
  kernel_stack_pt = stack;
  blocked_code = not_blocked;
  tty_terminal = 0;
}

-- the parent of a new process: the active one, which counts it, or itself
unfoldable pub adopt : ℕ → M ℕ
adopt pid = do
  a ← gets λ k. k.active_pcb
  if a == null then pure pid else do
    update_pcb a λ p. record p { num_children = inc p.num_children }
    p ← load_pcb a
    pure p.pid

-- The kernel stack of a new process. Where the frames run out the C code hands a kernel stack
-- table with entries that were never written to `free_addr_space`: undefined behaviour.
unfoldable pub new_stack : ℕ → M (List Pte)
unfolding allocate_stack boot_stack
new_stack pid k =
    if pid == 0
    then elim (boot_stack kernel_stack_size kernel_stack_page k.k_pt) [
      | none ↦ fault
      | some es ↦ ok es k
    ]
    else let (r, m) = allocate_stack kernel_stack_size k.memory in
      elim r [ none ↦ fault | some es ↦ ok es (record k { memory = m }) ]

-- The address of the new PCB; `none` is `NULL`. The user context must not be `NULL`.
unfoldable pub init_process : M (Option Ptr)
unfolding adopt new_stack
init_process = do
  u ← gets λ k. k.uctxt k.active_pcb
  fresh ← gets λ k. k.memory.malloc k.memory.mallocs
  modify count_malloc
  if fresh == null then pure none else elim u [
    | none ↦ undefined_behaviour
    | some u' ↦ do
      pid ← gets λ k. k.new_pid k.pids
      modify λ k. record k { pids = suc k.pids }
      ppid ← adopt pid
      stack ← new_stack pid
      modify λ k. record k { pcbs = put k.pcbs fresh (some (new_pcb pid ppid u' stack)) }
      pure (some fresh)
  ]
