-- ===== src/Boot.antt =====
-- kernel.c: the set-up of the globals and of region 0's page table, and SetKernelBrk.
pub mod Region0
pub mod Globals
pub mod Start
pub mod Tables
pub mod Launch
pub mod Programs
pub mod Bootable
pub mod Started
use yalnix_implementation.Base.{
  ℕ, zero, suc, ◌+◌, ◌-◌, ◌*◌, ◌/◌, ◌==◌, ltb, leb, if◌then◌else◌, Option, none, some, Bool, true,
  false, ◌||◌, ◌&&◌, List, [], ◌∷◌, ◌++◌, ℤ, pos, get_elem?, set, replicate,
}
use yalnix_implementation.Hardware.{
  Ptr, null, Pte, pte, valid_frame, invalid_frame, no_x_w_r, x_no_w_r, max_pt_len, page_size,
  kernel_stack_page, max_locks, max_cvars, vmem_region_size, terminal_max_line, down_to_page,
}
use yalnix_implementation.Kernel.{
  Kernel, Pipe, M, pure, ◌>>=◌, ◌>>◌, gets, modify, error_code, unused_lock, unused_cvar,
  terminal_open, count_malloc,
}
use yalnix_implementation.Frames.{malloc_fails}
use yalnix_implementation.PipeList.{init_head_pipe}

-- The entry that SetRegion0_pt gives a page: text below `data_start`, data up to `data_end`, heap up
-- to `brk`, then nothing, and the kernel stack; the arguments are page numbers. The frame is the
-- page itself.
unfoldable pub region0_entry : ℕ → ℕ → ℕ → ℕ → Pte
region0_entry data_start data_end brk i =
    if ltb i data_start
    then pte valid_frame x_no_w_r i
    else if leb data_start i && ltb i data_end
    then pte valid_frame no_x_w_r i
    else if leb data_end i && ltb i brk
    then pte valid_frame no_x_w_r i
    else if leb kernel_stack_page i && ltb i max_pt_len
    then pte valid_frame no_x_w_r i
    else pte invalid_frame 0 i

-- the loop over the table: `n` entries from index `i`
unfoldable pub set_region0_pt : ℕ → ℕ → ℕ → ℕ → ℕ → List Pte
unfolding region0_entry
set_region0_pt data_start data_end brk zero i = []
set_region0_pt data_start data_end brk (suc n) i =
    region0_entry data_start data_end brk i ∷ set_region0_pt data_start data_end brk n (suc i)

-- the registers and variables that SetKernelBrk works on
pub record KernelSpace : Type 0 where
  pub vm_enable : ℕ
  pub kernel_brk : ℕ
  pub k_pt : List Pte

-- The loop: each invalid entry of `n` from `i` on becomes valid, with the frame that it has.
unfoldable pub validate_entry : Option Pte → ℕ → List Pte → List Pte
validate_entry none i pt = pt
validate_entry (some e) i pt =
    if e.valid == invalid_frame then set pt i (pte valid_frame no_x_w_r e.pfn) else pt

unfoldable pub validate : ℕ → ℕ → List Pte → List Pte
unfolding validate_entry
validate zero i pt = pt
validate (suc n) i pt = validate n (suc i) (validate_entry (get_elem? pt i) i pt)

unfoldable pub set_kernel_brk : ℕ → KernelSpace → ℤ × KernelSpace
unfolding validate down_to_page
set_kernel_brk addr s =
    if (addr == null) || leb (kernel_stack_page * page_size) addr
    then (error_code, s)
    else if s.vm_enable == 1
    then (
      pos 0,
      record s {
        k_pt =
            validate (addr / page_size - s.kernel_brk / page_size) (s.kernel_brk / page_size)
              s.k_pt;
        kernel_brk = down_to_page addr;
      },
    )
    else if s.vm_enable == 0
    then (
      pos 0,
      record s { kernel_brk = if ltb s.kernel_brk addr then down_to_page addr else s.kernel_brk },
    )
    else (error_code, s)

-- one `list_add` at a time, `n` ids from `i` up: the last one comes first
unfoldable pub ids_up : ℕ → ℕ → List ℤ → List ℤ
ids_up zero i acc = acc
ids_up (suc n) i acc = ids_up n (suc i) (pos i ∷ acc)

-- frame numbers from `n + base - 1` down to `base`: the last one added, `base`, comes first
unfoldable pub frames_from : ℕ → ℕ → List ℕ
frames_from zero base = []
frames_from (suc n) base = base ∷ frames_from n (suc base)

-- SetUpGlobals, where each call of `malloc` but the head pipe's succeeds.
unfoldable pub set_up_globals : ℕ → M ℤ
set_up_globals num_of_frames = do
  modify λ k. record k {
    queues = λ _. [];
    lock_list = ids_up max_locks 0 [];
    cvar_list = ids_up max_cvars (max_locks + 1) [];
    lock_status = λ _. unused_lock;
    cvar_status = λ _. unused_cvar;
    tty_read_buffers = λ _. replicate terminal_max_line 0;
    tty_write_trackers = λ _. terminal_open;
    tty_read_trackers = λ _. 0;
    memory = record k.memory {
      pfn_list =
          frames_from (num_of_frames - vmem_region_size / page_size) (vmem_region_size / page_size);
    };
  }
  h ← init_head_pipe
  modify λ k. record k { pipes = elim h [ none ↦ [] | some p ↦ p ∷ [] ] }
  pure (pos 0)
