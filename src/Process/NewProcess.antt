-- ===== src/Process/NewProcess.antt =====
-- process.c: what init_process makes, for the first process and for those that have a parent.
use yalnix_implementation.Base.{ℕ, suc, ◌≡◌, ◌≢◌, some, List, [], ◌∷◌, get_elem?, arith, inc}
use yalnix_implementation.Hardware.{
  Ptr, Pte, pte, null, UserContext, valid_frame, invalid_frame, no_x_w_r, kernel_stack_page,
}
use yalnix_implementation.Frames.{pop_frame, allocate_pfn}
use yalnix_implementation.Kernel.{Kernel, Pcb, ok, put, load_pcb, update_pcb}
use yalnix_implementation.Process.Create.{
  new_pcb, new_stack, allocate_stack, boot_stack, adopt, init_process,
}

-- the state behind the first call: one PCB more
abbrev pub first_made : Kernel → Ptr → Pcb → Kernel
first_made k fresh p = record k {
  memory = record k.memory { mallocs = suc k.memory.mallocs };
  pids = suc k.pids;
  pcbs = put k.pcbs fresh (some p);
}

-- the two pages of the kernel stack that are in use when the first process is made
abbrev pub first_stack : Pte → Pte → List Pte
first_stack e f = pte valid_frame no_x_w_r e.pfn ∷ pte valid_frame no_x_w_r f.pfn ∷ []

pub init_process-first_made :
    (k : Kernel) (u : UserContext) (e f : Pte)
    → k.active_pcb ≡ null
    → k.uctxt k.active_pcb ≡ some u
    → k.memory.malloc k.memory.mallocs ≢ null
    → k.new_pid k.pids ≡ 0
    → get_elem? k.k_pt kernel_stack_page ≡ some e
    → get_elem? k.k_pt (suc kernel_stack_page) ≡ some f
    → init_process k
      ≡ ok
          (some (k.memory.malloc k.memory.mallocs))
          (first_made k (k.memory.malloc k.memory.mallocs) (new_pcb 0 0 u (first_stack e f)))
unfolding init_process adopt new_stack boot_stack
init_process-first_made k u e f alone context room first at1 at2 = ground arith

-- the state behind a later call: the parent counts a child more, and two frames are the child's
-- kernel stack
abbrev pub child_made : Kernel → Ptr → Pcb → Pcb → List ℕ → Kernel
child_made k fresh p child fs = record k {
  memory = record k.memory { mallocs = suc k.memory.mallocs; pfn_list = fs };
  pids = suc k.pids;
  pcbs =
      put (put k.pcbs k.active_pcb (some (record p { num_children = inc p.num_children }))) fresh
        (some child);
}

abbrev pub child_stack : ℕ → ℕ → List Pte
child_stack f g = pte invalid_frame no_x_w_r f ∷ pte invalid_frame no_x_w_r g ∷ []

pub init_process-child_made :
    (k : Kernel) (u : UserContext) (p : Pcb) (f g : ℕ) (fs : List ℕ)
    → k.active_pcb ≢ null
    → k.pcbs k.active_pcb ≡ some p
    → k.uctxt k.active_pcb ≡ some u
    → k.memory.malloc k.memory.mallocs ≢ null
    → k.new_pid k.pids ≢ 0
    → k.memory.pfn_list ≡ f ∷ g ∷ fs
    → f ≢ 0
    → g ≢ 0
    → init_process k
      ≡ ok (some (k.memory.malloc k.memory.mallocs)) (
          child_made k
            (k.memory.malloc k.memory.mallocs)
            p
            (new_pcb (k.new_pid k.pids) p.pid u (child_stack f g))
            fs)
unfolding init_process adopt new_stack allocate_stack allocate_pfn pop_frame load_pcb update_pcb
init_process-child_made k u p f g fs live holds context room later frames f-real g-real =
    ground arith
