-- ===== src/Boot/Programs.antt =====
-- KernelStart: the state behind the idle process, and behind the first program.
use yalnix_implementation.Base.{
  ℕ, suc, ◌≤◌, ◌≡◌, ◌≢◌, refl, some, List, [], ◌∷◌, ◌++◌, get_elem?, set, arith, true, length,
  ==-refl,
}
use yalnix_implementation.Hardware.{
  Ptr, Pte, pte, null, UserContext, invalid_frame, max_pt_len, kernel_stack_page,
}
use yalnix_implementation.Frames.Mapping.{AllLive}
use yalnix_implementation.Kernel.{Kernel, Pcb, ok, put, put_queue, ready, load_pcb, update_pcb}
use yalnix_implementation.Kernel.Processes.{put-put, queue_add-append}
use yalnix_implementation.ContextSwitch.{find_reserved, mark_valid, kc_copy, kernel_context_copy}
use yalnix_implementation.Process.{new_pcb}
use yalnix_implementation.Process.NewProcess.{
  first_made, first_stack, init_process-first_made, child_made, child_stack,
  init_process-child_made,
}
use yalnix_implementation.Load.Image.{LoadInfo, executable}
use yalnix_implementation.Load.ThrowAway.{HasRoom}
use yalnix_implementation.Load.Sections.{Loadable}
use yalnix_implementation.Load.Layout.{load_program-LaidOut}
use yalnix_implementation.Load.Loaded.{loaded}
use yalnix_implementation.Load.Fresh.{Fitting, frames_for, blank-Loadable}
use yalnix_implementation.Boot.Start.{started, start_idle, start_prog, launch}

module _ (k : Kernel) (u : UserContext) (e f : Pte) (li : LoadInfo) (args : List (List ℕ)) where
  abbrev pub idle_at : Ptr
  idle_at = k.memory.malloc k.memory.mallocs

  abbrev pub idle_made : Pcb
  idle_made = new_pcb 0 0 u (first_stack e f)

  -- the new process, known as the idle process, but not active yet
  abbrev pub with_idle : Kernel
  with_idle = record (first_made k idle_at idle_made) { idle_pcb = idle_at }

  abbrev pub behind_idle : Kernel
  behind_idle = record (loaded with_idle idle_at li args idle_made) {
    active_pcb = idle_at;
    uctxt = put k.uctxt idle_at (some u);
  }

  pub idle-Loadable :
      HasRoom k.memory
      → Fitting li args
      → AllLive k.memory.pfn_list
      → frames_for li args ≤ length k.memory.pfn_list
      → Loadable with_idle idle_at li args idle_made
  idle-Loadable room fit frames enough =
      blank-Loadable max_pt_len with_idle idle_at li args idle_made refl refl
        (room k.memory.mallocs) (rw (==-refl idle_at) refl) room fit frames enough

  pub start_idle-behind_idle :
      k.active_pcb ≡ null
      → k.uctxt k.active_pcb ≡ some u
      → HasRoom k.memory
      → k.new_pid k.pids ≡ 0
      → get_elem? k.k_pt kernel_stack_page ≡ some e
      → get_elem? k.k_pt (suc kernel_stack_page) ≡ some f
      → Fitting li args
      → AllLive k.memory.pfn_list
      → frames_for li args ≤ length k.memory.pfn_list
      → start_idle (executable li true true) args k ≡ ok idle_at behind_idle
  unfolding start_idle
  start_idle-behind_idle alone context room first at1 at2 fit frames enough = ground (
    arith,
    init_process-first_made k u e f alone context (room k.memory.mallocs) first at1 at2,
    (load_program-LaidOut with_idle idle_at li args idle_made
        (idle-Loadable room fit frames enough)).returned,
  )

module _ (k : Kernel) (u : UserContext) (p : Pcb) (f g : ℕ) (fs : List ℕ) (li : LoadInfo)
    (args : List (List ℕ)) where
  abbrev pub prog_at : Ptr
  prog_at = k.memory.malloc k.memory.mallocs

  abbrev pub prog_made : Pcb
  prog_made = new_pcb (k.new_pid k.pids) p.pid u (child_stack f g)

  abbrev pub with_prog : Kernel
  with_prog = child_made k prog_at p prog_made fs

  -- the first program, loaded
  abbrev pub prog_loaded : Kernel
  prog_loaded = loaded with_prog prog_at li args prog_made

  -- It is ready, its kernel stack is a copy of the running one, and the machine goes on in `idle`.
  pub prog-Loadable :
      HasRoom k.memory
      → Fitting li args
      → AllLive fs
      → frames_for li args ≤ length fs
      → Loadable with_prog prog_at li args prog_made
  prog-Loadable room fit frames enough =
      blank-Loadable max_pt_len with_prog prog_at li args prog_made refl refl
        (room k.memory.mallocs) (rw (==-refl prog_at) refl) room fit frames enough

  pub start_prog-launch :
      (idle : Ptr)
      → k.active_pcb ≢ null
      → k.pcbs k.active_pcb ≡ some p
      → k.uctxt k.active_pcb ≡ some u
      → HasRoom k.memory
      → k.new_pid k.pids ≢ 0
      → k.memory.pfn_list ≡ f ∷ g ∷ fs
      → f ≢ 0
      → g ≢ 0
      → Fitting li args
      → AllLive fs
      → frames_for li args ≤ length fs
      → start_prog (executable li true true) args idle k ≡ launch prog_at idle prog_loaded
  unfolding start_prog
  start_prog-launch idle live holds context room later free f-real g-real fit frames enough =
      ground (
        arith,
        init_process-child_made k u p f g fs live holds context (room k.memory.mallocs) later free
            f-real g-real,
        (load_program-LaidOut with_prog prog_at li args prog_made
            (prog-Loadable room fit frames enough)).returned,
      )

-- The program at `prog` is ready, its kernel stack is a copy of the running one with the user
-- context on it, and the machine goes on in `idle`.
abbrev pub launched : Kernel → Ptr → Ptr → Pcb → Pcb → ℕ → Kernel
launched k prog idle q i r = record k {
  pcbs = put k.pcbs prog (
      some (record q {
        kernel_context = k.kernel_context;
        kernel_stack_pt = mark_valid q.kernel_stack_pt;
      }));
  memory = record k.memory { mallocs = suc k.memory.mallocs };
  queues = put_queue k.queues ready (k.queues ready ++ prog ∷ []);
  ptbr1 = idle;
  uctxt = put (put k.uctxt idle (some i.user_context)) prog (some i.user_context);
  k_pt = set k.k_pt r (pte invalid_frame 0 0);
}

pub launch-launched :
    (k : Kernel) (prog : Ptr) (q i : Pcb) (r : ℕ)
    → prog ≢ null
    → k.active_pcb ≢ null
    → k.pcbs prog ≡ some q
    → k.pcbs k.active_pcb ≡ some i
    → k.memory.malloc k.memory.mallocs ≢ null
    → find_reserved kernel_stack_page k.k_pt ≡ some r
    → launch prog k.active_pcb k ≡ ok started (launched k prog k.active_pcb q i r)
unfolding launch kernel_context_copy kc_copy load_pcb update_pcb
launch-launched k prog q i r live idle-live at1 at2 room reserved =
    let q1 = record q { kernel_context = k.kernel_context } in
    ground (
      arith,
      queue_add-append k ready prog live room,
      put-put k prog q1 (record q1 { kernel_stack_pt = mark_valid q.kernel_stack_pt }),
    )
