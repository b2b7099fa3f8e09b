-- ===== src/Boot/Started.antt =====
-- KernelStart as a whole, where both programs load.
use mathlib.Core.Path.{subst}
use yalnix_implementation.Base.{
  ℕ, suc, ◌+◌, ◌-◌, ◌/◌, ◌≤◌, ◌≡◌, ◌≢◌, refl, sym, ap, ◌∙◌, some, List, [], ◌∷◌, arith, pos, inc,
  true, length, ==-refl,
}
use yalnix_implementation.Hardware.{
  Ptr, Pte, pte, null, UserContext, valid_frame, invalid_frame, no_x_w_r, max_pt_len, page_size,
}
use yalnix_implementation.Frames.Mapping.{AllLive}
use yalnix_implementation.Kernel.{Kernel, Pcb, ok, Ends, ends, ready}
use yalnix_implementation.ContextSwitch.{mark_valid}
use yalnix_implementation.Load.Image.{LoadInfo, File, executable, stack_pointer}
use yalnix_implementation.Load.ThrowAway.{HasRoom}
use yalnix_implementation.Load.Layout.{LaidOut, load_program-LaidOut}
use yalnix_implementation.Load.Loaded.{loaded_process}
use yalnix_implementation.Load.Fresh.{frames_for, blank-mallocs, blank-pages}
use yalnix_implementation.Boot.Start.{
  Sizes, started, idle_args, start_idle, start_prog, launch, kernel_start,
}
use yalnix_implementation.Load.{load_program}
use yalnix_implementation.Boot.Tables.{stack_entry, free_entry}
use yalnix_implementation.Boot.Globals.{frames_from-AllLive, length-frames_from}
use yalnix_implementation.Boot.Launch.{region0, prepared, set_up_memory-prepared}
use yalnix_implementation.Boot.Programs.{
  idle_at, idle_made, with_idle, behind_idle, idle-Loadable, start_idle-behind_idle, prog_at,
  prog_made, with_prog, prog_loaded, start_prog-launch, launched, launch-launched,
}
use yalnix_implementation.Boot.Bootable.{Bootable, reserved_page, two_frames}

module _ (z : Sizes) (k : Kernel) (u : UserContext) (file_at : List ℕ → File)
    (beyond cmd_args : List (List ℕ)) (il pl : LoadInfo)
    (h : Bootable z k u file_at beyond cmd_args il pl) where
  abbrev k1 : Kernel
  k1 = prepared z k

  abbrev e : Pte
  e = pte valid_frame no_x_w_r 126

  abbrev f : Pte
  f = pte valid_frame no_x_w_r 127

  abbrev iargs : List (List ℕ)
  iargs = idle_args beyond cmd_args

  abbrev idle : Ptr
  idle = idle_at k1 u e f il iargs

  abbrev k2 : Kernel
  k2 = behind_idle k1 u e f il iargs

  abbrev idle_loaded : Pcb
  idle_loaded =
      loaded_process (with_idle k1 u e f il iargs) idle il iargs (idle_made k1 u e f il iargs)

  k1-AllLive : AllLive k1.memory.pfn_list
  k1-AllLive = frames_from-AllLive _ 128 (omega arith)

  k1-length : length k1.memory.pfn_list ≡ z.pmem_size / page_size - 128
  k1-length = length-frames_from (z.pmem_size / page_size - 128) 128

  idle_runs : start_idle (executable il true true) iargs k1 ≡ ok idle k2
  idle_runs =
      start_idle-behind_idle k1 u e f il iargs h.alone h.context h.room h.first_pid
        (stack_entry z.data_start z.data_end z.brk 126 h.sizes.text h.sizes.heap
          (omega (arith, h.sizes.free)) (omega arith) (omega arith))
        (stack_entry z.data_start z.data_end z.brk 127 h.sizes.text h.sizes.heap
          (omega (arith, h.sizes.free)) (omega arith) (omega arith))
        h.idle_fits k1-AllLive (omega (arith, h.enough, k1-length))

  idle-LaidOut :
      LaidOut
        (with_idle k1 u e f il iargs)
        idle
        il
        iargs
        (idle_made k1 u e f il iargs)
        (load_program (executable il true true) iargs idle (with_idle k1 u e f il iargs))
  idle-LaidOut =
      load_program-LaidOut (with_idle k1 u e f il iargs) idle il iargs (idle_made k1 u e f il iargs)
        (idle-Loadable k1 u e f il iargs h.room h.idle_fits k1-AllLive
          (omega (arith, h.enough, k1-length)))

  k2-length : 2 + frames_for pl cmd_args ≤ length k2.memory.pfn_list
  k2-length = omega (arith, idle-LaidOut.left, k1-length, h.enough, blank-pages max_pt_len)

  k2-mallocs : (k2.memory.malloc ≡ k.memory.malloc) × (k2.memory.mallocs ≡ 5 + k.memory.mallocs)
  k2-mallocs =
      let (m, n) =
        blank-mallocs max_pt_len (with_idle k1 u e f il iargs) idle il iargs
          (idle_made k1 u e f il iargs) refl in
      (m, omega (arith, n))

  kernel_start-prog :
      kernel_start z file_at beyond cmd_args k
      ≡ start_prog (executable pl true true) cmd_args idle k2
  unfolding kernel_start
  kernel_start-prog =
      ground (arith, set_up_memory-prepared z k h.sizes h.room, idle_runs, h.idle_file, h.prog_file)

  k2-room : HasRoom k2.memory
  k2-room = rw (k2-mallocs.0) h.room

  apart : idle ≢ prog_at k2 u idle_loaded 0 0 [] pl cmd_args
  apart same = h.apart (
      ap k.memory.malloc {x = 3 + k.memory.mallocs} {y = suc (suc (suc k.memory.mallocs))}
        (omega arith)
      ∙ same
      ∙ (λ i. k2-mallocs.0 i (k2-mallocs.1 i)))

  module _ (g1 g2 : ℕ) (fs : List ℕ) where
    abbrev prog : Ptr
    prog = prog_at k2 u idle_loaded g1 g2 fs pl cmd_args

    abbrev k3 : Kernel
    k3 = prog_loaded k2 u idle_loaded g1 g2 fs pl cmd_args

    abbrev prog_process : Pcb
    prog_process =
        loaded_process (with_prog k2 u idle_loaded g1 g2 fs pl cmd_args) prog pl cmd_args
          (prog_made k2 u idle_loaded g1 g2 fs pl cmd_args)

    -- behind the copy of the kernel stack
    abbrev prog_ready : Pcb
    prog_ready = record prog_process {
      kernel_context = k3.kernel_context;
      kernel_stack_pt = mark_valid prog_process.kernel_stack_pt;
    }

    abbrev idle_process : Pcb
    idle_process = record idle_loaded { num_children = inc idle_loaded.num_children }

    abbrev k4 : Kernel
    k4 = launched k3 prog idle prog_process idle_process 125

    module _ (free : k2.memory.pfn_list ≡ g1 ∷ g2 ∷ fs) (real1 : g1 ≢ 0) (real2 : g2 ≢ 0)
        (live : AllLive fs) (enough : frames_for pl cmd_args ≤ length fs) where
      prog_starts : start_prog (executable pl true true) cmd_args idle k2 ≡ launch prog idle k3
      prog_starts =
          start_prog-launch k2 u idle_loaded g1 g2 fs pl cmd_args idle (h.room _)
            (rw (==-refl idle) refl) (rw (==-refl idle) refl) k2-room h.next_pid free real1 real2
            h.prog_fits live enough

      k3-mallocs : k3.memory.malloc k3.memory.mallocs ≢ null
      k3-mallocs =
          rw
            ((blank-mallocs max_pt_len (with_prog k2 u idle_loaded g1 g2 fs pl cmd_args) prog pl
              cmd_args (prog_made k2 u idle_loaded g1 g2 fs pl cmd_args) refl).0)
            (k2-room _)

      prog_runs : launch prog idle k3 ≡ ok started k4
      prog_runs =
          launch-launched k3 prog prog_process idle_process 125 (k2-room _) (h.room _)
            (rw (==-refl prog) refl) (ground (arith, apart)) k3-mallocs
            (reserved_page (region0 z) e (pte invalid_frame 0 125)
              (stack_entry z.data_start z.data_end z.brk 126 h.sizes.text h.sizes.heap
                (omega (arith, h.sizes.free)) (omega arith) (omega arith))
              (free_entry z.data_start z.data_end z.brk 125 h.sizes.text h.sizes.heap
                (omega (arith, h.sizes.free)) (omega arith))
              refl refl)

      kernel_start-k4 : kernel_start z file_at beyond cmd_args k ≡ ok started k4
      kernel_start-k4 = kernel_start-prog ∙ prog_starts ∙ prog_runs

-- The user context at the start of a loaded program.
abbrev pub entry_context : UserContext → LoadInfo → List (List ℕ) → UserContext
entry_context u li args = record u { sp = stack_pointer args; pc = li.entry }

-- What KernelStart leaves to run.
pub record Running (u : UserContext) (il pl : LoadInfo) (iargs args : List (List ℕ)) (k' : Kernel)
    : Type 0 where
  pub idle : Ptr
  pub prog : Ptr
  pub different : idle ≢ prog
  pub runs : k'.active_pcb ≡ idle
  pub known : k'.idle_pcb ≡ idle
  pub own_table : k'.ptbr1 ≡ idle
  pub waiting : k'.queues ready ≡ prog ∷ []
  pub idle_process : (p : Pcb) × (k'.pcbs idle ≡ some p) × (p.pid ≡ 0) × (p.num_children ≡ pos 1)
  pub prog_process :
      (p : Pcb) × (k'.pcbs prog ≡ some p)
      × (p.ppid ≡ 0)
      × (p.user_context ≡ entry_context u pl args)
  pub idle_context : k'.uctxt idle ≡ some (entry_context u il iargs)
  pub prog_context : k'.uctxt prog ≡ some (entry_context u il iargs)

-- Where KernelStart is the first code to run, region 0 has room below the stack, there is memory
-- for its objects, the first id is 0 and the second is not, the files of the idle process and of
-- the first program load, and there are frames for both, it does not halt: the idle process runs
-- on its own page table and from its own entry, the first program is its child and alone on the
-- ready queue, with its own entry and stack pointer in its PCB; but the user context that the
-- first program goes on with is the idle process's.
pub kernel_start-Running :
    (z : Sizes) (k : Kernel) (u : UserContext) (file_at : List ℕ → File)
    (beyond cmd_args : List (List ℕ)) (il pl : LoadInfo)
    → Bootable z k u file_at beyond cmd_args il pl
    → Ends
        (λ r k'. (r ≡ started) × Running u il pl (idle_args beyond cmd_args) cmd_args k')
        (kernel_start z file_at beyond cmd_args k)
kernel_start-Running z k u file_at beyond cmd_args il pl h =
    let (g1, g2, fs, free, real1, real2, live, enough) =
      two_frames (frames_for pl cmd_args) (k2 z k u file_at beyond cmd_args il pl h).memory.pfn_list
        (idle-LaidOut z k u file_at beyond cmd_args il pl h).live
        (k2-length z k u file_at beyond cmd_args il pl h) in
    let i = idle z k u file_at beyond cmd_args il pl h in
    let p = prog z k u file_at beyond cmd_args il pl h g1 g2 fs in
    let ne = apart z k u file_at beyond cmd_args il pl h in
    let ne' : p ≢ i = λ same. ne (sym same) in
    subst (Ends λ r k'. (r ≡ started) × Running u il pl (idle_args beyond cmd_args) cmd_args k')
      (sym (
        kernel_start-k4 z k u file_at beyond cmd_args il pl h g1 g2 fs free real1 real2 live
          enough))
      (ends (
        refl,
        record {
          idle = i;
          prog = p;
          different = ne;
          runs = refl;
          known = refl;
          own_table = refl;
          waiting = refl;
          idle_process = (
            idle_process z k u file_at beyond cmd_args il pl h g1 g2 fs,
            ground (arith, ne),
            refl,
            refl,
          );
          prog_process = (
            prog_ready z k u file_at beyond cmd_args il pl h g1 g2 fs,
            rw (==-refl p) refl,
            refl,
            refl,
          );
          idle_context = ground (arith, ne);
          prog_context = rw (==-refl p) refl;
        },
      ))
