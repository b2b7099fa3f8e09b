-- ===== src/Census/Steps.antt =====
-- Calls one after the other, of whichever process runs.
use mathlib.Core.Path.{subst}
use yalnix_implementation.Base.{
  ℕ, ◌+◌, ◌-◌, ◌≤◌, ◌<◌, ◌≡◌, ◌≢◌, refl, ◌∙◌, ◌==◌, some, true, false, List, ◌∷◌, ℤ, pos, get_elem?,
  length,
}
use yalnix_implementation.Hardware.{
  Ptr, Pte, null, UserContext, valid_frame, page_of, down_to_page, region1_index,
}
use yalnix_implementation.Frames.Mapping.{AllLive}
use yalnix_implementation.Kernel.{
  Kernel, Pcb, QueueId, ready, Run, ok, Ends, ends, Outcome, goes, in_fork, sleeps, in_exit,
}
use yalnix_implementation.Process.{Swap, swap_process}
use yalnix_implementation.Process.SwitchLaws.{after_switch, swap_process-switch}
use yalnix_implementation.Syscall.Brk.{kernel_brk}
use yalnix_implementation.Syscall.Fork.{kernel_fork}
use yalnix_implementation.Syscall.Fork.Forked.{Forkable, Forked, kernel_fork-Forked}
use yalnix_implementation.Syscall.Exit.{kernel_exit}
use yalnix_implementation.Syscall.Exit.Departure.{coded}
use yalnix_implementation.Syscall.Exit.Leaving.{Leaving, Departed}
use yalnix_implementation.Syscall.Exit.Departed.{kernel_exit-Departed}
use yalnix_implementation.Census.Exits.{without, AllDifferent-without, Departed-census}
use yalnix_implementation.Trap.Faults.{trap_memory_handler}
use yalnix_implementation.Trap.Faults.Stack.{
  stack_growth, after_growth, trap_memory_handler-StackGrown,
}
use yalnix_implementation.Trap.Dispatch.{UserMemory, yalnix_prefix, trap_kernel_handler}
use yalnix_implementation.Trap.Dispatch.Exec.{executed, trap_kernel_handler-exec}
use yalnix_implementation.Load.Image.{LoadInfo, executable}
use yalnix_implementation.Load.Sections.{Loadable}
use yalnix_implementation.Census.{census, Missing, Present, AllDifferent, Local, Local-census}
use yalnix_implementation.Census.Calls.{
  kernel_brk-Local, StackGrown-Local, Loadable-Local, switch-Local, Forked-census,
}

-- the running process faults below its stack, and there are frames for the pages up to there
pub record Growable (k : Kernel) (target : ℕ) (p : Pcb) (c : UserContext) (e : Pte) : Type 0 where
  pub live : k.active_pcb ≢ null
  pub holds : k.pcbs k.active_pcb ≡ some p
  pub context : k.uctxt k.active_pcb ≡ some c
  pub at : region1_index (page_of (down_to_page c.addr)) ≡ pos target
  pub entry : get_elem? p.user_page_table target ≡ some e
  pub unmapped : (e.valid == valid_frame) ≡ false
  pub below : target < p.user_stack_pt_index
  pub fits : p.user_stack_pt_index ≤ length p.user_page_table
  pub enough : p.user_stack_pt_index - target ≤ length k.memory.pfn_list
  pub frames : AllLive k.memory.pfn_list

-- the running process calls Exec of a file that loads
pub record Execable (k : Kernel) (user : UserMemory) (li : LoadInfo) (p : Pcb) (c : UserContext)
    (r0 r1 : ℕ) : Type 0 where
  pub named : r0 ≢ null
  pub given : r1 ≢ null
  pub context : k.uctxt k.active_pcb ≡ some c
  pub file : user.file_at r0 ≡ executable li true true
  pub loadable : Loadable k k.active_pcb li (user.args_at r1) p

-- the running process is not idle, and another one is ready
pub record Switchable (k : Kernel) (n : Ptr) (p next idle : Pcb) (u : UserContext) (rest : List Ptr)
    : Type 0 where
  pub live : k.active_pcb ≢ null
  pub next_live : n ≢ null
  pub apart : n ≢ k.active_pcb
  pub idle_live : k.idle_pcb ≢ null
  pub holds : k.pcbs k.active_pcb ≡ some p
  pub next_holds : k.pcbs n ≡ some next
  pub idle_holds : k.pcbs k.idle_pcb ≡ some idle
  pub not_idle : p.pid ≢ idle.pid
  pub context : k.uctxt k.active_pcb ≡ some u
  pub first : k.queues ready ≡ n ∷ rest
  pub room : k.memory.malloc k.memory.mallocs ≢ null

-- A call, with the processes before it and behind it.
pub data Step (ps : List Ptr) (k : Kernel) : List Ptr → Kernel → Type 0 where
  brk :
      {k' : Kernel} (addr : ℕ) (p : Pcb) (r : ℤ)
      → k.active_pcb ≢ null
      → k.pcbs k.active_pcb ≡ some p
      → kernel_brk addr k ≡ ok r k'
      → Step ps k ps k'
  grow :
      {k' : Kernel} (target : ℕ) (p : Pcb) (c : UserContext) (e : Pte) (o : Outcome)
      → Growable k target p c e
      → trap_memory_handler k ≡ ok o k'
      → Step ps k ps k'
  exec :
      {k' : Kernel} (user : UserMemory) (li : LoadInfo) (p : Pcb) (c : UserContext) (r0 r1 r2 : ℕ)
      (o : Outcome)
      → Execable k user li p c r0 r1
      → trap_kernel_handler user (yalnix_prefix + 2) r0 r1 r2 k ≡ ok o k'
      → Step ps k ps k'
  switch :
      {k' : Kernel} (n : Ptr) (q : QueueId) (p next idle : Pcb) (u : UserContext) (rest : List Ptr)
      (s : Swap)
      → Switchable k n p next idle u rest
      → swap_process (some q) k ≡ ok s k'
      → Step ps k ps k'
  fork :
      {k' : Kernel} {child : Ptr} (p : Pcb) (u : UserContext) (g1 g2 : ℕ) (fs : List ℕ) (r : ℕ)
      → Forkable k p u g1 g2 fs r
      → Missing child ps
      → kernel_fork k ≡ ok (goes (in_fork child)) k'
      → Step ps k (child ∷ ps) k'
  exit :
      {k' : Kernel} (c : ℤ) (p next_pcb : Pcb) (n : Ptr) (rest : List Ptr) (u : UserContext)
      (o : Outcome)
      → Leaving k p next_pcb n rest u
      → kernel_exit c k ≡ ok o k'
      → Step ps k (without k.active_pcb ps) k'

-- Calls of processes that are counted, from a first state on.
pub data Steps (ps0 : List Ptr) (k0 : Kernel) : List Ptr → Kernel → Type 0 where
  start : Steps ps0 k0 ps0 k0
  next :
      {ps ps' : List Ptr} {k k' : Kernel}
      → Steps ps0 k0 ps k
      → Present k.active_pcb ps
      → Step ps k ps' k'
      → Steps ps0 k0 ps' k'

same_end : {A : Type 0} {a b : A} {k k' : Kernel} {r : Run A} → r ≡ ok a k → r ≡ ok b k' → k ≡ k'
same_end p q = cc

ends_in : {A : Type 0} {P : A → Kernel → Type 0} {a : A} {k : Kernel} → Ends P (ok a k) → P a k
ends_in (ends p) = p

-- a call that changes the running process alone
Local-step :
    (f : ℕ) (ps : List Ptr) (k k1 k' : Kernel)
    → AllDifferent ps
    → Present k.active_pcb ps
    → Local f k k1
    → k1 ≡ k'
    → AllDifferent ps × (census f ps k' ≡ census f ps k)
Local-step f ps k k1 k' apart there local same =
    (apart, rw (← same) (Local-census f ps k k1 apart there local))

same_child : (a b : Ptr) → goes (in_fork a) ≡ goes (in_fork b) → b ≡ a
same_child a b same = cc

Step-census :
    (f : ℕ) (ps : List Ptr) (k : Kernel) (ps' : List Ptr) (k' : Kernel)
    → f ≢ 0
    → AllDifferent ps
    → Present k.active_pcb ps
    → Step ps k ps' k'
    → AllDifferent ps' × (census f ps' k' ≡ census f ps k)
Step-census f ps k ps' k' real apart there (brk addr p r live holds run) =
    Local-step f ps k k' k' apart there (kernel_brk-Local f addr k k' p r real live holds run) refl
Step-census f ps k ps' k' real apart there (grow target p c e o h run) =
    let grown =
      trap_memory_handler-StackGrown k target p c e h.live h.holds h.context h.at h.entry h.unmapped
        h.below h.fits h.enough h.frames in
    Local-step f ps k (after_growth k p (stack_growth k p target)) k' apart there
      (StackGrown-Local f k p target (trap_memory_handler k) real h.holds grown)
      (same_end grown.returned run)
Step-census f ps k ps' k' real apart there (exec user li p c r0 r1 r2 o h run) =
    Local-step f ps k (executed k li (user.args_at r1) p c) k' apart there
      (Loadable-Local f k p c li (user.args_at r1) real h.loadable)
      (same_end
        (trap_kernel_handler-exec k user li p c r0 r1 r2 h.named h.given h.context h.file
          h.loadable)
        run)
Step-census f ps k ps' k' real apart there (switch n q p next_pcb idle u rest s h run) =
    Local-step f ps k (after_switch k k.active_pcb n q p next_pcb u rest) k' apart there
      (switch-Local f k n q p next_pcb u rest h.holds)
      (same_end
        (swap_process-switch k n q p next_pcb idle u rest h.live h.next_live h.apart h.idle_live
          h.holds h.next_holds h.idle_holds h.not_idle h.context h.first h.room)
        run)
Step-census f ps k ps' k' real apart there (fork {child = c} p u g1 g2 fs r h fresh run) =
    let forked : Forked k p u (goes (in_fork c)) k' =
      ends_in (subst (Ends (Forked k p u)) run (kernel_fork-Forked k p u g1 g2 fs r h)) in
    let same : forked.child ≡ c = same_child c forked.child forked.goes_on in
    (
      (fresh, apart),
      subst (λ a. census f (a ∷ ps) k' ≡ census f ps k) same
          (Forked-census f ps k k' p u (goes (in_fork c)) real h.holds forked (rw same fresh)),
    )
Step-census f ps k ps' k' real apart there (exit c p next_pcb n rest u o l run) =
    let (_, departed) = ends_in (
      subst (Ends λ o j. (o ≡ sleeps in_exit) × Departed k (coded c p) next_pcb n rest u j) run
        (kernel_exit-Departed k p next_pcb c n rest u l)) in
    (
      (AllDifferent-without k.active_pcb ps apart).0,
      Departed-census f k k' p (coded c p) next_pcb n rest u l departed ps apart there refl,
    )

-- From a state with processes at different addresses, whatever calls of KernelBrk, growths of a
-- stack, calls of Exec that load a program, switches from a process that is not idle to a ready
-- one, successful calls of KernelFork that place the child at a new address and calls of
-- KernelExit by which a process becomes a zombie follow, by whichever of the processes runs, the
-- processes are at different addresses at the end, the forked ones among them and the exited ones
-- not, and each frame other than 0 is as often in their page tables, on their kernel stacks and on
-- the free list together as at the start.
pub Steps-census :
    (f : ℕ) (ps0 : List Ptr) (k0 : Kernel) (ps : List Ptr) (k : Kernel)
    → f ≢ 0
    → AllDifferent ps0
    → Steps ps0 k0 ps k
    → AllDifferent ps × (census f ps k ≡ census f ps0 k0)
Steps-census f ps0 k0 ps k real apart start = (apart, refl)
Steps-census f ps0 k0 ps k real apart (next {ps = qs} {k = k1} before there step) =
    let (different, same) = Steps-census f ps0 k0 qs k1 real apart before in
    let (different', same') = Step-census f qs k1 ps k real different there step in
    (different', same' ∙ same)
