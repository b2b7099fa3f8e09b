-- ===== src/Syscall/Exit/Leaving.antt =====
-- KernelExit: a process that no parent keeps, and the state that a zombie leaves from.
use yalnix_implementation.Base.{
  ℕ, ◌+◌, ◌≡◌, ◌≢◌, ap, ◌∙◌, Bool, true, false, ◌||◌, some, List, [], ◌∷◌, ◌++◌, ℤ, arith, inl, inr,
  Bool-cases, is_pos, not, ◌==◌,
}
use yalnix_implementation.Hardware.{Ptr, null, UserContext}
use yalnix_implementation.Kernel.{Kernel, Pcb, ready, blocked, defunct, ok, fault}
use yalnix_implementation.Frames.Conservation.{count}
use yalnix_implementation.Census.{Missing, Present}
use yalnix_implementation.Process.Freeing.{owns}
use yalnix_implementation.Process.SwitchLaws.{saved}
use yalnix_implementation.Syscall.Exit.{exit_scan, kernel_exit}
use yalnix_implementation.Syscall.Exit.ReadyPass.{orphan, has_parent}
use yalnix_implementation.Syscall.Exit.BlockedRound.{woken, asleep, has_busy_parent}
use yalnix_implementation.Syscall.Exit.DefunctPass.{survivors}
use yalnix_implementation.Syscall.Exit.Hearing.{Heard}
use yalnix_implementation.Syscall.Exit.Scanning.{Exiting, Scanned}
use yalnix_implementation.Syscall.Exit.Scan.{exit_scan-Scans}
use yalnix_implementation.Syscall.Exit.Departure.{
  coded, with_code, Ends-value, coded-Exiting, coded-flag, kernel_exit-alone, kernel_exit-scanned,
  Scanned-fault,
}
use yalnix_implementation.Syscall.Exit.Freed.{exit_leave-fault}

pub exit_scan-flag :
    (k : Kernel) (me : Pcb) (c : ℤ)
    → Exiting k me
    → (z : Bool) × (k1 : Kernel) × (exit_scan (with_code k c me) ≡ ok (some z) k1)
      × Scanned (coded c me) (with_code k c me) z k1
      × (z ≡ has_parent me (k.queues ready) k.pcbs || has_busy_parent me (k.queues blocked) k.pcbs)
exit_scan-flag k me c e =
    let (r, k1, scan, (z, ended, s)) =
      Ends-value (exit_scan-Scans (with_code k c me) (coded c me) (coded-Exiting k me c e)) in
    (z, k1, scan ∙ ap (λ b. ok b k1) ended, s, s.zombie ∙ coded-flag k me c e)

-- KernelExit of a process, called with a user context, where every queued process has a PCB, none
-- is queued twice or is the exiting one, and no allocation fails, is undefined behaviour if the
-- ready queue holds no parent of it that is not its child and the blocked queue no parent that
-- does not wait, so also where its parent waits for it: SwapProcess reads the PCB that
-- delete_process freed.
pub kernel_exit-fault_unkept :
    (k : Kernel) (me : Pcb) (exit_code : ℤ) (u : UserContext)
    → Exiting k me
    → k.uctxt k.active_pcb ≡ some u
    → has_parent me (k.queues ready) k.pcbs ≡ false
    → has_busy_parent me (k.queues blocked) k.pcbs ≡ false
    → kernel_exit exit_code k ≡ fault
kernel_exit-fault_unkept k me c u e context not_ready not_busy =
    elim (Bool-cases (not (me.ppid == 0) || is_pos me.num_children)) [
      | inr alone ↦
          kernel_exit-alone k me c e u context alone
          ∙ exit_leave-fault (with_code k c me) u e.live context
      | inl related ↦
          let (z, k1, scan, s, flag) = exit_scan-flag k me c e in
          let off : z ≡ false = flag ∙ ground arith in
          kernel_exit-scanned k me c e u context false k1 related
            (scan ∙ ap (λ b. ok (some b) k1) off)
          ∙ Scanned-fault k me c e u context k1 (rw off at s)
    ]

-- A process whose parent lives, and does not wait for it, exits while another process is ready.
pub record Leaving (k : Kernel) (me next : Pcb) (n : Ptr) (rest : List Ptr) (u : UserContext)
    : Type 0 where
  pub exiting : Exiting k me
  pub context : k.uctxt k.active_pcb ≡ some u
  pub child : me.ppid ≢ 0
  pub parent :
      has_parent me (k.queues ready) k.pcbs || has_busy_parent me (k.queues blocked) k.pcbs ≡ true
  pub front : k.queues ready ≡ n ∷ rest
  pub next_at : k.pcbs n ≡ some next
  pub idle : Pcb
  pub idle_at : k.pcbs k.idle_pcb ≡ some idle
  pub idle_live : k.idle_pcb ≢ null
  pub idle_other : me.pid ≢ idle.pid
  pub idle_ready : Missing k.idle_pcb (k.queues ready)
  pub idle_blocked : Missing k.idle_pcb (k.queues blocked)

-- What is left of it: `p` is the process with its exit code.
pub record Departed (k : Kernel) (p next : Pcb) (n : Ptr) (rest : List Ptr) (u : UserContext)
    (k' : Kernel) : Type 0 where
  pub runs : k'.active_pcb ≡ n
  pub own_table : k'.ptbr1 ≡ n
  pub own_context : k'.kernel_context ≡ next.kernel_context
  pub zombie : k'.pcbs k.active_pcb ≡ some (saved p u k.kernel_context)
  pub is_ready : k'.queues ready ≡ rest ++ woken p (k.queues blocked) k.pcbs
  pub is_blocked : k'.queues blocked ≡ asleep p (k.queues blocked) k.pcbs
  pub is_defunct : k'.queues defunct ≡ survivors p (k.queues defunct) k.pcbs ++ k.active_pcb ∷ []
  pub orphaned :
      (x : Ptr) (q : Pcb)
      → Present x (k.queues ready)
      → k.pcbs x ≡ some q
      → k'.pcbs x ≡ some (orphan p q)
  pub heard : Heard p k k'
  pub others :
      (x : Ptr)
      → x ≢ k.active_pcb
      → Missing x (k.queues ready)
      → Missing x (k.queues blocked)
      → k'.pcbs x ≡ k.pcbs x
  pub frames : (f : ℕ) → count f k'.memory.pfn_list ≡ owns f p + count f k.memory.pfn_list
  pub nothing_handed : k'.outputs ≡ k.outputs
  pub same_malloc : k'.memory.malloc ≡ k.memory.malloc
  pub same_contexts : k'.uctxt ≡ k.uctxt
