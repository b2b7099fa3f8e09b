-- ===== src/Syscall/Exit/Scanning.antt =====
-- KernelExit: what its three passes need, and what they do together.
use yalnix_implementation.Base.{ℕ, ◌≡◌, ◌≢◌, sym, ap, ◌∙◌, Bool, ◌||◌, Option, some, ◌++◌}
use yalnix_implementation.Hardware.{Ptr, null}
use yalnix_implementation.Kernel.{Kernel, Pcb, ready, blocked, defunct}
use yalnix_implementation.Census.{Missing, Present, AllDifferent}
use yalnix_implementation.Syscall.Exit.{notify}
use yalnix_implementation.Syscall.Exit.Queued.{AllThere, OnlyQueued}
use yalnix_implementation.Syscall.Exit.ReadyPass.{orphan, has_parent}
use yalnix_implementation.Syscall.Exit.BlockedRound.{woken, asleep, has_busy_parent}
use yalnix_implementation.Syscall.Exit.DefunctPass.{survivors}
use yalnix_implementation.Syscall.Exit.Hearing.{Heard}

-- A process exits: its PCB and those of the queued processes are there, no process is queued twice
-- or is the exiting one, and no allocation fails.
pub record Exiting (k : Kernel) (me : Pcb) : Type 0 where
  pub live : k.active_pcb ≢ null
  pub holds : k.pcbs k.active_pcb ≡ some me
  pub ready_there : AllThere k (k.queues ready)
  pub blocked_there : AllThere k (k.queues blocked)
  pub defunct_there : AllThere k (k.queues defunct)
  pub apart : AllDifferent (k.queues ready ++ (k.queues blocked ++ k.queues defunct))
  pub room : (c : ℕ) → k.memory.malloc c ≢ null

-- What the three passes do, and the flag that they end with.
pub record Scanned (me : Pcb) (k : Kernel) (z : Bool) (k' : Kernel) : Type 0 where
  pub rest_same : OnlyQueued k k'
  pub left_ready : k'.queues ready ≡ k.queues ready ++ woken me (k.queues blocked) k.pcbs
  pub left_blocked : k'.queues blocked ≡ asleep me (k.queues blocked) k.pcbs
  pub left_defunct : k'.queues defunct ≡ survivors me (k.queues defunct) k.pcbs
  pub orphaned :
      (x : Ptr) (p : Pcb)
      → Present x (k.queues ready)
      → k.pcbs x ≡ some p
      → k'.pcbs x ≡ some (orphan me p)
  pub told :
      (x : Ptr) (p : Pcb)
      → Present x (k.queues blocked)
      → k.pcbs x ≡ some p
      → k'.pcbs x ≡ some (notify me p)
  pub heard : Heard me k k'
  pub others :
      (b : Ptr) → Missing b (k.queues ready) → Missing b (k.queues blocked) → k'.pcbs b ≡ k.pcbs b
  pub zombie :
      z ≡ has_parent me (k.queues ready) k.pcbs || has_busy_parent me (k.queues blocked) k.pcbs

abbrev pub Scans : Pcb → Kernel → Option Bool → Kernel → Type 0
Scans me k r k' = (z : Bool) × (r ≡ some z) × Scanned me k z k'

pub OnlyQueued-trans : (k k1 k2 : Kernel) → OnlyQueued k k1 → OnlyQueued k1 k2 → OnlyQueued k k2
OnlyQueued-trans k k1 k2 s t =
    t
    ∙ ap
        (λ (h : Kernel). record h {
          queues = k2.queues;
          pcbs = k2.pcbs;
          memory = record h.memory { mallocs = k2.memory.mallocs };
        })
        s

-- what is the same behind a pass
pub OnlyQueued-active : (k k' : Kernel) → OnlyQueued k k' → k'.active_pcb ≡ k.active_pcb
OnlyQueued-active k k' s = ap (λ (h : Kernel). h.active_pcb) s

pub OnlyQueued-room :
    (k k' : Kernel)
    → OnlyQueued k k'
    → ((c : ℕ) → k.memory.malloc c ≢ null)
    → (c : ℕ) → k'.memory.malloc c ≢ null
OnlyQueued-room k k' s room c =
    let same : k'.memory.malloc c ≡ k.memory.malloc c = ap (λ (h : Kernel). h.memory.malloc c) s in
    λ none_left. room c (sym same ∙ none_left)

pub OnlyQueued-holds :
    (k k' : Kernel) (me : Pcb)
    → OnlyQueued k k'
    → k'.pcbs k.active_pcb ≡ some me
    → k'.pcbs k'.active_pcb ≡ some me
OnlyQueued-holds k k' me s at = ap k'.pcbs (OnlyQueued-active k k' s) ∙ at
