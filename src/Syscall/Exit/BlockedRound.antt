-- ===== src/Syscall/Exit/BlockedRound.antt =====
-- KernelExit: one round of its pass over the blocked queue, and what the whole pass does.
use yalnix_implementation.Base.{
  ℕ, suc, ◌≡◌, ◌≢◌, refl, ◌==◌, if◌then◌else◌, Bool, false, not, ◌&&◌, ◌||◌, Option, none, some,
  List, [], ◌∷◌, ◌++◌, arith, ==-ne, eq_int,
}
use yalnix_implementation.Hardware.{Ptr, null}
use yalnix_implementation.Kernel.{
  Kernel, Pcb, QueueId, eq_queue, ready, blocked_wait, blocked, put, put_queue, load_pcb,
  update_pcb, queue_pop,
}
use yalnix_implementation.Kernel.Processes.{queue_add-append}
use yalnix_implementation.Census.{Missing, Present}
use yalnix_implementation.Syscall.Exit.Queued.{OnlyQueued}
use yalnix_implementation.Syscall.Exit.{waits_for, notify, exit_blocked}

-- where the code puts a process
abbrev pub goes_to : Pcb → Pcb → QueueId
goes_to me p = if waits_for p me then ready else blocked

-- the process is the parent of `me`, and does not wait for it
abbrev pub is_busy_parent : Pcb → Pcb → Bool
is_busy_parent me p = (p.pid == me.ppid) && not (eq_int p.blocked_code blocked_wait)

-- one round
abbrev pub notified : Kernel → Ptr → Pcb → Pcb → List Ptr → Kernel
notified k x me p rest =
    let q = put_queue k.queues blocked rest in
    record k {
      queues = put_queue q (goes_to me p) (q (goes_to me p) ++ x ∷ []);
      memory = record k.memory { mallocs = suc k.memory.mallocs };
      pcbs = put k.pcbs x (some (notify me p));
    }

pub exit_blocked-notified :
    (k : Kernel) (n : ℕ) (z : Bool) (x : Ptr) (me p : Pcb) (rest : List Ptr)
    → k.active_pcb ≢ null
    → k.pcbs k.active_pcb ≡ some me
    → x ≢ null
    → x ≢ k.active_pcb
    → k.pcbs x ≡ some p
    → k.queues blocked ≡ x ∷ rest
    → k.memory.malloc k.memory.mallocs ≢ null
    → exit_blocked (suc n) z k ≡ exit_blocked n (z || is_busy_parent me p) (notified k x me p rest)
unfolding exit_blocked load_pcb update_pcb queue_pop
exit_blocked-notified k n z x me p rest live me-at x-live x-other x-at waiting room =
    let k1 = record k {
      queues = put_queue k.queues blocked rest;
      pcbs = put k.pcbs x (some (notify me p));
    } in
    ground (arith, queue_add-append k1 (goes_to me p) x x-live room)

-- the processes whose id is `me`'s parent's and that are blocked in KernelWait, and the others, each in
-- their order
abbrev pub waits_at : Pcb → Option Pcb → Bool
waits_at me none = false
waits_at me (some p) = eq_int p.blocked_code blocked_wait && (p.pid == me.ppid)

abbrev pub woken : Pcb → List Ptr → (Ptr → Option Pcb) → List Ptr
woken me [] pcbs = []
woken me (x ∷ xs) pcbs =
    let rest = woken me xs pcbs in if waits_at me (pcbs x) then x ∷ rest else rest

abbrev pub asleep : Pcb → List Ptr → (Ptr → Option Pcb) → List Ptr
asleep me [] pcbs = []
asleep me (x ∷ xs) pcbs =
    let rest = asleep me xs pcbs in if waits_at me (pcbs x) then rest else x ∷ rest

abbrev pub busy_at : Pcb → Option Pcb → Bool
busy_at me none = false
busy_at me (some p) = is_busy_parent me p

abbrev pub has_busy_parent : Pcb → List Ptr → (Ptr → Option Pcb) → Bool
has_busy_parent me [] pcbs = false
has_busy_parent me (x ∷ xs) pcbs = busy_at me (pcbs x) || has_busy_parent me xs pcbs

-- What the pass over the processes `xs` at the front of the blocked queue does, where `ys` stand behind them.
pub record Notified (me : Pcb) (k : Kernel) (xs ys : List Ptr) (z z' : Bool) (k' : Kernel)
    : Type 0 where
  pub rest_same : OnlyQueued k k'
  pub other_queues :
      (q : QueueId)
      → eq_queue q ready ≡ false
      → eq_queue q blocked ≡ false
      → k'.queues q ≡ k.queues q
  pub left : k'.queues blocked ≡ ys ++ asleep me xs k.pcbs
  pub readied : k'.queues ready ≡ k.queues ready ++ woken me xs k.pcbs
  pub told : (x : Ptr) (p : Pcb) → Present x xs → k.pcbs x ≡ some p → k'.pcbs x ≡ some (notify me p)
  pub others : (b : Ptr) → Missing b xs → k'.pcbs b ≡ k.pcbs b
  pub zombie : z' ≡ z || has_busy_parent me xs k.pcbs

-- the flag that the pass ends with
abbrev pub Notifies : Pcb → Kernel → List Ptr → List Ptr → Bool → Option Bool → Kernel → Type 0
Notifies me k xs ys z r k' = (z' : Bool) × (r ≡ some z') × Notified me k xs ys z z' k'

module _ (me : Pcb) (pcbs : Ptr → Option Pcb) (x : Ptr) (q : Option Pcb) where
  pub Missing-woken : (xs : List Ptr) → Missing x xs → woken me xs (put pcbs x q) ≡ woken me xs pcbs
  Missing-woken [] out = refl
  Missing-woken (y ∷ ys) (ne, out) = rw (==-ne y x ne) (rw (Missing-woken ys out) refl)

  pub Missing-asleep :
      (xs : List Ptr) → Missing x xs → asleep me xs (put pcbs x q) ≡ asleep me xs pcbs
  Missing-asleep [] out = refl
  Missing-asleep (y ∷ ys) (ne, out) = rw (==-ne y x ne) (rw (Missing-asleep ys out) refl)

  pub Missing-has_busy_parent :
      (xs : List Ptr)
      → Missing x xs
      → has_busy_parent me xs (put pcbs x q) ≡ has_busy_parent me xs pcbs
  Missing-has_busy_parent [] out = refl
  Missing-has_busy_parent (y ∷ ys) (ne, out) =
      rw (==-ne y x ne) (rw (Missing-has_busy_parent ys out) refl)
