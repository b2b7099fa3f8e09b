-- ===== src/Syscall/Exit/DefunctPass.antt =====
-- KernelExit: its pass over the defunct queue.
use mathlib.Core.Path.{subst}
use yalnix_implementation.Base.{
  ℕ, suc, ◌≡◌, ◌≢◌, refl, sym, ◌∙◌, ◌==◌, if◌then◌else◌, Bool, true, false, Bool-cases, Option,
  none, some, List, [], ◌∷◌, ◌++◌, length, arith, inl, inr,
}
use yalnix_implementation.Hardware.{Ptr, null}
use yalnix_implementation.Kernel.{
  Kernel, Pcb, QueueId, eq_queue, defunct, Ends, ends, Ends-mono, load_pcb, queue_pop, set_queue,
  count_malloc,
}
use yalnix_implementation.Kernel.Processes.{queue_add-append}
use yalnix_implementation.Syscall.Exit.Queued.{
  AllThere, OnlyQueued, append_snoc, snoc_append, append_nil,
}
use yalnix_implementation.Syscall.Exit.{exit_defunct}

-- the defunct processes that are no children of `me`, in their order
abbrev pub is_child_at : Pcb → Option Pcb → Bool
is_child_at me none = false
is_child_at me (some p) = p.ppid == me.pid

abbrev pub survivors : Pcb → List Ptr → (Ptr → Option Pcb) → List Ptr
survivors me [] pcbs = []
survivors me (x ∷ xs) pcbs =
    let rest = survivors me xs pcbs in if is_child_at me (pcbs x) then rest else x ∷ rest

-- one round, for a child and for another process
abbrev dropped : Kernel → List Ptr → Kernel
dropped k rest = set_queue defunct rest k

abbrev kept_on : Kernel → Ptr → List Ptr → Kernel
kept_on k x rest =
    let k1 = count_malloc (dropped k rest) in set_queue defunct (k1.queues defunct ++ x ∷ []) k1

module _ (k : Kernel) (n : ℕ) (x : Ptr) (me p : Pcb) (rest : List Ptr) (live : k.active_pcb ≢ null)
    (me-at : k.pcbs k.active_pcb ≡ some me) (x-live : x ≢ null) (x-at : k.pcbs x ≡ some p)
    (waiting : k.queues defunct ≡ x ∷ rest) where
  exit_defunct-dropped :
      (p.ppid == me.pid) ≡ true → exit_defunct (suc n) k ≡ exit_defunct n (dropped k rest)
  unfolding exit_defunct load_pcb queue_pop
  exit_defunct-dropped child = ground arith

  exit_defunct-kept :
      (p.ppid == me.pid) ≡ false
      → k.memory.malloc k.memory.mallocs ≢ null
      → exit_defunct (suc n) k ≡ exit_defunct n (kept_on k x rest)
  unfolding exit_defunct load_pcb queue_pop
  exit_defunct-kept other room =
      ground (arith, queue_add-append (dropped k rest) defunct x x-live room)

-- What the pass over the processes `xs` at the front of the defunct queue does, where `ys` stand behind them.
pub record Cleared (me : Pcb) (k : Kernel) (xs ys : List Ptr) (k' : Kernel) : Type 0 where
  pub rest_same : OnlyQueued k k'
  pub same_pcbs : k'.pcbs ≡ k.pcbs
  pub other_queues : (q : QueueId) → eq_queue q defunct ≡ false → k'.queues q ≡ k.queues q
  pub left : k'.queues defunct ≡ ys ++ survivors me xs k.pcbs

abbrev pub Clears : Pcb → Kernel → List Ptr → List Ptr → Option Bool → Kernel → Type 0
Clears me k xs ys r k' = (r ≡ some true) × Cleared me k xs ys k'

Clears-dropped :
    (k : Kernel) (x : Ptr) (xs ys : List Ptr) (me p : Pcb)
    → k.pcbs x ≡ some p
    → (p.ppid == me.pid) ≡ true
    → (r : Option Bool) (k' : Kernel) → Clears me (dropped k (xs ++ ys)) xs ys r k'
    → Clears me k (x ∷ xs) ys r k'
Clears-dropped k x xs ys me p at child r k' (ended, c) = (
  ended,
  record {
    rest_same = c.rest_same;
    same_pcbs = c.same_pcbs;
    other_queues = λ q ne. c.other_queues q ne ∙ ground arith;
    left = c.left ∙ ground arith;
  },
)

Clears-kept :
    (k : Kernel) (x : Ptr) (xs ys : List Ptr) (me p : Pcb)
    → k.pcbs x ≡ some p
    → (p.ppid == me.pid) ≡ false
    → (r : Option Bool) (k' : Kernel) → Clears me (kept_on k x (xs ++ ys)) xs (ys ++ x ∷ []) r k'
    → Clears me k (x ∷ xs) ys r k'
Clears-kept k x xs ys me p at other r k' (ended, c) = (
  ended,
  record {
    rest_same = c.rest_same;
    same_pcbs = c.same_pcbs;
    other_queues = λ q ne. c.other_queues q ne ∙ ground arith;
    left = c.left ∙ ground (arith, append_snoc ys (survivors me xs k.pcbs) x);
  },
)

exit_defunct-front :
    (xs ys : List Ptr) (k : Kernel) (me : Pcb)
    → k.active_pcb ≢ null
    → k.pcbs k.active_pcb ≡ some me
    → AllThere k xs
    → k.queues defunct ≡ xs ++ ys
    → ((c : ℕ) → k.memory.malloc c ≢ null)
    → Ends (Clears me k xs ys) (exit_defunct (length xs) k)
unfolding exit_defunct
exit_defunct-front [] ys k me live me-at there waiting room = ends (
  refl,
  record {
    rest_same = refl;
    same_pcbs = refl;
    other_queues = λ q ne. refl;
    left = waiting ∙ append_nil ys;
  },
)
exit_defunct-front (x ∷ xs) ys k me live me-at (x-live, x-other, (p, at), there) waiting room =
    elim (Bool-cases (p.ppid == me.pid)) [
      | inl child ↦
          subst (Ends (Clears me k (x ∷ xs) ys))
            (sym (
              exit_defunct-dropped k (length xs) x me p (xs ++ ys) live me-at x-live at waiting
                child))
            (Ends-mono
              (exit_defunct-front xs ys (dropped k (xs ++ ys)) me live me-at there refl room)
              (Clears-dropped k x xs ys me p at child))
      | inr other ↦
          subst (Ends (Clears me k (x ∷ xs) ys))
            (sym (
              exit_defunct-kept k (length xs) x me p (xs ++ ys) live me-at x-live at waiting other
                (room _)))
            (Ends-mono
              (exit_defunct-front xs (ys ++ x ∷ []) (kept_on k x (xs ++ ys)) me live me-at there
                (snoc_append xs ys x) room)
              (Clears-kept k x xs ys me p at other))
    ]

-- Where every process on the defunct queue is there and none is the exiting one, and no allocation
-- fails, KernelExit's pass over that queue drops the children of the exiting process and leaves the
-- others on it in their order; nothing else changes.
pub exit_defunct-Clears :
    (k : Kernel) (me : Pcb)
    → k.active_pcb ≢ null
    → k.pcbs k.active_pcb ≡ some me
    → AllThere k (k.queues defunct)
    → ((c : ℕ) → k.memory.malloc c ≢ null)
    → Ends (Clears me k (k.queues defunct) []) (exit_defunct (length (k.queues defunct)) k)
exit_defunct-Clears k me live me-at there room =
    exit_defunct-front (k.queues defunct) [] k me live me-at there (append_nil (k.queues defunct))
      room
