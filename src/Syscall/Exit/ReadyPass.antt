-- ===== src/Syscall/Exit/ReadyPass.antt =====
-- KernelExit: its pass over the ready queue.
use mathlib.Core.Path.{subst}
use yalnix_implementation.Base.{
  ℕ, suc, ◌≡◌, ◌≢◌, refl, sym, ap, ◌∙◌, ◌==◌, if◌then◌else◌, Bool, false, not, ◌&&◌, ◌||◌, Option,
  none, some, List, [], ◌∷◌, ◌++◌, length, arith, inl, inr, ==-refl, ==-ne,
}
use yalnix_implementation.Hardware.{Ptr, null}
use yalnix_implementation.Kernel.{
  Kernel, Pcb, QueueId, eq_queue, ready, Ends, ends, Ends-mono, put, put_queue, load_pcb,
  update_pcb, queue_pop,
}
use yalnix_implementation.Kernel.Processes.{queue_add-append}
use yalnix_implementation.Census.{Missing, Present, AllDifferent}
use yalnix_implementation.Syscall.Exit.Queued.{
  AllThere, OnlyQueued, Missing-there, Present-ne, append_snoc, snoc_append, append_nil,
}
use yalnix_implementation.Syscall.Exit.{exit_ready}

-- a process that loses its parent `me`
abbrev pub orphan : Pcb → Pcb → Pcb
orphan me p = record p { ppid = if p.ppid == me.pid then 0 else p.ppid }

-- the process is the parent of `me`
abbrev pub is_parent : Pcb → Pcb → Bool
is_parent me p = not (p.ppid == me.pid) && (p.pid == me.ppid)

-- one round
abbrev pub passed : Kernel → Ptr → Pcb → Pcb → List Ptr → Kernel
passed k x me p rest = record k {
  queues = put_queue (put_queue k.queues ready rest) ready (rest ++ x ∷ []);
  memory = record k.memory { mallocs = suc k.memory.mallocs };
  pcbs = put k.pcbs x (some (orphan me p));
}

exit_ready-passed :
    (k : Kernel) (n : ℕ) (z : Bool) (x : Ptr) (me p : Pcb) (rest : List Ptr)
    → k.active_pcb ≢ null
    → k.pcbs k.active_pcb ≡ some me
    → x ≢ null
    → x ≢ k.active_pcb
    → k.pcbs x ≡ some p
    → k.queues ready ≡ x ∷ rest
    → k.memory.malloc k.memory.mallocs ≢ null
    → exit_ready (suc n) z k ≡ exit_ready n (z || is_parent me p) (passed k x me p rest)
unfolding exit_ready load_pcb update_pcb queue_pop
exit_ready-passed k n z x me p rest live me-at x-live x-other x-at waiting room =
    let k1 = record k {
      queues = put_queue k.queues ready rest;
      pcbs = put k.pcbs x (some (orphan me p));
    } in
    ground (arith, queue_add-append k1 ready x x-live room)

-- one of the processes is the parent of `me`
abbrev pub has_parent : Pcb → List Ptr → (Ptr → Option Pcb) → Bool
has_parent me [] pcbs = false
has_parent me (x ∷ xs) pcbs =
    (elim (pcbs x) [ none ↦ false | some p ↦ is_parent me p ]) || has_parent me xs pcbs

-- What the pass over the processes `xs` at the front of the ready queue does, where `ys` stand behind them.
pub record PassedOver (me : Pcb) (k : Kernel) (xs ys : List Ptr) (z z' : Bool) (k' : Kernel)
    : Type 0 where
  pub rest_same : OnlyQueued k k'
  pub queue : k'.queues ready ≡ ys ++ xs
  pub other_queues : (q : QueueId) → eq_queue q ready ≡ false → k'.queues q ≡ k.queues q
  pub orphaned :
      (x : Ptr) (p : Pcb) → Present x xs → k.pcbs x ≡ some p → k'.pcbs x ≡ some (orphan me p)
  pub others : (b : Ptr) → Missing b xs → k'.pcbs b ≡ k.pcbs b
  pub zombie : z' ≡ z || has_parent me xs k.pcbs

Missing-has_parent :
    (me : Pcb) (pcbs : Ptr → Option Pcb) (x : Ptr) (q : Option Pcb) (xs : List Ptr)
    → Missing x xs
    → has_parent me xs (put pcbs x q) ≡ has_parent me xs pcbs
Missing-has_parent me pcbs x q [] out = refl
Missing-has_parent me pcbs x q (y ∷ ys) (ne, out) =
    rw (==-ne y x ne) (rw (Missing-has_parent me pcbs x q ys out) refl)

-- the zombie flag that the pass ends with
abbrev pub Passes : Pcb → Kernel → List Ptr → List Ptr → Bool → Option Bool → Kernel → Type 0
Passes me k xs ys z r k' = (z' : Bool) × (r ≡ some z') × PassedOver me k xs ys z z' k'

orphan_same : (me p q : Pcb) → some p ≡ some q → some (orphan me p) ≡ some (orphan me q)
orphan_same me p q same = cc

pass_cons :
    (k : Kernel) (x : Ptr) (xs ys : List Ptr) (z : Bool) (me p : Pcb)
    → Missing x xs
    → k.pcbs x ≡ some p
    → (r : Option Bool) (k' : Kernel)
    → Passes me (passed k x me p (xs ++ ys)) xs (ys ++ x ∷ []) (z || is_parent me p) r k'
    → Passes me k (x ∷ xs) ys z r k'
pass_cons k x xs ys z me p out at r k' (z', ended, pass) = (
  z',
  ended,
  record {
    rest_same = pass.rest_same;
    queue = pass.queue ∙ append_snoc ys xs x;
    other_queues = λ q ne. pass.other_queues q ne ∙ ground arith;
    orphaned = orphaned_cons;
    others = λ b (ne, gone). pass.others b gone ∙ ground arith;
    zombie =
        pass.zombie ∙ ground (arith, Missing-has_parent me k.pcbs x (some (orphan me p)) xs out);
  },
)
  where
    orphaned_cons :
        (y : Ptr) (q : Pcb)
        → Present y (x ∷ xs)
        → k.pcbs y ≡ some q
        → k'.pcbs y ≡ some (orphan me q)
    orphaned_cons y q (inl here) y-at =
        let same : some p ≡ some q = sym at ∙ ap k.pcbs here ∙ y-at in
        ap k'.pcbs (sym here) ∙ pass.others x out ∙ rw (==-refl x) (orphan_same me p q same)
    orphaned_cons y q (inr (ne, there)) y-at =
        pass.orphaned y q there (rw (==-ne y x (Present-ne x y xs out there)) y-at)

exit_ready-front :
    (xs ys : List Ptr) (k : Kernel) (z : Bool) (me : Pcb)
    → k.active_pcb ≢ null
    → k.pcbs k.active_pcb ≡ some me
    → AllThere k xs
    → AllDifferent xs
    → k.queues ready ≡ xs ++ ys
    → ((c : ℕ) → k.memory.malloc c ≢ null)
    → Ends (Passes me k xs ys z) (exit_ready (length xs) z k)
unfolding exit_ready
exit_ready-front [] ys k z me live me-at there apart waiting room = ends (
  z,
  refl,
  record {
    rest_same = refl;
    queue = waiting ∙ append_nil ys;
    other_queues = λ q ne. refl;
    orphaned = λ x p h at. elim h [ ];
    others = λ b out. refl;
    zombie = ground arith;
  },
)
exit_ready-front (x ∷ xs) ys k z me live me-at (x-live, x-other, (p, at), there) (out, apart)
      waiting room =
    let k1 = passed k x me p (xs ++ ys) in
    let ih =
      exit_ready-front xs (ys ++ x ∷ []) k1 (z || is_parent me p) me live
        (rw (==-ne k.active_pcb x (λ same. x-other (sym same))) me-at)
        (Missing-there k x (some (orphan me p)) xs out there) apart (snoc_append xs ys x) room in
    subst (Ends (Passes me k (x ∷ xs) ys z))
      (sym (
        exit_ready-passed k (length xs) z x me p (xs ++ ys) live me-at x-live x-other at waiting
          (room _)))
      (Ends-mono ih (pass_cons k x xs ys z me p out at))

-- Where every process on the ready queue is there once, none is the exiting one, and no allocation
-- fails, KernelExit's pass over that queue leaves it and every other queue as they were, makes
-- each child of the exiting process on it an orphan, changes no other process, and marks the
-- exiting process as a zombie exactly if it was one or its parent is on the queue and not its
-- child.
pub exit_ready-Passes :
    (k : Kernel) (z : Bool) (me : Pcb)
    → k.active_pcb ≢ null
    → k.pcbs k.active_pcb ≡ some me
    → AllThere k (k.queues ready)
    → AllDifferent (k.queues ready)
    → ((c : ℕ) → k.memory.malloc c ≢ null)
    → Ends (Passes me k (k.queues ready) [] z) (exit_ready (length (k.queues ready)) z k)
exit_ready-Passes k z me live me-at there apart room =
    exit_ready-front (k.queues ready) [] k z me live me-at there apart (append_nil (k.queues ready))
      room
