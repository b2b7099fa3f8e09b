-- ===== src/Trap/Clock/Waking.antt =====
-- TrapClockHandler's loop: the processes that it makes ready and those that it leaves blocked are runnable.
use mathlib.Core.Path.{subst}
use mathlib.Core.List.{append-nil, append_assoc}
use yalnix_implementation.Base.{
  ℕ, zero, suc, ◌≡◌, ◌≢◌, refl, sym, ap, ◌∙◌, Option, none, some, List, [], ◌∷◌, ◌++◌, arith, inl,
  inr, Bool,
}
use yalnix_implementation.Hardware.{Ptr, null}
use yalnix_implementation.Kernel.{
  Kernel, Pcb, QueueId, ready, blocked, Ends, ends, Ends-mono, queue_pop,
}
use yalnix_implementation.Process.Runnable.{
  Runnable, AllRunnable, Kept, Kept-trans, Kept-Runnable, Kept-AllRunnable, AllRunnable-append,
  put-ids,
}
use yalnix_implementation.Trap.Clock.{check_pcb, clock_loop}
use yalnix_implementation.Trap.Clock.Round.{
  open_for, looked, check_pcb-cases, clock_loop-none, clock_loop-some, clock_loop-zero,
}

-- The clock handler's loop puts processes behind the ready ones, and leaves runnable ones blocked.
pub record Woken (k : Kernel) (i : ℕ) (k' : Kernel) : Type 0 where
  pub same_active : k'.active_pcb ≡ k.active_pcb
  pub more : List Ptr
  pub line : k'.queues ready ≡ k.queues ready ++ more
  pub more_run : AllRunnable k' i more
  pub sleeping : AllRunnable k' i (k'.queues blocked)
  pub kept : Kept k k'

Kept-refl : (k : Kernel) → Kept k k
Kept-refl k = record {
  same_idle = refl;
  same_malloc = refl;
  ids = λ x p at. (p, at, refl);
  contexts = λ x u at. (u, at);
}

check_pcb-pid : (b : Bool) (p : Pcb) → (check_pcb b p).1.pid ≡ p.pid
unfolding check_pcb
check_pcb-pid b p = ground arith

clock_loop-empty :
    (n : ℕ) (k : Kernel) → k.queues blocked ≡ [] → clock_loop (suc n) k ≡ clock_loop n k
unfolding clock_loop queue_pop
clock_loop-empty n k empty = ground arith

looked-Kept :
    (k : Kernel) (x : Ptr) (rest : List Ptr) (p q : Pcb) (to : Option QueueId)
    → k.pcbs x ≡ some p
    → q.pid ≡ p.pid
    → Kept k (looked k x rest q to)
looked-Kept k x rest p q none at same = record {
  same_idle = refl;
  same_malloc = refl;
  ids = put-ids k.pcbs x p q at same;
  contexts = λ y u there. (u, there);
}
looked-Kept k x rest p q (some to) at same = record {
  same_idle = refl;
  same_malloc = refl;
  ids = put-ids k.pcbs x p q at same;
  contexts = λ y u there. (u, there);
}

-- a round that leaves the ready queue alone, and one that adds a process to it
Woken-same :
    (k k1 k' : Kernel) (i : ℕ)
    → k1.active_pcb ≡ k.active_pcb
    → k1.queues ready ≡ k.queues ready
    → Kept k k1
    → Woken k1 i k'
    → Woken k i k'
Woken-same k k1 k' i active line kept w = record {
  same_active = w.same_active ∙ active;
  more = w.more;
  line = w.line ∙ ap (λ q. q ++ w.more) line;
  more_run = w.more_run;
  sleeping = w.sleeping;
  kept = Kept-trans k k1 k' kept w.kept;
}

Woken-more :
    (k k1 k' : Kernel) (i : ℕ) (x : Ptr)
    → k1.active_pcb ≡ k.active_pcb
    → k1.queues ready ≡ k.queues ready ++ x ∷ []
    → Kept k k1
    → Runnable k1 i x
    → Woken k1 i k'
    → Woken k i k'
Woken-more k k1 k' i x active line kept runs w = record {
  same_active = w.same_active ∙ active;
  more = x ∷ w.more;
  line = w.line ∙ ap (λ q. q ++ w.more) line ∙ append_assoc (k.queues ready) (x ∷ []) w.more;
  more_run = (Kept-Runnable k1 k' i x w.kept runs, w.more_run);
  sleeping = w.sleeping;
  kept = Kept-trans k k1 k' kept w.kept;
}

pub clock_loop-Woken :
    (n : ℕ) (k : Kernel) (i : ℕ) (line : List Ptr)
    → k.queues blocked ≡ line
    → AllRunnable k i line
    → ((c : ℕ) → k.memory.malloc c ≢ null)
    → Ends (λ _ k'. Woken k i k') (clock_loop n k)
clock_loop-Woken zero k i line e all room = rw (clock_loop-zero k) (
    ends (record {
      same_active = refl;
      more = [];
      line = sym (append-nil (k.queues ready));
      more_run = tt;
      sleeping = subst (AllRunnable k i) (sym e) all;
      kept = Kept-refl k;
    }))
clock_loop-Woken (suc n) k i [] e all room =
    rw (clock_loop-empty n k e) (clock_loop-Woken n k i [] e all room)
clock_loop-Woken (suc n) k i (x ∷ xs) e ((live, (p, at, other), context), all) room =
    let b = open_for k.tty_write_trackers p in
    let q = (check_pcb b p).1 in
    let same = check_pcb-pid b p in
    let runs : Runnable k i x = (live, (p, at, other), context) in
    elim (check_pcb-cases b p) [
      | inl to ↦
          let k1 = looked k x xs q (some blocked) in
          let kept = looked-Kept k x xs p q (some blocked) at same in
          rw (clock_loop-some n k x p xs e live at blocked (room _) to) (
            Ends-mono
              (clock_loop-Woken n k1 i (xs ++ x ∷ []) refl
                (AllRunnable-append k1 i xs (x ∷ []) (Kept-AllRunnable k k1 i xs kept all)
                  (Kept-Runnable k k1 i x kept runs, tt))
                room)
              (λ _ k' w. Woken-same k k1 k' i refl refl kept w))
      | inr (inl to) ↦
          let k1 = looked k x xs q (some ready) in
          let kept = looked-Kept k x xs p q (some ready) at same in
          rw (clock_loop-some n k x p xs e live at ready (room _) to) (
            Ends-mono (clock_loop-Woken n k1 i xs refl (Kept-AllRunnable k k1 i xs kept all) room)
              (λ _ k' w.
                Woken-more k k1 k' i x refl refl kept (Kept-Runnable k k1 i x kept runs) w))
      | inr (inr to) ↦
          let k1 = looked k x xs q none in
          let kept = looked-Kept k x xs p q none at same in
          rw (clock_loop-none n k x p xs e live at to) (
            Ends-mono (clock_loop-Woken n k1 i xs refl (Kept-AllRunnable k k1 i xs kept all) room)
              (λ _ k' w. Woken-same k k1 k' i refl refl kept w))
    ]
