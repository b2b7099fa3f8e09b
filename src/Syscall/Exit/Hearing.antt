-- ===== src/Syscall/Exit/Hearing.antt =====
-- KernelExit: what becomes of the processes on the blocked queue.
use mathlib.Core.Path.{subst}
use yalnix_implementation.Base.{
  ◌≡◌, ◌≢◌, refl, sym, ap, ◌∙◌, true, false, Option, some, List, [], ◌∷◌, ◌++◌, arith, inl, inr,
  Bool-cases, ==→eq, ◌==◌, dec, eq_int→eq,
}
use yalnix_implementation.Hardware.{Ptr}
use yalnix_implementation.Kernel.{Kernel, Pcb, ready, blocked, blocked_wait}
use yalnix_implementation.Census.{Present}
use yalnix_implementation.Syscall.Exit.{waits_for, notify}
use yalnix_implementation.Syscall.Exit.BlockedRound.{waits_at, woken, asleep}

-- The processes that are blocked in `k` when `me` exits: its parent, if it waits in KernelWait, gets
-- the exit code, counts a child less and becomes ready; a parent that is blocked otherwise stays as
-- it is; a child that is not the parent becomes an orphan; any other process stays as it is.
pub record Heard (me : Pcb) (k k' : Kernel) : Type 0 where
  pub waiting :
      (x : Ptr) (p : Pcb)
      → Present x (k.queues blocked)
      → k.pcbs x ≡ some p
      → p.pid ≡ me.ppid
      → p.blocked_code ≡ blocked_wait
      → Present x (k'.queues ready)
        × (k'.pcbs x
            ≡ some (record p { blocked_code = me.exit_code; num_children = dec p.num_children }))
  pub busy :
      (x : Ptr) (p : Pcb)
      → Present x (k.queues blocked)
      → k.pcbs x ≡ some p
      → p.pid ≡ me.ppid
      → p.blocked_code ≢ blocked_wait
      → Present x (k'.queues blocked) × (k'.pcbs x ≡ some p)
  pub child :
      (x : Ptr) (p : Pcb)
      → Present x (k.queues blocked)
      → k.pcbs x ≡ some p
      → p.pid ≢ me.ppid
      → p.ppid ≡ me.pid
      → Present x (k'.queues blocked) × (k'.pcbs x ≡ some (record p { ppid = 0 }))
  pub stranger :
      (x : Ptr) (p : Pcb)
      → Present x (k.queues blocked)
      → k.pcbs x ≡ some p
      → p.pid ≢ me.ppid
      → p.ppid ≢ me.pid
      → Present x (k'.queues blocked) × (k'.pcbs x ≡ some p)

waits_at-some : (me p : Pcb) → waits_at me (some p) ≡ waits_for p me
waits_at-some me p = ground arith

Present-woken :
    (me p : Pcb) (x : Ptr) (xs : List Ptr) (pcbs : Ptr → Option Pcb)
    → Present x xs
    → pcbs x ≡ some p
    → waits_for p me ≡ true
    → Present x (woken me xs pcbs)
Present-woken me p x [] pcbs there at waits = elim there [ ]
Present-woken me p x (y ∷ ys) pcbs (inl here) at waits =
    rw here (rw at (rw (waits_at-some me p ∙ waits) (inl refl)))
Present-woken me p x (y ∷ ys) pcbs (inr (ne, later)) at waits =
    let ih = Present-woken me p x ys pcbs later at waits in
    elim (Bool-cases (waits_at me (pcbs y))) [ inl e ↦ rw e (inr (ne, ih)) | inr e ↦ rw e ih ]

Present-asleep :
    (me p : Pcb) (x : Ptr) (xs : List Ptr) (pcbs : Ptr → Option Pcb)
    → Present x xs
    → pcbs x ≡ some p
    → waits_for p me ≡ false
    → Present x (asleep me xs pcbs)
Present-asleep me p x [] pcbs there at waits = elim there [ ]
Present-asleep me p x (y ∷ ys) pcbs (inl here) at waits =
    rw here (rw at (rw (waits_at-some me p ∙ waits) (inl refl)))
Present-asleep me p x (y ∷ ys) pcbs (inr (ne, later)) at waits =
    let ih = Present-asleep me p x ys pcbs later at waits in
    elim (Bool-cases (waits_at me (pcbs y))) [ inl e ↦ rw e ih | inr e ↦ rw e (inr (ne, ih)) ]

pub Present-append_right : (x : Ptr) (xs ys : List Ptr) → Present x ys → Present x (xs ++ ys)
Present-append_right x [] ys there = there
Present-append_right x (z ∷ zs) ys there = elim (Bool-cases (z == x)) [
  | inl here ↦ inl (==→eq z x here)
  | inr apart ↦ inr ((λ same. ground arith), Present-append_right x zs ys there)
]

waits_for-parent :
    (me p : Pcb) → p.pid ≡ me.ppid → p.blocked_code ≡ blocked_wait → waits_for p me ≡ true
waits_for-parent me p same code = rw code (ground arith)

waits_for-busy : (me p : Pcb) → p.blocked_code ≢ blocked_wait → waits_for p me ≡ false
waits_for-busy me p other = ground (arith, eq_int→eq p.blocked_code blocked_wait)

waits_for-other : (me p : Pcb) → p.pid ≢ me.ppid → waits_for p me ≡ false
waits_for-other me p other = ground arith

notify-waiting :
    (me p : Pcb)
    → waits_for p me ≡ true
    → notify me p ≡ record p { blocked_code = me.exit_code; num_children = dec p.num_children }
notify-waiting me p waits = rw waits refl

notify-busy : (me p : Pcb) → waits_for p me ≡ false → p.pid ≡ me.ppid → notify me p ≡ p
notify-busy me p idle same = ground arith

notify-child :
    (me p : Pcb)
    → waits_for p me ≡ false
    → p.pid ≢ me.ppid
    → p.ppid ≡ me.pid
    → notify me p ≡ record p { ppid = 0 }
notify-child me p idle other same = ground arith

notify-stranger :
    (me p : Pcb) → waits_for p me ≡ false → p.pid ≢ me.ppid → p.ppid ≢ me.pid → notify me p ≡ p
notify-stranger me p idle other apart = ground arith

-- what the queues and the PCBs say together
pub Heard-told :
    (me : Pcb) (k k' : Kernel) (front : List Ptr)
    → k'.queues ready ≡ front ++ woken me (k.queues blocked) k.pcbs
    → k'.queues blocked ≡ asleep me (k.queues blocked) k.pcbs
    → ((x : Ptr) (p : Pcb)
        → Present x (k.queues blocked)
        → k.pcbs x ≡ some p
        → k'.pcbs x ≡ some (notify me p))
    → Heard me k k'
Heard-told me k k' front on_ready on_blocked told =
    let stays : (x : Ptr) (p : Pcb)
        → Present x (k.queues blocked)
        → k.pcbs x ≡ some p
        → waits_for p me ≡ false
        → Present x (k'.queues blocked) =
      λ x p there at idle.
        subst (Present x) (sym on_blocked)
          (Present-asleep me p x (k.queues blocked) k.pcbs there at idle) in
    record {
      waiting = λ x p there at same code.
          let waits = waits_for-parent me p same code in
          (
            subst (Present x) (sym on_ready) (
                Present-append_right x front (woken me (k.queues blocked) k.pcbs)
                  (Present-woken me p x (k.queues blocked) k.pcbs there at waits)),
            told x p there at ∙ ap some (notify-waiting me p waits),
          );
      busy = λ x p there at same code.
          let idle = waits_for-busy me p code in
          (stays x p there at idle, told x p there at ∙ ap some (notify-busy me p idle same));
      child = λ x p there at other same.
          let idle = waits_for-other me p other in
          (
            stays x p there at idle,
            told x p there at ∙ ap some (notify-child me p idle other same),
          );
      stranger = λ x p there at other apart.
          let idle = waits_for-other me p other in
          (
            stays x p there at idle,
            told x p there at ∙ ap some (notify-stranger me p idle other apart),
          );
    }
