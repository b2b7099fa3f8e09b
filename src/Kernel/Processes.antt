-- ===== src/Kernel/Processes.antt =====
-- One PCB of the state changed, over and over: the changes at one address are one change.
use mathlib.Core.Path.{fun_ext}
use yalnix_implementation.Base.{◌≡◌, ◌≢◌, refl, ap, some, pos, [], ◌∷◌, ◌++◌, arith, ==-refl, ==-ne}
use yalnix_implementation.Hardware.{Ptr, null}
use yalnix_implementation.Frames.{Memory}
use yalnix_implementation.Kernel.State.{Kernel, Pcb, QueueId, put}
use yalnix_implementation.Kernel.Commands.{
  ok, load_pcb, update_pcb, queue_add, set_queue, count_malloc,
}

-- the state with another PCB at the address, and another memory
abbrev pub with_process : Kernel → Ptr → Pcb → Memory → Kernel
with_process k a p m = record k { pcbs = put k.pcbs a (some p); memory = m }

pub put-put :
    (k : Kernel) (a : Ptr) (p q : Pcb)
    → put (put k.pcbs a (some p)) a (some q) ≡ put k.pcbs a (some q)
put-put k a p q = fun_ext λ b. ground arith

pub put-same : (k : Kernel) (a : Ptr) (p : Pcb) → k.pcbs a ≡ some p → put k.pcbs a (some p) ≡ k.pcbs
put-same k a p at = fun_ext λ b. ground arith

pub update-with :
    (k : Kernel) (a : Ptr) (f : Pcb → Pcb) (p : Pcb) (m : Memory)
    → a ≢ null
    → update_pcb a f (with_process k a p m) ≡ ok tt (with_process k a (f p) m)
unfolding update_pcb
update-with k a f p m live =
    rw (==-ne a null live, update_pcb)
      (rw (==-refl a) (ap (λ h. ok tt (record k { pcbs = h; memory = m })) (put-put k a p (f p))))

pub load-with :
    (k : Kernel) (a : Ptr) (p : Pcb) (m : Memory)
    → a ≢ null
    → load_pcb a (with_process k a p m) ≡ ok p (with_process k a p m)
unfolding load_pcb
load-with k a p m live = rw (==-ne a null live, load_pcb) (rw (==-refl a) refl)

-- queue_add of a process to one of the queues, where a node can be allocated
pub queue_add-append :
    (k : Kernel) (q : QueueId) (a : Ptr)
    → a ≢ null
    → k.memory.malloc k.memory.mallocs ≢ null
    → queue_add (some q) a k ≡ ok (pos 0) (set_queue q (k.queues q ++ a ∷ []) (count_malloc k))
unfolding queue_add
queue_add-append k q a live room = ground arith
