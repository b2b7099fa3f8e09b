-- ===== src/Process/Switched.antt =====
-- SwapProcess as a whole: which process runs next, and where the one that ran goes.
use mathlib.Core.Path.{subst}
use mathlib.Core.List.{append-nil}
use yalnix_implementation.Base.{
  suc, ◌+◌, ◌≤◌, ◌≡◌, ◌≢◌, refl, sym, ap, ◌∙◌, ◌==◌, if◌then◌else◌, true, false, Option, none, some,
  List, [], ◌∷◌, ◌++◌, arith, length, ==-refl, inl, inr, Bool-cases,
}
use yalnix_implementation.Hardware.{Ptr, null, UserContext, kernel_stack_page}
use yalnix_implementation.Kernel.{
  Kernel, Pcb, QueueId, eq_queue, ready, put, put_queue, ok, Ends, ends, load_pcb, update_pcb,
  queue_add, queue_pop,
}
use yalnix_implementation.ContextSwitch.{map_stack, kc_switch, kernel_context_switch}
use yalnix_implementation.Process.Switch.{swapped, switch_from, swap_process}
use yalnix_implementation.Process.KernelStack.{
  IsOnStack, SameOffStack, map_stack-IsOnStack, map_stack-SameOffStack,
}

-- the oldest of the processes, or the idle one, and the others
abbrev pub heir : List Ptr → Ptr → Ptr
heir [] idle = idle
heir (n ∷ rest) idle = n

abbrev pub behind_heir : List Ptr → List Ptr
behind_heir [] = []
behind_heir (n ∷ rest) = rest

-- The idle process goes to no queue.
abbrev pub bound_for : Pcb → Pcb → Option QueueId → Option QueueId
bound_for p idle move = if p.pid == idle.pid then none else move

-- The running process `p` can be switched away: a process other than it is to run next, and its
-- kernel stack fits in region 0's table.
pub record Switching (k : Kernel) (p next idle : Pcb) (u : UserContext) : Type 0 where
  pub live : k.active_pcb ≢ null
  pub holds : k.pcbs k.active_pcb ≡ some p
  pub idle_live : k.idle_pcb ≢ null
  pub idle_holds : k.pcbs k.idle_pcb ≡ some idle
  pub next_live : heir (k.queues ready) k.idle_pcb ≢ null
  pub other : heir (k.queues ready) k.idle_pcb ≢ k.active_pcb
  pub next_holds : k.pcbs (heir (k.queues ready) k.idle_pcb) ≡ some next
  pub context : k.uctxt k.active_pcb ≡ some u
  pub not_staying : p.pid ≡ idle.pid → k.queues ready ≢ []
  pub room : k.memory.malloc k.memory.mallocs ≢ null
  pub table : kernel_stack_page + length next.kernel_stack_pt ≤ length k.k_pt

-- the processes that `a` brings to a queue, where it moves to `move`
abbrev pub arrivals : Option QueueId → Ptr → QueueId → List Ptr
arrivals none a x = []
arrivals (some q) a x = if eq_queue x q then a ∷ [] else []

-- The next process runs, and `p` can be switched back to; `move` is the queue that it goes to.
pub record Switched (k : Kernel) (move : Option QueueId) (p next : Pcb) (u : UserContext)
    (k' : Kernel) : Type 0 where
  pub runs : k'.active_pcb ≡ heir (k.queues ready) k.idle_pcb
  pub own_table : k'.ptbr1 ≡ heir (k.queues ready) k.idle_pcb
  pub own_context : k'.kernel_context ≡ next.kernel_context
  pub own_stack : IsOnStack next.kernel_stack_pt k'.k_pt
  pub off_stack : SameOffStack (length next.kernel_stack_pt) k.k_pt k'.k_pt
  pub kept :
      k'.pcbs k.active_pcb
      ≡ some (record p {
        user_context = record p.user_context { sp = u.sp; pc = u.pc };
        kernel_context = k.kernel_context;
      })
  pub other_pcbs : (b : Ptr) → b ≢ k.active_pcb → k'.pcbs b ≡ k.pcbs b
  pub ready_queue :
      k'.queues ready ≡ behind_heir (k.queues ready) ++ arrivals move k.active_pcb ready
  pub other_queues :
      (x : QueueId)
      → eq_queue x ready ≡ false
      → k'.queues x ≡ k.queues x ++ arrivals move k.active_pcb x
  pub frames : k'.memory.pfn_list ≡ k.memory.pfn_list
  pub contexts : k'.uctxt ≡ k.uctxt

eq_queue→eq : (x q : QueueId) → eq_queue x q ≡ true → x ≡ q
eq_queue→eq x q e = ground arith

-- the state, where `base` are the queues without the next process
abbrev moved : Kernel → (QueueId → List Ptr) → Option QueueId → Kernel
moved k base none = record k { queues = base }
moved k base (some q) = record k {
  queues = put_queue base q (base q ++ k.active_pcb ∷ []);
  memory = record k.memory { mallocs = suc k.memory.mallocs };
}

abbrev end_state :
    Kernel → (QueueId → List Ptr) → Option QueueId → Ptr → Pcb → Pcb → UserContext → Kernel
end_state k base move n p next u =
    let stopped = record p { user_context = record p.user_context { sp = u.sp; pc = u.pc } } in
    let a = k.active_pcb in
    record (moved k base move) {
      pcbs =
          put (put k.pcbs a (some stopped)) a
            (some (record stopped { kernel_context = k.kernel_context }));
      ptbr1 = n;
      active_pcb = n;
      k_pt = map_stack kernel_stack_page next.kernel_stack_pt k.k_pt;
      kernel_context = next.kernel_context;
    }

-- the queues without the next process
abbrev without_heir : (QueueId → List Ptr) → List Ptr → QueueId → List Ptr
without_heir queues [] = queues
without_heir queues (n ∷ rest) = put_queue queues ready rest

module _ (k : Kernel) (p next : Pcb) (u : UserContext) where
  switch_from-end_state :
      (move : Option QueueId) (waiting : List Ptr)
      → k.queues ready ≡ waiting
      → k.active_pcb ≢ null
      → k.pcbs k.active_pcb ≡ some p
      → k.uctxt k.active_pcb ≡ some u
      → heir waiting k.idle_pcb ≢ null
      → heir waiting k.idle_pcb ≢ k.active_pcb
      → k.pcbs (heir waiting k.idle_pcb) ≡ some next
      → k.memory.malloc k.memory.mallocs ≢ null
      → switch_from k.active_pcb move k
        ≡ ok swapped
            (end_state k (without_heir k.queues waiting) move (heir waiting k.idle_pcb) p next u)
  unfolding switch_from load_pcb update_pcb queue_add queue_pop kc_switch kernel_context_switch
  switch_from-end_state none [] e live at context next-live other next-at room = ground arith
  switch_from-end_state none (n ∷ rest) e live at context next-live other next-at room =
      ground arith
  switch_from-end_state (some q) [] e live at context next-live other next-at room = ground arith
  switch_from-end_state (some q) (n ∷ rest) e live at context next-live other next-at room =
      ground arith

  swap_process-switch_from :
      (move : Option QueueId) (idle : Pcb) (waiting : List Ptr)
      → k.queues ready ≡ waiting
      → k.active_pcb ≢ null
      → k.pcbs k.active_pcb ≡ some p
      → k.idle_pcb ≢ null
      → k.pcbs k.idle_pcb ≡ some idle
      → k.uctxt k.active_pcb ≡ some u
      → (p.pid ≡ idle.pid → waiting ≢ [])
      → swap_process move k ≡ switch_from k.active_pcb (bound_for p idle move) k
  unfolding swap_process load_pcb
  swap_process-switch_from move idle [] e live at idle-live idle-at context going =
      ground (arith, going)
  swap_process-switch_from move idle (n ∷ rest) e live at idle-live idle-at context going =
      ground arith

  without_heir-ready :
      (waiting : List Ptr)
      → k.queues ready ≡ waiting
      → without_heir k.queues waiting ready ≡ behind_heir waiting
  without_heir-ready [] e = e
  without_heir-ready (n ∷ rest) e = refl

  without_heir-other :
      (waiting : List Ptr) (x : QueueId)
      → eq_queue x ready ≡ false
      → without_heir k.queues waiting x ≡ k.queues x
  without_heir-other [] x other = refl
  without_heir-other (n ∷ rest) x other = rw other refl

  moved-queues :
      (base : QueueId → List Ptr) (move : Option QueueId) (x : QueueId)
      → (moved k base move).queues x ≡ base x ++ arrivals move k.active_pcb x
  moved-queues base none x = sym (append-nil (base x))
  moved-queues base (some q) x = elim (Bool-cases (eq_queue x q)) [
    | inl e ↦ rw e (ap (λ y. base y ++ k.active_pcb ∷ []) (sym (eq_queue→eq x q e)))
    | inr e ↦ rw e (sym (append-nil (base x)))
  ]

  moved-frames :
      (base : QueueId → List Ptr) (move : Option QueueId)
      → (moved k base move).memory.pfn_list ≡ k.memory.pfn_list
  moved-frames base none = refl
  moved-frames base (some q) = refl

  moved-contexts :
      (base : QueueId → List Ptr) (move : Option QueueId) → (moved k base move).uctxt ≡ k.uctxt
  moved-contexts base none = refl
  moved-contexts base (some q) = refl

  end_state-Switched :
      (move : Option QueueId) (waiting : List Ptr)
      → k.queues ready ≡ waiting
      → kernel_stack_page + length next.kernel_stack_pt ≤ length k.k_pt
      → Switched k move p next u
          (end_state k (without_heir k.queues waiting) move (heir waiting k.idle_pcb) p next u)
  end_state-Switched move waiting e table =
      let base = without_heir k.queues waiting in
      record {
        runs = ap (λ xs. heir xs k.idle_pcb) (sym e);
        own_table = ap (λ xs. heir xs k.idle_pcb) (sym e);
        own_context = refl;
        own_stack = map_stack-IsOnStack next.kernel_stack_pt k.k_pt table;
        off_stack = map_stack-SameOffStack next.kernel_stack_pt k.k_pt;
        kept = rw (==-refl k.active_pcb) refl;
        other_pcbs = λ b other. ground arith;
        ready_queue =
            moved-queues base move ready
            ∙ ap (λ xs. xs ++ arrivals move k.active_pcb ready)
                (without_heir-ready waiting e ∙ ap behind_heir (sym e));
        other_queues = λ x other.
            moved-queues base move x
            ∙ ap (λ xs. xs ++ arrivals move k.active_pcb x) (without_heir-other waiting x other);
        frames = moved-frames base move;
        contexts = moved-contexts base move;
      }

-- If the PCBs of the running process, of the idle process and of the one that is to run next are
-- there, the running one has a user context, a queue node can be allocated, the running one is not
-- the idle process where no process is ready, and the next process is another one, for whose
-- kernel stack region 0's table has room, SwapProcess ends with a switch: the oldest ready process
-- runs, or the idle one where none is ready, with its own page table and kernel context, and each
-- entry of its kernel stack is at its place in region 0's table, which is as it was elsewhere; the
-- process that ran stands last on the queue it is moved to, or on none if it is the idle process
-- or is moved to none; its PCB keeps the registers of its trap and its kernel context; no other
-- process moves but the one that runs, and no other PCB, user context or free frame changes.
pub swap_process-Switched :
    (k : Kernel) (move : Option QueueId) (p next idle : Pcb) (u : UserContext)
    → Switching k p next idle u
    → Ends
        (λ r k'. (r ≡ swapped) × Switched k (bound_for p idle move) p next u k')
        (swap_process move k)
swap_process-Switched k move p next idle u h =
    let to = bound_for p idle move in
    subst (Ends (λ r k'. (r ≡ swapped) × Switched k to p next u k'))
      (sym (
        swap_process-switch_from k p next u move idle (k.queues ready) refl h.live h.holds
          h.idle_live h.idle_holds h.context h.not_staying
        ∙ switch_from-end_state k p next u to (k.queues ready) refl h.live h.holds h.context
            h.next_live h.other h.next_holds h.room))
      (ends (refl, end_state-Switched k p next u to (k.queues ready) refl h.table))
