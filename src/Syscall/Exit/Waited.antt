-- ===== src/Syscall/Exit/Waited.antt =====
-- KernelExit of a child, and KernelWait of its parent: the way of the exit code.
use mathlib.Core.Path.{subst}
use yalnix_implementation.Base.{
  ℕ, ◌≡◌, ◌≢◌, refl, sym, ap, ◌∙◌, false, Bool-cases, Option, some, List, [], ◌∷◌, ◌++◌, ℤ, pos,
  dec, eq_int, arith, inl, inr,
}
use yalnix_implementation.Hardware.{Ptr, null, UserContext}
use yalnix_implementation.Kernel.{
  Kernel, Pcb, ready, blocked, defunct, M, ◌>>=◌, ok, Ends, ends, Ends-mono, Ends-bind, put,
  load_pcb, int_at, Outcome, returns,
}
use yalnix_implementation.Census.{Missing, Present}
use yalnix_implementation.Process.{swap_return}
use yalnix_implementation.Process.SwitchLaws.{saved}
use yalnix_implementation.Syscall.Basic.{kernel_wait}
use yalnix_implementation.Syscall.Basic.Reaping.{NoChild, kernel_wait-Reaped}
use yalnix_implementation.Syscall.Exit.{kernel_exit}
use yalnix_implementation.Syscall.Exit.Queued.{AllThere}
use yalnix_implementation.Syscall.Exit.ReadyPass.{orphan}
use yalnix_implementation.Syscall.Exit.DefunctPass.{is_child_at, survivors}
use yalnix_implementation.Syscall.Exit.Apart.{
  AllMissing, AllMissing-right, AllDifferent-right, AllDifferent-apart,
}
use yalnix_implementation.Syscall.Exit.Departure.{coded}
use yalnix_implementation.Syscall.Exit.Leaving.{Leaving, Departed}
use yalnix_implementation.Syscall.Exit.Departed.{kernel_exit-Departed}

-- the child exits, and its parent, which runs next, goes on and waits
abbrev pub exit_then_wait : ℤ → Ptr → M Outcome
exit_then_wait exit_code status_ptr =
    kernel_exit exit_code >>= λ _. swap_return >>= λ _. kernel_wait status_ptr

-- A child leaves; its parent runs next, and has no other defunct child.
pub record Parting (k : Kernel) (me next : Pcb) (n : Ptr) (rest : List Ptr) (u v : UserContext)
    : Type 0 where
  pub leaving : Leaving k me next n rest u
  pub parent : me.ppid ≡ next.pid
  pub children : eq_int next.num_children (pos 0) ≡ false
  pub context : k.uctxt n ≡ some v
  pub only : NoChild k.pcbs next.pid (k.queues defunct)

-- The parent has the exit code of the child, which is on the defunct queue no more.
pub record Told (k : Kernel) (p next : Pcb) (n status_ptr : Ptr) (k' : Kernel) : Type 0 where
  pub written : k'.outputs ≡ int_at status_ptr p.exit_code ∷ k.outputs
  pub counted : k'.pcbs n ≡ some (record (orphan p next) { num_children = dec next.num_children })
  pub reaped : k'.queues defunct ≡ survivors p (k.queues defunct) k.pcbs

swap_return-own :
    (k : Kernel) (p : Pcb) (v : UserContext)
    → k.active_pcb ≢ null
    → k.pcbs k.active_pcb ≡ some p
    → k.uctxt k.active_pcb ≡ some v
    → swap_return k
      ≡ ok tt (record k {
        uctxt =
            put k.uctxt k.active_pcb
              (some (record v { sp = p.user_context.sp; pc = p.user_context.pc }));
      })
unfolding swap_return load_pcb
swap_return-own k p v live at context = ground arith

NoChild-survivors :
    (k k' : Kernel) (p : Pcb) (pid : ℕ) (xs : List Ptr)
    → ((b : Ptr)
        → b ≢ k.active_pcb
        → Missing b (k.queues ready)
        → Missing b (k.queues blocked)
        → k'.pcbs b ≡ k.pcbs b)
    → AllThere k xs
    → AllMissing xs (k.queues ready)
    → AllMissing xs (k.queues blocked)
    → NoChild k.pcbs pid xs
    → NoChild k'.pcbs pid (survivors p xs k.pcbs)
NoChild-survivors k k' p pid [] same there no_r no_b none_here = tt
NoChild-survivors k k' p pid (x ∷ xs) same (live, other, _, there) (off_r, no_r) (off_b, no_b)
      (c, real, at, not_child, later) =
    let ih = NoChild-survivors k k' p pid xs same there no_r no_b later in
    elim (Bool-cases (is_child_at p (k.pcbs x))) [
      | inl dropped ↦ rw dropped ih
      | inr kept ↦ rw kept (c, real, same x other off_r off_b ∙ at, not_child, ih)
    ]

module _ (k : Kernel) (me next : Pcb) (c : ℤ) (n : Ptr) (rest : List Ptr) (u v : UserContext)
    (status_ptr : Ptr) (real : status_ptr ≢ null) (h : Parting k me next n rest u v) where
  abbrev p : Pcb
  p = coded c me

  abbrev parent : Pcb
  parent = orphan p next

  front : AllThere k (n ∷ rest)
  front = subst (AllThere k) h.leaving.front h.leaving.exiting.ready_there

  module _ (k1 : Kernel) (d : Departed k p next n rest u k1) where
    abbrev resumed : Kernel
    resumed = record k1 {
      uctxt =
          put k1.uctxt k1.active_pcb
            (some (record v { sp = parent.user_context.sp; pc = parent.user_context.pc }));
    }

    parent_at : k1.pcbs n ≡ some parent
    parent_at =
        d.orphaned n next (subst (Present n) (sym h.leaving.front) (inl refl)) h.leaving.next_at

    running : k1.pcbs k1.active_pcb ≡ some parent
    running = ap k1.pcbs d.runs ∙ parent_at

    live1 : k1.active_pcb ≢ null
    live1 = subst (λ a. a ≢ null) (sym d.runs) front.0

    goes_on : swap_return k1 ≡ ok tt resumed
    goes_on = swap_return-own k1 parent v live1 running (
        ap k1.uctxt d.runs ∙ ap (λ (f : Ptr → Option UserContext). f n) d.same_contexts ∙ h.context)

    others_dead : NoChild k1.pcbs next.pid (survivors p (k.queues defunct) k.pcbs)
    others_dead =
        let e = h.leaving.exiting in
        let R = k.queues ready in
        let B = k.queues blocked in
        let D = k.queues defunct in
        NoChild-survivors k k1 p next.pid D d.others e.defunct_there
          (AllMissing-right B D R (AllDifferent-apart R (B ++ D) e.apart))
          (AllDifferent-apart B D (AllDifferent-right R (B ++ D) e.apart)) h.only

    waits :
        Ends
          (λ o k'. (o ≡ returns (pos 0)) × Told k p next n status_ptr k')
          (kernel_wait status_ptr resumed)
    waits =
        Ends-mono
          (kernel_wait-Reaped resumed status_ptr k.active_pcb parent (saved p u k.kernel_context)
            (survivors p (k.queues defunct) k.pcbs) [] real live1 h.leaving.exiting.live running
            h.children d.zombie h.parent
            (λ i.
              subst (λ (f : ℕ → Ptr). f i ≢ null) (sym d.same_malloc) (h.leaving.exiting.room i))
            d.is_defunct others_dead)
          (λ o k' (is, r). (
            is,
            record {
              written = r.written ∙ ap (λ outs. int_at status_ptr c ∷ outs) d.nothing_handed;
              counted = ap k'.pcbs (sym d.runs) ∙ r.counted;
              reaped = r.turned;
            },
          ))

-- If a process exits as for kernel_exit-Departed, and the process that runs next is its parent,
-- counts its children and has no other defunct child, then behind KernelExit and what SwapProcess
-- does when the parent goes on, the parent's call of KernelWait with a pointer that is not NULL
-- returns 0: it writes the exit code through the pointer, the parent counts a child less, and the
-- exited process is on the defunct queue no more.
pub exit_then_wait-Told :
    (k : Kernel) (me next : Pcb) (exit_code : ℤ) (n : Ptr) (rest : List Ptr) (u v : UserContext)
    (status_ptr : Ptr)
    → status_ptr ≢ null
    → Parting k me next n rest u v
    → Ends
        (λ o k'. (o ≡ returns (pos 0)) × Told k (coded exit_code me) next n status_ptr k')
        (exit_then_wait exit_code status_ptr k)
exit_then_wait-Told k me next c n rest u v status_ptr real h =
    Ends-bind (kernel_exit c) _ k (kernel_exit-Departed k me next c n rest u h.leaving)
      λ o k1 (_, d).
        Ends-bind swap_return _ k1
          (subst (Ends (λ _ k2. k2 ≡ resumed k me next c n rest u v status_ptr real h k1 d))
            (sym (goes_on k me next c n rest u v status_ptr real h k1 d)) (ends refl))
          λ _ k2 same.
            subst
              (λ j.
                Ends (λ o k'. (o ≡ returns (pos 0)) × Told k (coded c me) next n status_ptr k')
                  (kernel_wait status_ptr j))
              (sym same) (waits k me next c n rest u v status_ptr real h k1 d)
