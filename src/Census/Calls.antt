-- ===== src/Census/Calls.antt =====
-- What KernelBrk, KernelFork, Exec and the growth of a stack do to the frames of all processes.
use yalnix_implementation.Base.{
  ℕ, ◌+◌, ◌-◌, ◌≡◌, ◌≢◌, ◌==◌, ap, some, List, ◌∷◌, ℤ, arith, inl, inr, Int-cases, Bool-cases,
  ==→eq,
}
use yalnix_implementation.Hardware.{Ptr, UserContext, null, no_x_w_r}
use yalnix_implementation.Frames.Conservation.{count, map_entries-total, unmap_entries-total}
use yalnix_implementation.Kernel.{Kernel, Pcb, QueueId, Run, Outcome, ok, load_pcb, update_pcb}
use yalnix_implementation.Syscall.Brk.{brk_to, kernel_brk}
use yalnix_implementation.Syscall.Brk.Heap.{target_page}
use yalnix_implementation.Syscall.Fork.Forked.{Forked}
use yalnix_implementation.Trap.Faults.Stack.{StackGrown, stack_growth, after_growth}
use yalnix_implementation.Trap.Dispatch.Exec.{cleared, with_cleared, cleared-Loadable, executed}
use yalnix_implementation.Load.Image.{LoadInfo}
use yalnix_implementation.Load.Sections.{Loadable}
use yalnix_implementation.Load.Layout.{load_program-LaidOut}
use yalnix_implementation.Process.SwitchLaws.{after_switch}
use yalnix_implementation.Census.{owned_by, census, Missing, owned-same, Local}

module _ (f addr : ℕ) (k k' : Kernel) (p : Pcb) (r : ℤ) (real : f ≢ 0) (live : k.active_pcb ≢ null)
    (holds : k.pcbs k.active_pcb ≡ some p) where
  brk_to-others :
      (target : ℕ) (b : Ptr) → brk_to target p k ≡ ok r k' → b ≢ k.active_pcb → k'.pcbs b ≡ k.pcbs b
  unfolding brk_to load_pcb update_pcb
  brk_to-others target b run ne = ground arith

  brk_to-kept :
      (target : ℕ)
      → brk_to target p k ≡ ok r k'
      → owned_by f (k'.pcbs k.active_pcb) + count f k'.memory.pfn_list
        ≡ owned_by f (k.pcbs k.active_pcb) + count f k.memory.pfn_list
  unfolding brk_to load_pcb update_pcb
  brk_to-kept target run = ground (
    arith,
    map_entries-total f no_x_w_r (target - p.user_heap_pt_index) p.user_heap_pt_index
        p.user_page_table k.memory real,
    unmap_entries-total f (p.user_heap_pt_index - target) target p.user_page_table k.memory,
  )

  pub kernel_brk-Local : kernel_brk addr k ≡ ok r k' → Local f k k'
  unfolding kernel_brk load_pcb
  kernel_brk-Local run = elim (Int-cases (target_page addr)) [
    | inl (target, at) ↦ record {
      others = λ b ne. ground (arith, brk_to-others target b);
      kept = ground (arith, brk_to-kept target);
    }
    | inr (n, at) ↦ record { others = λ b ne. ground arith; kept = ground arith }
  ]

-- a stack that has grown
pub StackGrown-Local :
    (f : ℕ) (k : Kernel) (p : Pcb) (target : ℕ) (r : Run Outcome)
    → f ≢ 0
    → k.pcbs k.active_pcb ≡ some p
    → StackGrown k p target r
    → Local f k (after_growth k p (stack_growth k p target))
StackGrown-Local f k p target r real holds grown = record {
  others = λ b ne. ground arith;
  kept = ground (arith, grown.frames f real);
}

-- a program that Exec has loaded
pub Loadable-Local :
    (f : ℕ) (k : Kernel) (p : Pcb) (c : UserContext) (li : LoadInfo) (args : List (List ℕ))
    → f ≢ 0
    → Loadable k k.active_pcb li args p
    → Local f k (executed k li args p c)
Loadable-Local f k p c li args real h =
    let laid =
      load_program-LaidOut (with_cleared k p) k.active_pcb li args (cleared p)
        (cleared-Loadable k li args p h) in
    record { others = λ b ne. ground arith; kept = ground (arith, h.holds, laid.conserved f real) }

-- behind a fork, every process but the child has what it had
Forked-owned_by :
    (f : ℕ) (k k' : Kernel) (p : Pcb) (u : UserContext) (o : Outcome) (b : Ptr)
    → k.pcbs k.active_pcb ≡ some p
    → (forked : Forked k p u o k') → b ≢ forked.child
    → owned_by f (k'.pcbs b) ≡ owned_by f (k.pcbs b)
Forked-owned_by f k k' p u o b holds forked ne = elim (Bool-cases (b == k.active_pcb)) [
  | inl same ↦
      let here : b ≡ k.active_pcb = ==→eq b k.active_pcb same in
      rw here (ground (arith, holds, forked.parent))
  | inr other ↦ ap (owned_by f) (forked.others b (ground arith) ne)
]

-- A fork adds the child to the processes.
pub Forked-census :
    (f : ℕ) (ps : List Ptr) (k k' : Kernel) (p : Pcb) (u : UserContext) (o : Outcome)
    → f ≢ 0
    → k.pcbs k.active_pcb ≡ some p
    → (forked : Forked k p u o k') → Missing forked.child ps
    → census f (forked.child ∷ ps) k' ≡ census f ps k
Forked-census f ps k k' p u o real holds forked out = ground (
  arith,
  forked.made.there,
  forked.made.frames f real,
  owned-same f ps k.pcbs k'.pcbs forked.child out
      (λ (b : Ptr) (ne : b ≢ forked.child). Forked-owned_by f k k' p u o b holds forked ne),
)

-- a switch to the oldest ready process
pub switch-Local :
    (f : ℕ) (k : Kernel) (n : Ptr) (q : QueueId) (p next : Pcb) (u : UserContext) (rest : List Ptr)
    → k.pcbs k.active_pcb ≡ some p
    → Local f k (after_switch k k.active_pcb n q p next u rest)
switch-Local f k n q p next u rest holds = record {
  others = λ b ne. ground arith;
  kept = ground (arith, holds);
}
