-- ===== src/Syscall/Fork/Forked.antt =====
-- KernelFork as a whole, where the frames are enough.
use mathlib.Core.Path.{subst}
use yalnix_implementation.Base.{
  ℕ, zero, suc, ◌+◌, ◌≤◌, ◌≡◌, ◌≢◌, refl, sym, some, List, [], ◌∷◌, ◌++◌, length, replicate,
  length-replicate, arith, pos, inc, ==-refl,
}
use yalnix_implementation.Hardware.{
  Ptr, pte, null, UserContext, invalid_frame, no_x_no_w_no_r, max_pt_len, kernel_stack_page,
}
use yalnix_implementation.Frames.Loops.{done}
use yalnix_implementation.Frames.Conservation.{count, mapped}
use yalnix_implementation.Frames.Mapping.{AllLive}
use yalnix_implementation.Kernel.{
  Kernel, Pcb, Outcome, returns, ok, Ends, ends, ready, goes, in_fork, load_pcb,
}
use yalnix_implementation.ContextSwitch.{find_reserved, mark_valid}
use yalnix_implementation.Process.{new_pcb}
use yalnix_implementation.Process.CopyLaws.{
  SameLayout, AllInvalid, pages, copy_upt-SameLayout, copy_upt-total, copy_upt-done,
  copy_upt-malloc,
}
use yalnix_implementation.Process.NewProcess.{child_made, child_stack, init_process-child_made}
use yalnix_implementation.Process.Freeing.{owns}
use yalnix_implementation.Syscall.Fork.{kernel_fork, kernel_fork_return}
use yalnix_implementation.Syscall.Fork.Parts.{
  released, start_child-released, find_reserved-reused, copied, copied_child, behind_copy,
  fork_child-copied,
}

pub blank-AllInvalid : (n : ℕ) → AllInvalid (replicate n (pte invalid_frame no_x_no_w_no_r 0))
blank-AllInvalid zero = tt
blank-AllInvalid (suc n) = (refl, blank-AllInvalid n)

mapped-mark_valid :
    (f g1 g2 : ℕ) → mapped f (mark_valid (child_stack g1 g2)) ≡ count f (g1 ∷ g2 ∷ [])
unfolding mark_valid
mapped-mark_valid f g1 g2 = refl

pub blank-mapped : (f n : ℕ) → mapped f (replicate n (pte invalid_frame no_x_no_w_no_r 0)) ≡ 0
blank-mapped f zero = refl
blank-mapped f (suc n) = omega (arith, blank-mapped f n)

-- What KernelFork needs: the two frames of a kernel stack and as many more as the parent has pages, a reserved page, and room.
pub record Forkable (k : Kernel) (p : Pcb) (u : UserContext) (g1 g2 : ℕ) (fs : List ℕ) (r : ℕ)
    : Type 0 where
  pub live : k.active_pcb ≢ null
  pub holds : k.pcbs k.active_pcb ≡ some p
  pub context : k.uctxt k.active_pcb ≡ some u
  pub room : (c : ℕ) → k.memory.malloc c ≢ null
  pub apart : k.active_pcb ≢ k.memory.malloc k.memory.mallocs
  pub later : k.new_pid k.pids ≢ 0
  pub other_id : k.new_pid k.pids ≢ p.pid
  pub frames : k.memory.pfn_list ≡ g1 ∷ g2 ∷ fs
  pub real1 : g1 ≢ 0
  pub real2 : g2 ≢ 0
  pub real : AllLive fs
  pub table : length p.user_page_table ≡ max_pt_len
  pub enough : pages p.user_page_table ≤ length fs
  pub reserved : find_reserved kernel_stack_page k.k_pt ≡ some r

-- the child has its parent's pages, in frames of its own, and goes on where its parent does
pub record Child (k : Kernel) (p : Pcb) (u : UserContext) (c : Ptr) (q : Pcb) (k' : Kernel)
    : Type 0 where
  pub there : k'.pcbs c ≡ some q
  pub layout : SameLayout p.user_page_table q.user_page_table
  pub own_id : q.pid ≡ k.new_pid k.pids
  pub of_parent : q.ppid ≡ p.pid
  pub heap : q.user_heap_pt_index ≡ p.user_heap_pt_index
  pub stack : q.user_stack_pt_index ≡ p.user_stack_pt_index
  pub waiting : k'.queues ready ≡ k.queues ready ++ c ∷ []
  pub same_context : k'.uctxt c ≡ some u
  pub frames : (f : ℕ) → f ≢ 0 → owns f q + count f k'.memory.pfn_list ≡ count f k.memory.pfn_list

-- KernelFork has made a child, and its return is 0 for the child and the child's id for the parent.
pub record Forked (k : Kernel) (p : Pcb) (u : UserContext) (o : Outcome) (k' : Kernel)
    : Type 0 where
  pub child : Ptr
  pub child_pcb : Pcb
  pub goes_on : o ≡ goes (in_fork child)
  pub made : Child k p u child child_pcb k'
  pub parent : k'.pcbs k.active_pcb ≡ some (record p { num_children = inc p.num_children })
  pub others : (b : Ptr) → b ≢ k.active_pcb → b ≢ child → k'.pcbs b ≡ k.pcbs b
  pub in_parent : kernel_fork_return child k' ≡ ok (returns (pos child_pcb.pid)) k'
  pub in_child :
      kernel_fork_return child (record k' { active_pcb = child })
      ≡ ok (returns (pos 0)) (record k' { active_pcb = child })

module _ (k : Kernel) (p : Pcb) (u : UserContext) (g1 g2 : ℕ) (fs : List ℕ) (r : ℕ)
    (h : Forkable k p u g1 g2 fs r) where
  abbrev c : Ptr
  c = k.memory.malloc k.memory.mallocs

  abbrev parent_pcb : Pcb
  parent_pcb = record p { num_children = inc p.num_children }

  abbrev new : Pcb
  new = new_pcb (k.new_pid k.pids) p.pid u (child_stack g1 g2)

  abbrev k1 : Kernel
  k1 = child_made k c p new fs

  abbrev k2 : Kernel
  k2 = behind_copy k1 c parent_pcb new r

  abbrev q2 : Pcb
  q2 = copied_child k1 c parent_pcb new r

  abbrev k3 : Kernel
  k3 = released k2 c q2 r

  copy_ends : (copied k1 c parent_pcb new r).status ≡ done
  copy_ends =
      copy_upt-done 0 p.user_page_table new.user_page_table k1.memory
        (omega
          (arith, h.table, length-replicate {0} max_pt_len (pte invalid_frame no_x_no_w_no_r 0)))
        h.enough h.real

  kernel_fork-k3 : kernel_fork k ≡ ok (goes (in_fork c)) k3
  unfolding kernel_fork
  kernel_fork-k3 =
      let room2 : k2.memory.malloc k2.memory.mallocs ≢ null =
        rw ((copy_upt-malloc 0 p.user_page_table new.user_page_table k1.memory).0) (h.room _) in
      ground (
        arith,
        h.context,
        init_process-child_made k u p g1 g2 fs h.live h.holds h.context (h.room k.memory.mallocs)
            h.later h.frames h.real1 h.real2,
        fork_child-copied k1 c parent_pcb new r h.live (h.room k.memory.mallocs) h.apart
            (ground (arith, h.apart)) (rw (==-refl c) refl) h.reserved copy_ends,
        start_child-released k2 c q2 r (h.room k.memory.mallocs) (rw (==-refl c) refl) room2
            (find_reserved-reused kernel_stack_page k.k_pt r _ h.reserved),
      )

  -- the child as KernelFork leaves it
  abbrev child_q : Pcb
  child_q = record q2 {
    kernel_context = k.kernel_context;
    kernel_stack_pt = mark_valid q2.kernel_stack_pt;
  }

  child_made_lem : Child k p u c child_q k3
  child_made_lem = record {
    there = rw (==-refl c) refl;
    layout =
        copy_upt-SameLayout 0 p.user_page_table new.user_page_table k1.memory
          (blank-AllInvalid max_pt_len) copy_ends;
    own_id = refl;
    of_parent = refl;
    heap = refl;
    stack = refl;
    waiting = refl;
    same_context = rw (==-refl c) h.context;
    frames = λ f real. ground (
      arith,
      copy_upt-total f 0 p.user_page_table new.user_page_table k1.memory real
          (blank-AllInvalid max_pt_len),
      blank-mapped f max_pt_len,
      mapped-mark_valid f g1 g2,
      h.frames,
    );
  }

  parent_kept : k3.pcbs k.active_pcb ≡ some parent_pcb
  parent_kept = ground (arith, h.apart)

  others_kept :
      (b : Ptr) → b ≢ k.active_pcb → b ≢ k.memory.malloc k.memory.mallocs → k3.pcbs b ≡ k.pcbs b
  others_kept b ne ne' = ground arith

  answers_parent : kernel_fork_return c k3 ≡ ok (returns (pos child_q.pid)) k3
  unfolding kernel_fork_return load_pcb
  answers_parent =
      ground (arith, h.live, h.room k.memory.mallocs, parent_kept, child_made_lem.there, h.other_id)

  answers_child :
      kernel_fork_return c (record k3 { active_pcb = c })
      ≡ ok (returns (pos 0)) (record k3 { active_pcb = c })
  unfolding kernel_fork_return load_pcb
  answers_child = ground (arith, h.room k.memory.mallocs, child_made_lem.there)

-- If a kernel stack's two frames and as many more as the running process has pages are free, none
-- of number 0, a page of region 0 up to the kernel stack's first is unused, the process has a
-- whole table, the new id is neither 0 nor the parent's, and no allocation fails, KernelFork makes
-- a child of the running process with the parent's pages and protections in frames that were free,
-- behind the processes of the ready queue, that goes on with the parent's user context; behind the
-- copy of the kernel stack, KernelFork returns the child's id in the parent and 0 in the child.
pub kernel_fork-Forked :
    (k : Kernel) (p : Pcb) (u : UserContext) (g1 g2 : ℕ) (fs : List ℕ) (r : ℕ)
    → Forkable k p u g1 g2 fs r
    → Ends (Forked k p u) (kernel_fork k)
kernel_fork-Forked k p u g1 g2 fs r h =
    subst (Ends (Forked k p u)) (sym (kernel_fork-k3 k p u g1 g2 fs r h)) (
      ends (record {
        child = c k p u g1 g2 fs r h;
        child_pcb = child_q k p u g1 g2 fs r h;
        goes_on = refl;
        made = child_made_lem k p u g1 g2 fs r h;
        parent = parent_kept k p u g1 g2 fs r h;
        others = λ b ne ne'. others_kept k p u g1 g2 fs r h b ne ne';
        in_parent = answers_parent k p u g1 g2 fs r h;
        in_child = answers_child k p u g1 g2 fs r h;
      }))
