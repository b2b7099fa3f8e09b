-- ===== src/Syscall/Fork/RunOut.antt =====
-- KernelFork where the frames run out in the copy of the page table.
use mathlib.Core.Path.{subst}
use yalnix_implementation.Base.{
  ℕ, ◌<◌, ◌≡◌, ◌≢◌, refl, sym, ◌==◌, some, List, [], ◌∷◌, length, replicate, length-replicate, set,
  arith, inc, ==-refl, Bool-cases, inl, inr,
}
use yalnix_implementation.Hardware.{
  Ptr, Pte, pte, null, UserContext, valid_frame, invalid_frame, no_x_w_r, no_x_no_w_no_r,
  max_pt_len, kernel_stack_page,
}
use yalnix_implementation.Frames.{Memory, pop_frame, allocate_pfn}
use yalnix_implementation.Frames.Loops.{error}
use yalnix_implementation.Frames.Conservation.{count, mapped}
use yalnix_implementation.Frames.Mapping.{AllLive}
use yalnix_implementation.Kernel.{
  Kernel, Pcb, Outcome, returns, error_code, ok, Ends, ends, load_pcb, update_pcb,
}
use yalnix_implementation.Kernel.Processes.{put-put}
use yalnix_implementation.ContextSwitch.{find_reserved}
use yalnix_implementation.Process.{new_pcb, copy_upt}
use yalnix_implementation.Process.CopyLaws.{pages, copy_upt-total}
use yalnix_implementation.Process.NewProcess.{child_made, child_stack, init_process-child_made}
use yalnix_implementation.Syscall.Fork.{inherit, copy_tables, fork_child, kernel_fork}
use yalnix_implementation.Syscall.Fork.Parts.{copied, copied_child, behind_copy}
use yalnix_implementation.Syscall.Fork.Forked.{blank-AllInvalid, blank-mapped}

-- CopyUPT takes all the frames and fails where they are fewer than the parent's pages.
copy_upt-error :
    (r : ℕ) (pt1 pt2 : List Pte) (m : Memory) (fs : List ℕ)
    → m.pfn_list ≡ fs
    → length pt1 ≡ length pt2
    → length fs < pages pt1
    → AllLive fs
    → ((copy_upt pt1 pt2 r m).status ≡ error) × ((copy_upt pt1 pt2 r m).memory.pfn_list ≡ [])
unfolding copy_upt allocate_pfn pop_frame
copy_upt-error r [] pt2 m fs free same short live = absurd (omega arith)
copy_upt-error r (e ∷ pt1) [] m fs free same short live = absurd (omega arith)
copy_upt-error r (e ∷ pt1) (e2 ∷ pt2) m [] free same short live =
    elim (Bool-cases (e.valid == valid_frame)) [
      | inr bad ↦
          rw (bad, copy_upt) (copy_upt-error r pt1 pt2 m [] free (omega arith) (ground arith) live)
      | inl good ↦ ground arith
    ]
copy_upt-error r (e ∷ pt1) (e2 ∷ pt2) m (f ∷ fs) free same short live =
    elim (Bool-cases (e.valid == valid_frame)) [
      | inr bad ↦
          rw (bad, copy_upt)
            (copy_upt-error r pt1 pt2 m (f ∷ fs) free (omega arith) (ground arith) live)
      | inl good ↦
          let (err, none_left) =
            copy_upt-error f pt1 pt2 (record m { pfn_list = fs }) fs refl (omega arith)
              (ground arith) live.1 in
          ground (arith, err, none_left)
    ]

-- a process forks: a kernel stack's two frames are free, and fewer more than it has pages
pub record Short (k : Kernel) (p : Pcb) (u : UserContext) (g1 g2 : ℕ) (fs : List ℕ) (r : ℕ)
    : Type 0 where
  pub live : k.active_pcb ≢ null
  pub holds : k.pcbs k.active_pcb ≡ some p
  pub context : k.uctxt k.active_pcb ≡ some u
  pub room : k.memory.malloc k.memory.mallocs ≢ null
  pub apart : k.active_pcb ≢ k.memory.malloc k.memory.mallocs
  pub later : k.new_pid k.pids ≢ 0
  pub frames : k.memory.pfn_list ≡ g1 ∷ g2 ∷ fs
  pub real1 : g1 ≢ 0
  pub real2 : g2 ≢ 0
  pub real : AllLive fs
  pub table : length p.user_page_table ≡ max_pt_len
  pub short : length fs < pages p.user_page_table
  pub reserved : find_reserved kernel_stack_page k.k_pt ≡ some r

-- What is left: no free frame, a child on no queue that has them, and a page of region 0 in use.
pub record Stranded (k : Kernel) (p : Pcb) (fs : List ℕ) (r : ℕ) (o : Outcome) (k' : Kernel)
    : Type 0 where
  pub refused : o ≡ returns error_code
  pub nothing_free : k'.memory.pfn_list ≡ []
  pub parent : k'.pcbs k.active_pcb ≡ some (record p { num_children = inc p.num_children })
  pub same_queues : k'.queues ≡ k.queues
  pub child : Ptr
  pub child_pcb : Pcb
  pub there : k'.pcbs child ≡ some child_pcb
  pub lost : (f : ℕ) → f ≢ 0 → mapped f child_pcb.user_page_table ≡ count f fs
  pub page : ℕ
  pub reserved_used : k'.k_pt ≡ set k.k_pt r (pte valid_frame no_x_w_r page)

module _ (k : Kernel) (c : Ptr) (p q : Pcb) (r : ℕ) (live : k.active_pcb ≢ null) (real : c ≢ null)
    (other : k.active_pcb ≢ c) (holds : k.pcbs k.active_pcb ≡ some p) (new : k.pcbs c ≡ some q)
    (reserved : find_reserved kernel_stack_page k.k_pt ≡ some r)
    (fails : (copied k c p q r).status ≡ error) where
  fork_child-refused : fork_child c k ≡ ok (returns error_code) (behind_copy k c p q r)
  unfolding fork_child copy_tables load_pcb update_pcb
  fork_child-refused = ground (arith, put-put k c (inherit p q) (copied_child k c p q r))

module _ (k : Kernel) (p : Pcb) (u : UserContext) (g1 g2 : ℕ) (fs : List ℕ) (r : ℕ)
    (h : Short k p u g1 g2 fs r) where
  abbrev c : Ptr
  c = k.memory.malloc k.memory.mallocs

  abbrev parent_pcb : Pcb
  parent_pcb = record p { num_children = inc p.num_children }

  abbrev new_child : Pcb
  new_child = new_pcb (k.new_pid k.pids) p.pid u (child_stack g1 g2)

  abbrev k1 : Kernel
  k1 = child_made k c p new_child fs

  abbrev k2 : Kernel
  k2 = behind_copy k1 c parent_pcb new_child r

  ran_out :
      ((copied k1 c parent_pcb new_child r).status ≡ error)
      × ((copied k1 c parent_pcb new_child r).memory.pfn_list ≡ [])
  ran_out =
      copy_upt-error 0 p.user_page_table new_child.user_page_table k1.memory fs refl
        (omega
          (arith, h.table, length-replicate {0} max_pt_len (pte invalid_frame no_x_no_w_no_r 0)))
        h.short h.real

  kernel_fork-k2 : kernel_fork k ≡ ok (returns error_code) k2
  unfolding kernel_fork
  kernel_fork-k2 = ground (
    arith,
    h.context,
    init_process-child_made k u p g1 g2 fs h.live h.holds h.context h.room h.later h.frames h.real1
        h.real2,
    fork_child-refused k1 c parent_pcb new_child r h.live h.room h.apart (ground (arith, h.apart))
        (rw (==-refl c) refl) h.reserved (ran_out.0),
  )

-- If the two frames of a kernel stack are free, and fewer more than the running process has pages,
-- none of number 0, a page of region 0 up to the kernel stack's first is unused, the process has a
-- whole table, the new id is not 0, and its PCB can be allocated at another address, KernelFork
-- returns ERROR with no frame left free: the frames are mapped by a child that is on no queue, the
-- parent counts it as a child, and the page of region 0 stays in use.
pub kernel_fork-Stranded :
    (k : Kernel) (p : Pcb) (u : UserContext) (g1 g2 : ℕ) (fs : List ℕ) (r : ℕ)
    → Short k p u g1 g2 fs r
    → Ends (Stranded k p fs r) (kernel_fork k)
kernel_fork-Stranded k p u g1 g2 fs r h =
    let q =
      copied_child (k1 k p u g1 g2 fs r h) (c k p u g1 g2 fs r h) (parent_pcb k p u g1 g2 fs r h)
        (new_child k p u g1 g2 fs r h) r in
    subst (Ends (Stranded k p fs r)) (sym (kernel_fork-k2 k p u g1 g2 fs r h)) (
      ends (record {
        refused = refl;
        nothing_free = (ran_out k p u g1 g2 fs r h).1;
        parent = ground (arith, h.apart);
        same_queues = refl;
        child = c k p u g1 g2 fs r h;
        child_pcb = q;
        there = rw (==-refl (c k p u g1 g2 fs r h)) refl;
        lost = λ f real. ground (
          arith,
          copy_upt-total f 0 p.user_page_table
              (replicate max_pt_len (pte invalid_frame no_x_no_w_no_r 0))
              (k1 k p u g1 g2 fs r h).memory real (blank-AllInvalid max_pt_len),
          blank-mapped f max_pt_len,
          (ran_out k p u g1 g2 fs r h).1,
        );
        page = _;
        reserved_used = refl;
      }))
