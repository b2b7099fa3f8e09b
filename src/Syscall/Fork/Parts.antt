-- ===== src/Syscall/Fork/Parts.antt =====
-- KernelFork: the state behind each of its parts.
use yalnix_implementation.Base.{
  ℕ, zero, suc, ◌≤◌, ◌≡◌, ◌≢◌, refl, ◌∙◌, true, some, List, get_elem?, get_elem?-set_self,
  get_elem?-set_ne, set, [], ◌∷◌, ◌++◌, ◌+◌, arith, Bool-cases, Option-cases, inl, inr,
}
use yalnix_implementation.Hardware.{
  Ptr, Pte, pte, null, valid_frame, invalid_frame, no_x_w_r, no_x_no_w_no_r, kernel_stack_page,
}
use yalnix_implementation.Frames.Loops.{done}
use yalnix_implementation.Kernel.{
  Kernel, Pcb, ok, put, put_queue, ready, goes, in_fork, load_pcb, update_pcb,
}
use yalnix_implementation.Kernel.Processes.{with_process, put-put, queue_add-append}
use yalnix_implementation.ContextSwitch.{
  invalid_at, find_reserved, mark_valid, kc_copy, kernel_context_copy,
}
use yalnix_implementation.Process.{Copy, copy_upt}
use yalnix_implementation.Syscall.Fork.{inherit, copy_tables, start_child, fork_child}

find_reserved-le : (n : ℕ) (pt : List Pte) (r : ℕ) → find_reserved n pt ≡ some r → r ≤ n
unfolding find_reserved
find_reserved-le zero pt r h = ground arith
find_reserved-le (suc n) pt r h = elim (Bool-cases (invalid_at pt (suc n))) [
  | inl here ↦ ground arith
  | inr lower ↦ ground (arith, find_reserved-le n pt r)
]

invalid_at-entry :
    (pt : List Pte) (i : ℕ) → invalid_at pt i ≡ true → (e : Pte) × (get_elem? pt i ≡ some e)
unfolding invalid_at
invalid_at-entry pt i h = elim (Option-cases (get_elem? pt i)) [
  | inl out ↦ absurd (ground arith)
  | inr found ↦ found
]

-- the reserved entry, used for a while and given up again
abbrev pub reused : List Pte → ℕ → Pte → List Pte
reused pt r v = set (set pt r v) r (pte invalid_frame no_x_no_w_no_r 0)

invalid_at-reused_self :
    (pt : List Pte) (r : ℕ) (v : Pte) → invalid_at pt r ≡ true → invalid_at (reused pt r v) r ≡ true
unfolding invalid_at
invalid_at-reused_self pt r v h =
    let (e, at) = invalid_at-entry pt r h in
    let now =
      get_elem?-set_self (set pt r v) r v (pte invalid_frame no_x_no_w_no_r 0)
        (get_elem?-set_self pt r e v at) in
    rw (now, invalid_at) refl

invalid_at-reused_ne :
    (pt : List Pte) (r i : ℕ) (v : Pte) → r ≢ i → invalid_at (reused pt r v) i ≡ invalid_at pt i
unfolding invalid_at
invalid_at-reused_ne pt r i v ne =
    rw
      (
        get_elem?-set_ne (set pt r v) r i (pte invalid_frame no_x_no_w_no_r 0) ne
            ∙ get_elem?-set_ne pt r i v ne,
        invalid_at,
      )
      refl

pub find_reserved-reused :
    (n : ℕ) (pt : List Pte) (r : ℕ) (v : Pte)
    → find_reserved n pt ≡ some r
    → find_reserved n (reused pt r v) ≡ some r
unfolding find_reserved
find_reserved-reused zero pt r v h = ground (arith, invalid_at-reused_self pt r v)
find_reserved-reused (suc n) pt r v h = elim (Bool-cases (invalid_at pt (suc n))) [
  | inl here ↦ ground (arith, invalid_at-reused_self pt r v)
  | inr lower ↦ ground (
    arith,
    find_reserved-le n pt r,
    invalid_at-reused_ne pt r (suc n) v,
    find_reserved-reused n pt r v,
  )
]

module _ (k : Kernel) (c : Ptr) (p q : Pcb) (r : ℕ) where
  -- the child's table, a copy of its parent's
  abbrev pub copied : Copy
  copied = copy_upt p.user_page_table q.user_page_table 0 k.memory

  abbrev pub copied_child : Pcb
  copied_child = record (inherit p q) { user_page_table = copied.table }

  -- the state behind the copy
  abbrev pub behind_copy : Kernel
  behind_copy = record (with_process k c copied_child copied.memory) {
    k_pt = set k.k_pt r (pte valid_frame no_x_w_r copied.reserved);
  }

  copy_tables-behind :
      k.active_pcb ≢ null
      → c ≢ null
      → k.active_pcb ≢ c
      → k.pcbs k.active_pcb ≡ some p
      → copied.status ≡ done
      → copy_tables c r (with_process k c (inherit p q) k.memory) ≡ ok done behind_copy
  unfolding copy_tables load_pcb update_pcb
  copy_tables-behind live real other holds ends =
      ground (arith, put-put k c (inherit p q) copied_child)

  pub fork_child-copied :
      k.active_pcb ≢ null
      → c ≢ null
      → k.active_pcb ≢ c
      → k.pcbs k.active_pcb ≡ some p
      → k.pcbs c ≡ some q
      → find_reserved kernel_stack_page k.k_pt ≡ some r
      → copied.status ≡ done
      → fork_child c k ≡ start_child c r behind_copy
  unfolding fork_child load_pcb update_pcb
  fork_child-copied live real other holds new reserved ends =
      ground (arith, copy_tables-behind live real other holds ends)

-- the child ready to run, on a copy of the kernel stack and the user context of its parent
abbrev pub released : Kernel → Ptr → Pcb → ℕ → Kernel
released k c q r = record k {
  pcbs = put k.pcbs c (
      some (record q {
        kernel_context = k.kernel_context;
        kernel_stack_pt = mark_valid q.kernel_stack_pt;
      }));
  memory = record k.memory { mallocs = 1 + k.memory.mallocs };
  queues = put_queue k.queues ready (k.queues ready ++ c ∷ []);
  uctxt = put k.uctxt c (k.uctxt k.active_pcb);
  k_pt = set (set k.k_pt r (pte invalid_frame no_x_no_w_no_r 0)) r (pte invalid_frame 0 0);
}

pub start_child-released :
    (k : Kernel) (c : Ptr) (q : Pcb) (r : ℕ)
    → c ≢ null
    → k.pcbs c ≡ some q
    → k.memory.malloc k.memory.mallocs ≢ null
    → find_reserved kernel_stack_page (set k.k_pt r (pte invalid_frame no_x_no_w_no_r 0)) ≡ some r
    → start_child c r k ≡ ok (goes (in_fork c)) (released k c q r)
unfolding start_child kernel_context_copy kc_copy load_pcb update_pcb
start_child-released k c q r live holds room reserved =
    let k1 = record k { k_pt = set k.k_pt r (pte invalid_frame no_x_no_w_no_r 0) } in
    let q1 = record q { kernel_context = k.kernel_context } in
    ground (
      arith,
      queue_add-append k1 ready c live room,
      put-put k c q1 (record q1 { kernel_stack_pt = mark_valid q.kernel_stack_pt }),
    )
