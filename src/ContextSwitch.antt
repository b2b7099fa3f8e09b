-- ===== src/ContextSwitch.antt =====
-- contextswitch.c: KCSwitch and KCCopy, which the hardware's KernelContextSwitch calls with the
-- kernel context it has saved and whose result it goes on in. The TLB is not modelled.
use yalnix_implementation.Base.{
  ℕ, zero, suc, ◌==◌, if◌then◌else◌, Option, none, some, Bool, true, false, List, [], ◌∷◌,
  get_elem?, set,
}
use yalnix_implementation.Hardware.{Ptr, Pte, pte, valid_frame, invalid_frame, kernel_stack_page}
use yalnix_implementation.Kernel.{
  put, M, pure, ◌>>=◌, ◌>>◌, gets, modify, load_pcb, update_pcb, undefined_behaviour,
}

-- the entries of `next`'s kernel stack, written into region 0's table from index `i`
unfoldable pub map_stack : ℕ → List Pte → List Pte → List Pte
map_stack i [] k_pt = k_pt
map_stack i (e ∷ es) k_pt = map_stack (suc i) es (set k_pt i e)

-- the kernel context of `next`, to go on in
unfoldable pub kc_switch : ℕ → Ptr → Ptr → M ℕ
kc_switch kc_in curr next = do
  update_pcb curr λ p. record p { kernel_context = kc_in }
  n ← load_pcb next
  modify λ k. record k { k_pt = map_stack kernel_stack_page n.kernel_stack_pt k.k_pt }
  pure n.kernel_context

-- `KernelContextSwitch(KCSwitch, curr, next)`
unfoldable pub kernel_context_switch : Ptr → Ptr → M (Unit {0})
kernel_context_switch curr next = do
  kc ← gets λ k. k.kernel_context
  kc' ← kc_switch kc curr next
  modify λ k. record k { kernel_context = kc' }

-- Is the entry invalid? Region 0's table has an entry for each index that is asked for.
unfoldable pub invalid_at : List Pte → ℕ → Bool
invalid_at pt i = elim (get_elem? pt i) [ none ↦ false | some e ↦ e.valid == invalid_frame ]

-- the highest page from the index down to 0 whose entry is invalid; `none` is -1
unfoldable pub find_reserved : ℕ → List Pte → Option ℕ
unfolding invalid_at
find_reserved zero pt = if invalid_at pt zero then some zero else none
find_reserved (suc i) pt = elim (invalid_at pt (suc i)) [
  | true ↦ some (suc i)
  | false ↦ find_reserved i pt
]

unfoldable pub mark_valid : List Pte → List Pte
mark_valid [] = []
mark_valid (e ∷ es) = record e { valid = valid_frame } ∷ mark_valid es

-- `none` is `NULL`. The new process's kernel stack becomes a copy of the running one's, with the
-- user context of the trap on it; the reserved entry is used for the copy and given up again.
unfoldable pub kc_copy : ℕ → Ptr → M (Option ℕ)
unfolding find_reserved mark_valid
kc_copy kc_in pcb = do
  update_pcb pcb λ p. record p { kernel_context = kc_in }
  k_pt ← gets λ k. k.k_pt
  elim (find_reserved kernel_stack_page k_pt) [
    | none ↦ pure none
    | some r ↦ do
      update_pcb pcb λ p. record p { kernel_stack_pt = mark_valid p.kernel_stack_pt }
      modify λ k. record k {
        k_pt = set k.k_pt r (pte invalid_frame 0 0);
        uctxt = put k.uctxt pcb (k.uctxt k.active_pcb);
      }
      pure (some kc_in)
  ]

-- `KernelContextSwitch(KCCopy, pcb, NULL)`; the hardware cannot go on in a `NULL` context
unfoldable pub kernel_context_copy : Ptr → M (Unit {0})
unfolding kc_copy
kernel_context_copy pcb = do
  kc ← gets λ k. k.kernel_context
  r ← kc_copy kc pcb
  elim r [ none ↦ undefined_behaviour | some kc' ↦ modify λ k. record k { kernel_context = kc' } ]
