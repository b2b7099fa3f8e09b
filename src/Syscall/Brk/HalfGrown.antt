-- ===== src/Syscall/Brk/HalfGrown.antt =====
-- KernelBrk where the frames run out in the middle of a growth.
use mathlib.Core.Path.{subst}
use yalnix_implementation.Base.{
  ℕ, zero, suc, ◌+◌, ◌-◌, ◌≡◌, ◌<◌, ◌≤◌, ◌≢◌, refl, sym, ap, ◌∙◌, ◌==◌, ◌⊎◌, some, true, false,
  List, [], ◌∷◌, ℤ, pos, arith, length, get_elem?, ==-refl,
}
use yalnix_implementation.Hardware.{null, Pte, pte, valid_frame, no_x_w_r}
use yalnix_implementation.Frames.Loops.{error, Walk, some_entry}
use yalnix_implementation.Frames.Mapping.{AllLive}
use yalnix_implementation.Kernel.{
  Kernel, Pcb, ok, Ends, ends, error_code, put, load_pcb, update_pcb,
}
use yalnix_implementation.Syscall.Brk.{brk_to, kernel_brk}
use yalnix_implementation.Syscall.Brk.Heap.{target_page, growth, kernel_brk-brk_to}
use yalnix_implementation.Syscall.Brk.RunningOut.{AllClear, clear_entries, map_entries-RanOut}

-- What is left of the call: no free frame, each frame on its own page above the break, the other
-- pages as they were, and the break where it was.
pub record HalfGrown (k : Kernel) (p : Pcb) (r : ℤ) (k' : Kernel) : Type 0 where
  pub refused : r ≡ error_code
  pub nothing_free : k'.memory.pfn_list ≡ []
  pub process : Pcb
  pub there : k'.pcbs k.active_pcb ≡ some process
  pub break_kept : process.user_heap_pt_index ≡ p.user_heap_pt_index
  pub mapped :
      (j f : ℕ)
      → get_elem? k.memory.pfn_list j ≡ some f
      → get_elem? process.user_page_table (p.user_heap_pt_index + j)
        ≡ some (pte valid_frame no_x_w_r f)
  pub outside :
      (j : ℕ)
      → (j < p.user_heap_pt_index) ⊎ (p.user_heap_pt_index + length k.memory.pfn_list ≤ j)
      → get_elem? process.user_page_table j ≡ get_elem? p.user_page_table j
  pub never_again :
      (addr target : ℕ)
      → k.memory.pfn_list ≢ []
      → addr ≢ null
      → target_page addr ≡ pos target
      → p.user_heap_pt_index < target
      → kernel_brk addr k' ≡ ok error_code k'

-- the state behind a loop that ended early
abbrev stopped : Kernel → Pcb → Walk → Kernel
stopped k p w = record k {
  pcbs = put k.pcbs k.active_pcb (some (record p { user_page_table = w.table }));
  memory = w.memory;
}

brk_to-stopped :
    (k : Kernel) (target : ℕ) (p : Pcb)
    → k.active_pcb ≢ null
    → k.pcbs k.active_pcb ≡ some p
    → p.user_heap_pt_index < target
    → some_entry valid_frame (target - p.user_heap_pt_index) p.user_heap_pt_index p.user_page_table
      ≡ some false
    → (growth k p target).status ≡ error
    → brk_to target p k ≡ ok error_code (stopped k p (growth k p target))
unfolding brk_to load_pcb update_pcb
brk_to-stopped k target p live holds grows clear failed = ground arith

-- a growth over a page in use
some_entry-first :
    (n i : ℕ) (pt : List Pte) (e : Pte)
    → 0 < n
    → get_elem? pt i ≡ some e
    → (e.valid == valid_frame) ≡ true
    → some_entry valid_frame n i pt ≡ some true
unfolding some_entry
some_entry-first zero i pt e some_left at bad = absurd (omega arith)
some_entry-first (suc n) i pt e some_left at bad = ground arith

kernel_brk-in_use :
    (k : Kernel) (addr target : ℕ) (p : Pcb) (g : ℕ)
    → k.active_pcb ≢ null
    → k.pcbs k.active_pcb ≡ some p
    → addr ≢ null
    → target_page addr ≡ pos target
    → p.user_heap_pt_index < target
    → get_elem? p.user_page_table p.user_heap_pt_index ≡ some (pte valid_frame no_x_w_r g)
    → kernel_brk addr k ≡ ok error_code k
unfolding kernel_brk brk_to load_pcb
kernel_brk-in_use k addr target p g live holds real at grows used = ground (
  arith,
  some_entry-first (target - p.user_heap_pt_index) p.user_heap_pt_index p.user_page_table
      (pte valid_frame no_x_w_r g),
)

first_elem : (xs : List ℕ) → xs ≢ [] → (x : ℕ) × (get_elem? xs 0 ≡ some x)
first_elem [] some_left = absurd (some_left refl)
first_elem (x ∷ xs) some_left = (x, refl)

-- KernelBrk with an address that rounds up to a page above the data's last, above the break and
-- below the stack, where the pages between have the valid bit 0 and there are fewer free frames,
-- none of number 0, returns ERROR with no frame left free: the frames are mapped above the break,
-- one to a page in the order of the free list, readable and writable, the other entries of the
-- table and the break are as they were, and if there was a frame, each later call to move the
-- break up, whatever the address, returns ERROR and changes nothing as long as nothing else does.
pub kernel_brk-HalfGrown :
    (k : Kernel) (addr target : ℕ) (p : Pcb)
    → addr ≢ null
    → k.active_pcb ≢ null
    → k.pcbs k.active_pcb ≡ some p
    → target_page addr ≡ pos target
    → target < p.user_stack_pt_index
    → p.user_data_pt_index < target
    → p.user_heap_pt_index < target
    → AllClear p.user_page_table p.user_heap_pt_index (target - p.user_heap_pt_index)
    → length k.memory.pfn_list < target - p.user_heap_pt_index
    → AllLive k.memory.pfn_list
    → Ends (HalfGrown k p) (kernel_brk addr k)
kernel_brk-HalfGrown k addr target p real live holds at below above grows clear short frames =
    let n = target - p.user_heap_pt_index in
    let out =
      map_entries-RanOut no_x_w_r n p.user_heap_pt_index p.user_page_table k.memory
        k.memory.pfn_list refl short clear frames in
    let w = growth k p target in
    let q = record p { user_page_table = w.table } in
    subst (Ends (HalfGrown k p))
      (sym (
        kernel_brk-brk_to k addr target p real live holds at below above
        ∙ brk_to-stopped k target p live holds grows (clear_entries n _ _ clear) out.failed))
      (ends (record {
        refused = refl;
        nothing_free = out.nothing_free;
        process = q;
        there = rw (==-refl k.active_pcb) refl;
        break_kept = refl;
        mapped = out.used;
        outside = out.kept;
        never_again = λ addr' target' some_pages real' at' grows'.
            let (g, first) = first_elem k.memory.pfn_list some_pages in
            let used = ap (get_elem? w.table) (omega arith) ∙ out.used 0 g first in
            kernel_brk-in_use (stopped k p w) addr' target' q g live
              (rw (==-refl k.active_pcb) refl) real' at' grows' used;
      }))
