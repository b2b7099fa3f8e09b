-- ===== src/Syscall/Brk/Shrink.antt =====
-- KernelBrk: giving pages of the heap back.
use yalnix_implementation.Base.{
  ℕ, ◌-◌, ◌≡◌, ◌<◌, ◌≤◌, ◌≢◌, ◌∙◌, some, false, ℤ, pos, arith, length, get_elem?, ◌⊎◌,
}
use yalnix_implementation.Hardware.{null, invalid_frame}
use yalnix_implementation.Frames.Loops.{done, Walk, unmap_entries, some_entry}
use yalnix_implementation.Frames.Conservation.{total, unmap_entries-total}
use yalnix_implementation.Frames.Unmapping.{
  IsUnmapped, unmap_entries_inside, unmap_entries_outside, unmap_entries-done,
}
use yalnix_implementation.Kernel.{Kernel, Pcb, Run, ok, load_pcb, update_pcb}
use yalnix_implementation.Syscall.Brk.{brk_to, kernel_brk}
use yalnix_implementation.Syscall.Brk.Heap.{target_page, after_walk, kernel_brk-brk_to}

-- the loop that shrinks the heap of `p` to `target`
abbrev pub shrinking : Kernel → Pcb → ℕ → Walk
shrinking k p target =
    unmap_entries (p.user_heap_pt_index - target) target p.user_page_table k.memory

-- what a heap that has shrunk to the page `target` means
pub record Shrunk (k : Kernel) (p : Pcb) (target : ℕ) (r : Run ℤ) : Type 0 where
  pub returned : r ≡ ok (pos 0) (after_walk k p (shrinking k p target) target)
  pub inside :
      (j : ℕ) → target ≤ j → j < p.user_heap_pt_index → IsUnmapped (shrinking k p target).table j
  pub outside :
      (j : ℕ)
      → (j < target) ⊎ (p.user_heap_pt_index ≤ j)
      → get_elem? (shrinking k p target).table j ≡ get_elem? p.user_page_table j
  pub frames :
      (f : ℕ)
      → total f (shrinking k p target).table (shrinking k p target).memory
        ≡ total f p.user_page_table k.memory

brk_to-shrink :
    (k : Kernel) (target : ℕ) (p : Pcb)
    → k.active_pcb ≢ null
    → k.pcbs k.active_pcb ≡ some p
    → target ≤ p.user_heap_pt_index
    → some_entry invalid_frame (p.user_heap_pt_index - target) target p.user_page_table ≡ some false
    → (shrinking k p target).status ≡ done
    → brk_to target p k ≡ ok (pos 0) (after_walk k p (shrinking k p target) target)
unfolding brk_to load_pcb update_pcb
brk_to-shrink k target p live holds shrinks mapped ends = ground arith

-- KernelBrk with an address that rounds up to a page above the data's last, at or below the break
-- and below the stack, where the pages from there to the break are mapped and no allocation fails,
-- returns 0, unmaps every page from the new break to the old one, changes no other entry of the
-- page table, and keeps each frame mapped or free, as often as before.
pub kernel_brk-Shrunk :
    (k : Kernel) (addr target : ℕ) (p : Pcb)
    → addr ≢ null
    → k.active_pcb ≢ null
    → k.pcbs k.active_pcb ≡ some p
    → target_page addr ≡ pos target
    → target < p.user_stack_pt_index
    → p.user_data_pt_index < target
    → target ≤ p.user_heap_pt_index
    → p.user_heap_pt_index ≤ length p.user_page_table
    → some_entry invalid_frame (p.user_heap_pt_index - target) target p.user_page_table ≡ some false
    → ((i : ℕ) → k.memory.malloc i ≢ null)
    → Shrunk k p target (kernel_brk addr k)
kernel_brk-Shrunk k addr target p real live holds at below above shrinks fits mapped room =
    let n = p.user_heap_pt_index - target in
    let ends = unmap_entries-done n target p.user_page_table k.memory (omega arith) room in
    record {
      returned =
          kernel_brk-brk_to k addr target p real live holds at below above
          ∙ brk_to-shrink k target p live holds shrinks mapped ends;
      inside = λ j lo hi.
          unmap_entries_inside n target j p.user_page_table k.memory lo (omega arith) ends;
      outside = λ j out. unmap_entries_outside n target j p.user_page_table k.memory (omega arith);
      frames = λ f. unmap_entries-total f n target p.user_page_table k.memory;
    }
