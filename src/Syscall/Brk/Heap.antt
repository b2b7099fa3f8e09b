-- ===== src/Syscall/Brk/Heap.antt =====
-- KernelBrk: the heap's pages and the frames behind them.
use yalnix_implementation.Base.{
  ℕ, ◌-◌, ◌≡◌, ◌<◌, ◌≤◌, ◌≢◌, ◌∙◌, Option, none, some, false, ℤ, pos, arith, length, get_elem?,
  Int-cases, inl, inr, ◌⊎◌,
}
use yalnix_implementation.Hardware.{null, valid_frame, no_x_w_r, page_of, up_to_page, region1_index}
use yalnix_implementation.Frames.Loops.{done, Walk, map_entries, some_entry}
use yalnix_implementation.Frames.Conservation.{total, map_entries-total, unmap_entries-total}
use yalnix_implementation.Frames.Mapping.{
  IsMapped, AllLive, map_entries_inside, map_entries_outside, map_entries-done,
}
use yalnix_implementation.Kernel.{Kernel, Pcb, Run, ok, error_code, put, load_pcb, update_pcb}
use yalnix_implementation.Syscall.Brk.{brk_to, kernel_brk}

-- the page that an address given to KernelBrk rounds up to
abbrev pub target_page : ℕ → ℤ
target_page addr = region1_index (page_of (up_to_page addr))

-- KernelBrk with an address that rounds up into the stack's pages or above, or to the data's last
-- page or below, returns the error code and changes nothing.
pub kernel_brk-refused :
    (k : Kernel) (addr target : ℕ) (p : Pcb)
    → addr ≢ null
    → k.active_pcb ≢ null
    → k.pcbs k.active_pcb ≡ some p
    → target_page addr ≡ pos target
    → (p.user_stack_pt_index ≤ target) ⊎ (target ≤ p.user_data_pt_index)
    → kernel_brk addr k ≡ ok error_code k
unfolding kernel_brk load_pcb
kernel_brk-refused k addr target p real live holds at bad = ground arith

-- the process behind the loop, with the break at the target
abbrev pub moved : Pcb → Walk → ℕ → Pcb
moved p w target = record p { user_page_table = w.table; user_heap_pt_index = target }

-- the state behind a loop that ended by its bound
abbrev pub after_walk : Kernel → Pcb → Walk → ℕ → Kernel
after_walk k p w target = record k {
  pcbs =
      put (put k.pcbs k.active_pcb (some (record p { user_page_table = w.table }))) k.active_pcb
        (some (moved p w target));
  memory = w.memory;
}

-- the loop that grows the heap of `p` to `target`
abbrev pub growth : Kernel → Pcb → ℕ → Walk
growth k p target =
    map_entries no_x_w_r (target - p.user_heap_pt_index) p.user_heap_pt_index p.user_page_table
      k.memory

-- What a successful growth of the heap to the page `target` means: the call returns 0, the break is
-- there, each page below it is mapped, no other entry of the table has changed, and every frame is
-- where it was or has moved from the free list to the table.
pub record Grown (k : Kernel) (p : Pcb) (target : ℕ) (r : Run ℤ) : Type 0 where
  pub returned : r ≡ ok (pos 0) (after_walk k p (growth k p target) target)
  pub inside :
      (j : ℕ) → p.user_heap_pt_index ≤ j → j < target → IsMapped (growth k p target).table j
  pub outside :
      (j : ℕ)
      → (j < p.user_heap_pt_index) ⊎ (target ≤ j)
      → get_elem? (growth k p target).table j ≡ get_elem? p.user_page_table j
  pub frames :
      (f : ℕ)
      → f ≢ 0
      → total f (growth k p target).table (growth k p target).memory
        ≡ total f p.user_page_table k.memory

brk_to-grow :
    (k : Kernel) (target : ℕ) (p : Pcb)
    → k.active_pcb ≢ null
    → k.pcbs k.active_pcb ≡ some p
    → p.user_heap_pt_index < target
    → some_entry valid_frame (target - p.user_heap_pt_index) p.user_heap_pt_index p.user_page_table
      ≡ some false
    → (growth k p target).status ≡ done
    → brk_to target p k ≡ ok (pos 0) (after_walk k p (growth k p target) target)
unfolding brk_to load_pcb update_pcb
brk_to-grow k target p live holds grows clear ends = ground arith

pub kernel_brk-brk_to :
    (k : Kernel) (addr target : ℕ) (p : Pcb)
    → addr ≢ null
    → k.active_pcb ≢ null
    → k.pcbs k.active_pcb ≡ some p
    → target_page addr ≡ pos target
    → target < p.user_stack_pt_index
    → p.user_data_pt_index < target
    → kernel_brk addr k ≡ brk_to target p k
unfolding kernel_brk load_pcb
kernel_brk-brk_to k addr target p real live holds at lo hi = ground arith

-- KernelBrk with an address that rounds up to a page above the data's last, above the break and
-- below the stack, where the pages between are unmapped and there are as many free frames, none of
-- number 0, returns 0, maps every page up to the new break, changes no other entry of the page
-- table, and keeps each frame either mapped or free.
pub kernel_brk-Grown :
    (k : Kernel) (addr target : ℕ) (p : Pcb)
    → addr ≢ null
    → k.active_pcb ≢ null
    → k.pcbs k.active_pcb ≡ some p
    → target_page addr ≡ pos target
    → target < p.user_stack_pt_index
    → p.user_stack_pt_index ≤ length p.user_page_table
    → p.user_data_pt_index < target
    → p.user_heap_pt_index < target
    → some_entry valid_frame (target - p.user_heap_pt_index) p.user_heap_pt_index p.user_page_table
      ≡ some false
    → target - p.user_heap_pt_index ≤ length k.memory.pfn_list
    → AllLive k.memory.pfn_list
    → Grown k p target (kernel_brk addr k)
kernel_brk-Grown k addr target p real live holds at below fits above grows clear enough frames =
    let ends =
      map_entries-done no_x_w_r (target - p.user_heap_pt_index) p.user_heap_pt_index
        p.user_page_table k.memory (omega arith) enough frames in
    record {
      returned =
          kernel_brk-brk_to k addr target p real live holds at below above
          ∙ brk_to-grow k target p live holds grows clear ends;
      inside = λ j lo hi.
          map_entries_inside no_x_w_r (target - p.user_heap_pt_index) p.user_heap_pt_index j
            p.user_page_table k.memory lo (omega arith) ends;
      outside = λ j out.
          map_entries_outside no_x_w_r (target - p.user_heap_pt_index) p.user_heap_pt_index j
            p.user_page_table k.memory (omega arith);
      frames = λ f real_frame.
          map_entries-total f no_x_w_r (target - p.user_heap_pt_index) p.user_heap_pt_index
            p.user_page_table k.memory real_frame;
    }

-- the frames that the active process maps, and those that are free
abbrev pub held : ℕ → Kernel → Option Pcb → ℕ
held f k none = 0
held f k (some p) = total f p.user_page_table k.memory

brk_to-held :
    (f target : ℕ) (k k' : Kernel) (p : Pcb) (r : ℤ)
    → f ≢ 0
    → k.active_pcb ≢ null
    → k.pcbs k.active_pcb ≡ some p
    → brk_to target p k ≡ ok r k'
    → held f k' (k'.pcbs k.active_pcb) ≡ total f p.user_page_table k.memory
unfolding brk_to load_pcb update_pcb
brk_to-held f target k k' p r real live holds run = ground (
  arith,
  map_entries-total f no_x_w_r (target - p.user_heap_pt_index) p.user_heap_pt_index
      p.user_page_table k.memory real,
  unmap_entries-total f (p.user_heap_pt_index - target) target p.user_page_table k.memory,
)

-- However a call of KernelBrk returns, each frame other than 0 is mapped by the running process or
-- free as often as before.
pub kernel_brk-held :
    (f addr : ℕ) (k k' : Kernel) (p : Pcb) (r : ℤ)
    → f ≢ 0
    → k.active_pcb ≢ null
    → k.pcbs k.active_pcb ≡ some p
    → kernel_brk addr k ≡ ok r k'
    → held f k' (k'.pcbs k.active_pcb) ≡ held f k (some p)
unfolding kernel_brk load_pcb
kernel_brk-held f addr k k' p r real live holds run = elim (Int-cases (target_page addr)) [
  | inl (target, at) ↦ ground (arith, brk_to-held f target k k' p r real live holds)
  | inr (n, at) ↦ ground arith
]
