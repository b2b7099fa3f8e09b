-- ===== src/Trap/Faults/Stack.antt =====
-- TrapMemoryHandler: how a stack grows.
use yalnix_implementation.Base.{
  ℕ, ◌-◌, ◌≤◌, ◌<◌, ◌≡◌, ◌≢◌, ◌∙◌, ◌==◌, some, false, pos, arith, ◌⊎◌, length, get_elem?,
}
use yalnix_implementation.Hardware.{
  null, Pte, UserContext, valid_frame, no_x_w_r, page_of, down_to_page, region1_index,
}
use yalnix_implementation.Frames.Loops.{Walk, map_entries, done}
use yalnix_implementation.Frames.Conservation.{total, map_entries-total}
use yalnix_implementation.Frames.Mapping.{
  AllLive, IsMapped, map_entries_outside, map_entries_inside, map_entries-done,
}
use yalnix_implementation.Kernel.{Kernel, Pcb, Run, ok, put, Outcome, returns, load_pcb, update_pcb}
use yalnix_implementation.Syscall.Brk.{walk_active}
use yalnix_implementation.Trap.Faults.{grow_stack, grow_from, trap_memory_handler}

-- the loop that maps the pages from `target` up to the stack
abbrev pub stack_growth : Kernel → Pcb → ℕ → Walk
stack_growth k p target =
    map_entries no_x_w_r (p.user_stack_pt_index - target) target p.user_page_table k.memory

-- the state behind it
abbrev pub after_growth : Kernel → Pcb → Walk → Kernel
after_growth k p w = record k {
  pcbs = put k.pcbs k.active_pcb (some (record p { user_page_table = w.table }));
  memory = w.memory;
}

-- what a stack that has grown down to the page `target` means
pub record StackGrown (k : Kernel) (p : Pcb) (target : ℕ) (r : Run Outcome) : Type 0 where
  pub returned : r ≡ ok (returns (pos 0)) (after_growth k p (stack_growth k p target))
  pub inside :
      (j : ℕ) → target ≤ j → j < p.user_stack_pt_index → IsMapped (stack_growth k p target).table j
  pub outside :
      (j : ℕ)
      → (j < target) ⊎ (p.user_stack_pt_index ≤ j)
      → get_elem? (stack_growth k p target).table j ≡ get_elem? p.user_page_table j
  pub frames :
      (f : ℕ)
      → f ≢ 0
      → total f (stack_growth k p target).table (stack_growth k p target).memory
        ≡ total f p.user_page_table k.memory

grow_stack-after_growth :
    (k : Kernel) (target : ℕ) (p : Pcb)
    → k.active_pcb ≢ null
    → k.pcbs k.active_pcb ≡ some p
    → (stack_growth k p target).status ≡ done
    → grow_stack target k ≡ ok (returns (pos 0)) (after_growth k p (stack_growth k p target))
unfolding grow_stack walk_active load_pcb update_pcb
grow_stack-after_growth k target p live holds ends = ground arith

trap_memory_handler-grow_stack :
    (k : Kernel) (target : ℕ) (p : Pcb) (c : UserContext) (e : Pte)
    → k.active_pcb ≢ null
    → k.pcbs k.active_pcb ≡ some p
    → k.uctxt k.active_pcb ≡ some c
    → region1_index (page_of (down_to_page c.addr)) ≡ pos target
    → get_elem? p.user_page_table target ≡ some e
    → (e.valid == valid_frame) ≡ false
    → trap_memory_handler k ≡ grow_stack target k
unfolding trap_memory_handler grow_from load_pcb
trap_memory_handler-grow_stack k target p c e live holds context at entry unmapped = ground arith

-- At a fault in an unmapped page below the stack, with as many free frames, none of number 0, as
-- pages from there up to the stack, TrapMemoryHandler returns with each of these pages mapped, no
-- other entry of the table changed, and each frame mapped or free as often as before.
pub trap_memory_handler-StackGrown :
    (k : Kernel) (target : ℕ) (p : Pcb) (c : UserContext) (e : Pte)
    → k.active_pcb ≢ null
    → k.pcbs k.active_pcb ≡ some p
    → k.uctxt k.active_pcb ≡ some c
    → region1_index (page_of (down_to_page c.addr)) ≡ pos target
    → get_elem? p.user_page_table target ≡ some e
    → (e.valid == valid_frame) ≡ false
    → target < p.user_stack_pt_index
    → p.user_stack_pt_index ≤ length p.user_page_table
    → p.user_stack_pt_index - target ≤ length k.memory.pfn_list
    → AllLive k.memory.pfn_list
    → StackGrown k p target (trap_memory_handler k)
trap_memory_handler-StackGrown k target p c e live holds context at entry unmapped below fits enough
      frames =
    let n = p.user_stack_pt_index - target in
    let ends =
      map_entries-done no_x_w_r n target p.user_page_table k.memory (omega arith) enough frames in
    record {
      returned =
          trap_memory_handler-grow_stack k target p c e live holds context at entry unmapped
          ∙ grow_stack-after_growth k target p live holds ends;
      inside = λ j lo hi.
          map_entries_inside no_x_w_r n target j p.user_page_table k.memory lo (omega arith) ends;
      outside =
          λ j out. map_entries_outside no_x_w_r n target j p.user_page_table k.memory (omega arith);
      frames = λ f real. map_entries-total f no_x_w_r n target p.user_page_table k.memory real;
    }
