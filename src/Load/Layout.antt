-- ===== src/Load/Layout.antt =====
-- LoadProgram of a file that loads: where its sections are, and the frames behind them.
use yalnix_implementation.Base.{
  ℕ, ◌+◌, ◌-◌, ◌≤◌, ◌<◌, ◌≡◌, ◌≢◌, true, List, arith, ◌∙◌, inr, length, pos, ℤ,
}
use yalnix_implementation.Hardware.{Ptr, max_pt_len, x_no_w_r, no_x_w_r}
use yalnix_implementation.Frames.Conservation.{total}
use yalnix_implementation.Frames.Mapping.{AllLive}
use yalnix_implementation.Frames.Unmapping.{IsUnmapped}
use yalnix_implementation.Process.CopyLaws.{pages}
use yalnix_implementation.Kernel.{Kernel, Pcb, Run, ok}
use yalnix_implementation.Load.Image.{
  LoadInfo, executable, text_page, data_page, data_pages, stack_pages,
}
use yalnix_implementation.Load.Placement.{MapsWith, protect_text-inside}
use yalnix_implementation.Load.{load_program}
use yalnix_implementation.Load.Loaded.{
  thrown, text_placed, data_placed, stack_placed, loaded_table, loaded, placed_process,
  finish_load-with,
}
use yalnix_implementation.Load.Sections.{
  Loadable, Elsewhere, IsUnmapped-at, maps_at, gone, text_lem, data_lem, stack_lem, untouched,
  data_kept, text_kept, protected_behind, frames_kept, reaches_finish,
}

-- What loading means: the call returns 0 in the state `loaded`, the text is readable and executable, data and
-- stack are readable and writable, no other page is mapped, and each frame is mapped by the process
-- or free as often as before.
pub record LaidOut (k : Kernel) (a : Ptr) (li : LoadInfo) (args : List (List ℕ)) (p : Pcb)
    (r : Run ℤ) : Type 0 where
  pub returned : r ≡ ok (pos 0) (loaded k a li args p)
  pub text :
      (j : ℕ)
      → text_page li ≤ j
      → j < text_page li + li.t_npg
      → MapsWith x_no_w_r (loaded_table k a li args p) j
  pub data_and_bss :
      (j : ℕ)
      → data_page li ≤ j
      → j < data_page li + data_pages li
      → MapsWith no_x_w_r (loaded_table k a li args p) j
  pub stack :
      (j : ℕ)
      → max_pt_len - stack_pages args ≤ j
      → j < max_pt_len
      → MapsWith no_x_w_r (loaded_table k a li args p) j
  pub nothing_else :
      (j : ℕ) → j < max_pt_len → Elsewhere li args j → IsUnmapped (loaded_table k a li args p) j
  pub conserved :
      (f : ℕ)
      → f ≢ 0
      → total f (loaded_table k a li args p) (stack_placed k a li args p).memory
        ≡ total f p.user_page_table k.memory
  pub left :
      length (stack_placed k a li args p).memory.pfn_list
        + (li.t_npg + data_pages li + stack_pages args)
      ≡ length k.memory.pfn_list + pages p.user_page_table
  pub live : AllLive (stack_placed k a li args p).memory.pfn_list

-- If the entry of an executable file is in region 1, its text ends at its data or below, there is
-- a page at least between heap and stack, both reads are whole, the process has a PCB with a whole
-- table of region 1, as many frames as the new pages need are free or the old pages', none of them
-- of number 0, and no allocation fails, LoadProgram returns 0: the stack pointer is at the
-- argument block, the program counter at the entry, the text is readable and executable, data and
-- stack are readable and writable, no other page is mapped, and each frame other than 0 is mapped
-- by the process or free as often as before.
pub load_program-LaidOut :
    (k : Kernel) (a : Ptr) (li : LoadInfo) (args : List (List ℕ)) (p : Pcb)
    → Loadable k a li args p
    → LaidOut k a li args p (load_program (executable li true true) args a k)
load_program-LaidOut k a li args p h = record {
  returned =
      reaches_finish k a li args p h true true
      ∙ finish_load-with (record k { ptbr1 = a }) a h.live li args (placed_process k a li args p)
          (stack_placed k a li args p).memory;
  text = λ j lo hi.
      protect_text-inside li.t_npg (text_page li) j (stack_placed k a li args p).table lo hi
        (λ l lo' hi'.
          maps_at no_x_w_r (text_placed k a li args p).table (stack_placed k a li args p).table l
            (text_kept k a li args p h l hi') ((text_lem k a li args p h).inside l lo' hi'));
  data_and_bss = λ j lo hi.
      maps_at no_x_w_r (data_placed k a li args p).table (loaded_table k a li args p) j
        (protected_behind k a li args p h j (inr (omega (arith, h.ordered)))
          ∙ data_kept k a li args p h j hi)
        ((data_lem k a li args p h).inside j lo hi);
  stack = λ j lo hi.
      maps_at no_x_w_r (stack_placed k a li args p).table (loaded_table k a li args p) j
        (protected_behind k a li args p h j (inr (omega (arith, h.ordered, h.gap))))
        ((stack_lem k a li args p h).inside j lo (omega (arith, h.gap)));
  nothing_else = λ j hi (no_text, no_data, no_stack).
      IsUnmapped-at (thrown k a li args p).0 (loaded_table k a li args p) j
        (protected_behind k a li args p h j no_text
          ∙ untouched k a li args p h j (no_text, no_data, no_stack))
        ((gone k a li args p h).entries j (omega (arith, h.table)));
  conserved = λ f real. frames_kept k a li args p h f real;
  left = omega (
    arith,
    (stack_lem k a li args p h).left,
    (data_lem k a li args p h).left,
    (text_lem k a li args p h).left,
    (gone k a li args p h).grown,
    h.enough,
  );
  live = (stack_lem k a li args p h).live;
}
