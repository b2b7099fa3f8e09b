-- ===== src/Load/Sections.antt =====
-- LoadProgram of a file that loads: the three sections, one after the other.
use yalnix_implementation.Base.{
  ℕ, ◌+◌, ◌-◌, ◌≤◌, ◌<◌, ◌≡◌, ◌≢◌, Bool, some, List, get_elem?, arith, ◌∙◌, inl, inr, ◌⊎◌, length,
}
use yalnix_implementation.Hardware.{Ptr, Pte, null, vmem_region_size, max_pt_len}
use yalnix_implementation.Frames.Conservation.{total}
use yalnix_implementation.Frames.Mapping.{AllLive}
use yalnix_implementation.Frames.Unmapping.{IsUnmapped}
use yalnix_implementation.Process.CopyLaws.{pages}
use yalnix_implementation.Kernel.{Kernel, Pcb, count_malloc}
use yalnix_implementation.Load.Image.{
  LoadInfo, executable, text_page, data_page, data_pages, stack_pages,
}
use yalnix_implementation.Load.ThrowAway.{LiveTable, HasRoom, ThrownAway, throw_away-ThrownAway}
use yalnix_implementation.Load.Placement.{
  MapsWith, Placed, place_pages-outside, place_pages-length, place_pages-Placed,
  protect_text-outside, protect_text-total,
}
use yalnix_implementation.Load.{finish_load, load_program}
use yalnix_implementation.Load.Loaded.{
  thrown, text_placed, data_placed, stack_placed, loaded_table, placed, load_program-placed,
}

-- What LoadProgram needs of the process's old table, of the free list and of the file: the frames
-- for the new pages are among the free ones and the old pages', the text ends at the data or below, and there is
-- a page at least between heap and stack.
pub record Loadable (k : Kernel) (a : Ptr) (li : LoadInfo) (args : List (List ℕ)) (p : Pcb)
    : Type 0 where
  pub live : a ≢ null
  pub holds : k.pcbs a ≡ some p
  pub room : HasRoom k.memory
  pub linked : vmem_region_size ≤ li.entry
  pub gap : stack_pages args + data_page li + data_pages li < max_pt_len
  pub ordered : text_page li + li.t_npg ≤ data_page li
  pub table : length p.user_page_table ≡ max_pt_len
  pub frames : AllLive k.memory.pfn_list
  pub old_frames : LiveTable p.user_page_table
  pub enough :
      li.t_npg + data_pages li + stack_pages args
      ≤ length k.memory.pfn_list + pages p.user_page_table

-- the page belongs to no section
abbrev pub Elsewhere : LoadInfo → List (List ℕ) → ℕ → Type 0
Elsewhere li args j =
    ((j < text_page li) ⊎ (text_page li + li.t_npg ≤ j))
    × ((j < data_page li) ⊎ (data_page li + data_pages li ≤ j))
    × (j < max_pt_len - stack_pages args)

pub IsUnmapped-at :
    (pt pt' : List Pte) (j : ℕ)
    → get_elem? pt' j ≡ get_elem? pt j
    → IsUnmapped pt j
    → IsUnmapped pt' j
IsUnmapped-at pt pt' j same (e, at, bad) = (e, same ∙ at, bad)

pub maps_at :
    (prot : ℕ) (pt pt' : List Pte) (j : ℕ)
    → get_elem? pt' j ≡ get_elem? pt j
    → MapsWith prot pt j
    → MapsWith prot pt' j
maps_at prot pt pt' j same (f, at) = (f, same ∙ at)

module _ (k : Kernel) (a : Ptr) (li : LoadInfo) (args : List (List ℕ)) (p : Pcb)
    (h : Loadable k a li args p) where
  pub gone : ThrownAway p.user_page_table (count_malloc k).memory (thrown k a li args p)
  gone = throw_away-ThrownAway p.user_page_table (count_malloc k).memory h.room

  pub text_lem :
      Placed li.t_npg
        (text_page li)
        (thrown k a li args p).0
        (thrown k a li args p).1
        (text_placed k a li args p)
  text_lem =
      place_pages-Placed li.t_npg (text_page li) (thrown k a li args p).0 (thrown k a li args p).1
        (omega (arith, gone.same_length, h.table, h.ordered, h.gap))
        (omega (arith, gone.grown, h.enough)) (gone.live h.frames h.old_frames)

  pub text_length : length (text_placed k a li args p).table ≡ max_pt_len
  text_length =
      place_pages-length li.t_npg (text_page li) (thrown k a li args p).0 (thrown k a li args p).1
      ∙ gone.same_length
      ∙ h.table

  pub data_lem :
      Placed
        (data_pages li)
        (data_page li)
        (text_placed k a li args p).table
        (text_placed k a li args p).memory
        (data_placed k a li args p)
  data_lem =
      place_pages-Placed (data_pages li) (data_page li) (text_placed k a li args p).table
        (text_placed k a li args p).memory (omega (arith, text_length, h.gap))
        (omega (arith, text_lem.left, gone.grown, h.enough)) text_lem.live

  pub data_length : length (data_placed k a li args p).table ≡ max_pt_len
  data_length =
      place_pages-length (data_pages li) (data_page li) (text_placed k a li args p).table
        (text_placed k a li args p).memory
      ∙ text_length

  pub stack_lem :
      Placed
        (stack_pages args)
        (max_pt_len - stack_pages args)
        (data_placed k a li args p).table
        (data_placed k a li args p).memory
        (stack_placed k a li args p)
  stack_lem =
      place_pages-Placed (stack_pages args) (max_pt_len - stack_pages args)
        (data_placed k a li args p).table (data_placed k a li args p).memory
        (omega (arith, data_length, h.gap))
        (omega (arith, data_lem.left, text_lem.left, gone.grown, h.enough)) data_lem.live

  -- an entry that none of the three loops reaches
  pub untouched :
      (j : ℕ)
      → Elsewhere li args j
      → get_elem? (stack_placed k a li args p).table j ≡ get_elem? (thrown k a li args p).0 j
  untouched j (no_text, no_data, no_stack) =
      place_pages-outside (stack_pages args) (max_pt_len - stack_pages args) j
        (data_placed k a li args p).table (data_placed k a li args p).memory (inl no_stack)
      ∙ place_pages-outside (data_pages li) (data_page li) j (text_placed k a li args p).table
          (text_placed k a li args p).memory no_data
      ∙ place_pages-outside li.t_npg (text_page li) j (thrown k a li args p).0
          (thrown k a li args p).1 no_text

  -- an entry of the data behind the stack's loop
  pub data_kept :
      (j : ℕ)
      → j < data_page li + data_pages li
      → get_elem? (stack_placed k a li args p).table j
        ≡ get_elem? (data_placed k a li args p).table j
  data_kept j hi =
      place_pages-outside (stack_pages args) (max_pt_len - stack_pages args) j
        (data_placed k a li args p).table (data_placed k a li args p).memory
        (inl (omega (arith, h.gap)))

  -- an entry of the text behind the other loops
  pub text_kept :
      (j : ℕ)
      → j < text_page li + li.t_npg
      → get_elem? (stack_placed k a li args p).table j
        ≡ get_elem? (text_placed k a li args p).table j
  text_kept j hi =
      data_kept j (omega (arith, h.ordered))
      ∙ place_pages-outside (data_pages li) (data_page li) j (text_placed k a li args p).table
          (text_placed k a li args p).memory (inl (omega (arith, h.ordered)))

  -- the protection changes no entry behind the text
  pub protected_behind :
      (j : ℕ)
      → (j < text_page li) ⊎ (text_page li + li.t_npg ≤ j)
      → get_elem? (loaded_table k a li args p) j ≡ get_elem? (stack_placed k a li args p).table j
  protected_behind j out =
      protect_text-outside li.t_npg (text_page li) j (stack_placed k a li args p).table out

  pub text-IsUnmapped :
      (j : ℕ) → data_page li ≤ j → j < max_pt_len → IsUnmapped (text_placed k a li args p).table j
  text-IsUnmapped j lo hi =
      IsUnmapped-at (thrown k a li args p).0 (text_placed k a li args p).table j
        (place_pages-outside li.t_npg (text_page li) j (thrown k a li args p).0
          (thrown k a li args p).1 (inr (omega (arith, h.ordered))))
        (gone.entries j (omega (arith, h.table)))

  pub data-IsUnmapped :
      (j : ℕ)
      → data_page li + data_pages li ≤ j
      → j < max_pt_len
      → IsUnmapped (data_placed k a li args p).table j
  data-IsUnmapped j lo hi =
      IsUnmapped-at (text_placed k a li args p).table (data_placed k a li args p).table j
        (place_pages-outside (data_pages li) (data_page li) j (text_placed k a li args p).table
          (text_placed k a li args p).memory (inr lo))
        (text-IsUnmapped j (omega arith) hi)

  pub frames_kept :
      (f : ℕ)
      → f ≢ 0
      → total f (loaded_table k a li args p) (stack_placed k a li args p).memory
        ≡ total f p.user_page_table k.memory
  frames_kept f real =
      protect_text-total f li.t_npg (text_page li) (stack_placed k a li args p).table
        (stack_placed k a li args p).memory
      ∙ stack_lem.frames
          (λ j lo hi. data-IsUnmapped j (omega (arith, h.gap)) (omega (arith, h.gap))) f real
      ∙ data_lem.frames (λ j lo hi. text-IsUnmapped j lo (omega (arith, h.gap))) f real
      ∙ text_lem.frames (λ j lo hi. gone.entries j (omega (arith, h.table, h.ordered, h.gap))) f
          real
      ∙ gone.frames f

  pub reaches_finish :
      (text_read data_read : Bool)
      → load_program (executable li text_read data_read) args a k
        ≡ finish_load li text_read data_read args a (placed k a li args p)
  reaches_finish text_read data_read =
      load_program-placed k a li args p text_read data_read h.live h.holds (h.room k.memory.mallocs)
        h.linked h.gap text_lem.ends data_lem.ends stack_lem.ends
