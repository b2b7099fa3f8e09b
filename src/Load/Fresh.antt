-- ===== src/Load/Fresh.antt =====
-- LoadProgram into a new process, whose table maps nothing.
use yalnix_implementation.Base.{
  ℕ, zero, suc, ap, ◌∙◌, ◌-◌, ◌+◌, ◌≤◌, ◌<◌, ◌≡◌, ◌≢◌, refl, some, List, arith, length,
  length-replicate, replicate,
}
use yalnix_implementation.Hardware.{
  Ptr, Pte, pte, null, invalid_frame, no_x_no_w_no_r, vmem_region_size, max_pt_len,
}
use yalnix_implementation.Frames.Mapping.{AllLive}
use yalnix_implementation.Kernel.{Kernel, Pcb, count_malloc}
use yalnix_implementation.Process.CopyLaws.{pages}
use yalnix_implementation.Load.Image.{LoadInfo, text_page, data_page, data_pages, stack_pages}
use yalnix_implementation.Load.ThrowAway.{LiveTable, HasRoom}
use yalnix_implementation.Frames.{Memory}
use yalnix_implementation.Load.Pages.{throw_away}
use yalnix_implementation.Load.Placement.{place_pages-mallocs}
use yalnix_implementation.Load.Loaded.{thrown, text_placed, data_placed, stack_placed}
use yalnix_implementation.Load.Sections.{Loadable}

-- What LoadProgram needs of a file and of arguments.
pub record Fitting (li : LoadInfo) (args : List (List ℕ)) : Type 0 where
  pub linked : vmem_region_size ≤ li.entry
  pub gap : stack_pages args + data_page li + data_pages li < max_pt_len
  pub ordered : text_page li + li.t_npg ≤ data_page li

-- the frames that the program's pages take
abbrev pub frames_for : LoadInfo → List (List ℕ) → ℕ
frames_for li args = li.t_npg + data_pages li + stack_pages args

abbrev pub blank : ℕ → List Pte
blank n = replicate n (pte invalid_frame no_x_no_w_no_r 0)

blank-LiveTable : (n : ℕ) → LiveTable (blank n)
blank-LiveTable zero = tt
blank-LiveTable (suc n) = ((λ bad. cc), blank-LiveTable n)

pub blank-pages : (n : ℕ) → pages (blank n) ≡ 0
blank-pages zero = refl
blank-pages (suc n) = omega (arith, blank-pages n)

pub blank-Loadable :
    (n : ℕ) (k : Kernel) (a : Ptr) (li : LoadInfo) (args : List (List ℕ)) (p : Pcb)
    → n ≡ max_pt_len
    → p.user_page_table ≡ blank n
    → a ≢ null
    → k.pcbs a ≡ some p
    → HasRoom k.memory
    → Fitting li args
    → AllLive k.memory.pfn_list
    → frames_for li args ≤ length k.memory.pfn_list
    → Loadable k a li args p
blank-Loadable n k a li args p size new live holds room fit frames enough = record {
  live = live;
  holds = holds;
  room = room;
  linked = fit.linked;
  gap = fit.gap;
  ordered = fit.ordered;
  table = rw new (omega (arith, length-replicate {0} n (pte invalid_frame no_x_no_w_no_r 0)));
  frames = frames;
  old_frames = rw new (blank-LiveTable n);
  enough = omega arith;
}

blank-throw_away : (n : ℕ) (m : Memory) → throw_away (blank n) m ≡ (blank n, m)
unfolding throw_away
blank-throw_away zero m = refl
blank-throw_away (suc n) m = rw (blank-throw_away n m) refl

-- Loading into a new process asks `malloc` for the copy of the arguments alone.
pub blank-mallocs :
    (n : ℕ) (k : Kernel) (a : Ptr) (li : LoadInfo) (args : List (List ℕ)) (p : Pcb)
    → p.user_page_table ≡ blank n
    → ((stack_placed k a li args p).memory.malloc ≡ k.memory.malloc)
      × ((stack_placed k a li args p).memory.mallocs ≡ suc k.memory.mallocs)
blank-mallocs n k a li args p new =
    let m = (count_malloc k).memory in
    let t = thrown k a li args p in
    let w1 = text_placed k a li args p in
    let w2 = data_placed k a li args p in
    let same : t.1 ≡ m = rw new (ap (λ r. r.1) (blank-throw_away n m)) in
    let (m1, n1) = place_pages-mallocs li.t_npg (text_page li) t.0 t.1 in
    let (m2, n2) = place_pages-mallocs (data_pages li) (data_page li) w1.table w1.memory in
    let (m3, n3) =
      place_pages-mallocs (stack_pages args) (max_pt_len - stack_pages args) w2.table w2.memory in
    (m3 ∙ m2 ∙ m1 ∙ ap (λ r. r.malloc) same, n3 ∙ n2 ∙ n1 ∙ ap (λ r. r.mallocs) same)
