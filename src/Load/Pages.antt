-- ===== src/Load/Pages.antt =====
-- LoadProgram's loops over the page table of region 1.
use yalnix_implementation.Base.{
  ℕ, zero, suc, true, false, ◌==◌, none, some, List, [], ◌∷◌, get_elem?, set,
}
use yalnix_implementation.Hardware.{Pte, pte, valid_frame, invalid_frame, no_x_w_r, x_no_w_r}
use yalnix_implementation.Frames.{Memory, allocate_pfn, deallocate_pfn}
use yalnix_implementation.Frames.Loops.{Walk, walk, done, error, undefined}

-- Every valid page is given up. What DeallocatePFN returns is not looked at.
unfoldable pub throw_away : List Pte → Memory → List Pte × Memory
throw_away [] m = ([], m)
throw_away (e ∷ pt) m = elim (e.valid == valid_frame) [
  | true ↦
      let (rest, m') = throw_away pt (deallocate_pfn e.pfn m).1 in
      (record e { valid = invalid_frame; pfn = 0 } ∷ rest, m')
  | false ↦ let (rest, m') = throw_away pt m in (e ∷ rest, m')
]

-- `count` pages from index `i` get a frame each. An entry is marked valid before its frame is asked for.
unfoldable pub place_pages : ℕ → ℕ → List Pte → Memory → Walk
place_pages zero i pt m = walk done pt m
place_pages (suc n) i pt m = elim (get_elem? pt i) [
  | none ↦ walk undefined pt m
  | some e ↦
      let (r, m') = allocate_pfn m in
      elim r [
        | none ↦ walk error (set pt i (pte valid_frame no_x_w_r e.pfn)) m'
        | some f ↦ place_pages n (suc i) (set pt i (pte valid_frame no_x_w_r f)) m'
      ]
]

-- the text pages become readable and executable
unfoldable pub protect_text : ℕ → ℕ → List Pte → List Pte
protect_text zero i pt = pt
protect_text (suc n) i pt = elim (get_elem? pt i) [
  | none ↦ pt
  | some e ↦ protect_text n (suc i) (set pt i (record e { prot = x_no_w_r }))
]
