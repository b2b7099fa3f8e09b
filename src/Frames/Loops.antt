-- ===== src/Frames/Loops.antt =====
-- The loops that walk a stretch of a page table: `count` entries from index `i`. Each works on the
-- table and the memory, and says how it ended.
use yalnix_implementation.Base.{
  ℕ, zero, suc, Bool, true, false, ◌==◌, Option, none, some, List, [], ◌∷◌, get_elem?, set,
}
use yalnix_implementation.Hardware.{Pte, pte, valid_frame, invalid_frame, no_x_no_w_no_r}
use yalnix_implementation.Frames.{Memory, allocate_pfn, deallocate_pfn}

-- How a loop ended: by its bound, by a `return ERROR`, or by an access outside the table.
pub data Status : Type 0 where
  done error undefined : Status

pub record Walk : Type 0 where
  pub status : Status
  pub table : List Pte
  pub memory : Memory

abbrev pub walk : Status → List Pte → Memory → Walk
walk s pt m = record { status = s; table = pt; memory = m }

-- Every invalid entry of the stretch gets a frame and the protection `prot`.
unfoldable pub map_entries : ℕ → ℕ → ℕ → List Pte → Memory → Walk
map_entries prot zero i pt m = walk done pt m
map_entries prot (suc n) i pt m = elim (get_elem? pt i) [
  | none ↦ walk undefined pt m
  | some e ↦ elim (e.valid == invalid_frame) [
    | true ↦
        let (r, m') = allocate_pfn m in
        elim r [
          | none ↦ walk error pt m'
          | some f ↦ map_entries prot n (suc i) (set pt i (pte valid_frame prot f)) m'
        ]
    | false ↦ map_entries prot n (suc i) pt m
  ]
]

-- Every valid entry of the stretch gives its frame back and becomes invalid.
unfoldable pub unmap_entries : ℕ → ℕ → List Pte → Memory → Walk
unmap_entries zero i pt m = walk done pt m
unmap_entries (suc n) i pt m = elim (get_elem? pt i) [
  | none ↦ walk undefined pt m
  | some e ↦ elim (e.valid == valid_frame) [
    | true ↦
        let (freed, m') = deallocate_pfn e.pfn m in
        elim freed [
          | false ↦ walk error pt m'
          | true ↦ unmap_entries n (suc i) (set pt i (pte invalid_frame no_x_no_w_no_r 0)) m'
        ]
    | false ↦ unmap_entries n (suc i) pt m
  ]
]

-- Is the valid bit of some entry of the stretch `bit`? `none` is an access outside the table.
unfoldable pub some_entry : ℕ → ℕ → ℕ → List Pte → Option Bool
some_entry bit zero i pt = some false
some_entry bit (suc n) i pt = elim (get_elem? pt i) [
  | none ↦ none
  | some e ↦ elim (e.valid == bit) [ true ↦ some true | false ↦ some_entry bit n (suc i) pt ]
]

-- `free_addr_space`'s loop: the frames of the valid entries go back, the entries stay as they are.
unfoldable pub release_frames : List Pte → Memory → Bool × Memory
release_frames [] m = (true, m)
release_frames (e ∷ pt) m = elim (e.valid == valid_frame) [
  | true ↦
      let (freed, m') = deallocate_pfn e.pfn m in
      elim freed [ false ↦ (false, m') | true ↦ release_frames pt m' ]
  | false ↦ release_frames pt m
]
