-- ===== src/Process/CopyTables.antt =====
-- process.c: CopyUPT, which gives a forked process a page of its own for each page of its parent.
use yalnix_implementation.Base.{ℕ, true, false, ◌==◌, none, some, List, [], ◌∷◌}
use yalnix_implementation.Hardware.{Pte, pte, valid_frame}
use yalnix_implementation.Frames.{Memory, allocate_pfn}
use yalnix_implementation.Frames.Loops.{Status, done, error, undefined}

-- How the copy ended, the child's table, the frame last mapped at the kernel's reserved page, and
-- the memory. The contents of the pages are not modelled.
pub record Copy : Type 0 where
  pub status : Status
  pub table : List Pte
  pub reserved : ℕ
  pub memory : Memory

abbrev pub copy : Status → List Pte → ℕ → Memory → Copy
copy s pt r m = record { status = s; table = pt; reserved = r; memory = m }

-- the child's entry in front of those of the rest
abbrev pub behind : Pte → Copy → Copy
behind e c = record c { table = e ∷ c.table }

unfoldable pub copy_upt : List Pte → List Pte → ℕ → Memory → Copy
copy_upt [] pt2 r m = copy done pt2 r m
copy_upt (e ∷ pt1) [] r m = copy undefined [] r m
copy_upt (e ∷ pt1) (e2 ∷ pt2) r m = elim (e.valid == valid_frame) [
  | false ↦ behind e2 (copy_upt pt1 pt2 r m)
  | true ↦
      let (f, m') = allocate_pfn m in
      elim f [
        | none ↦ copy error (e2 ∷ pt2) r m'
        | some g ↦ behind (pte valid_frame e.prot g) (copy_upt pt1 pt2 g m')
      ]
]
