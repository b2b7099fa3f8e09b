-- ===== src/Process/CopyLaws.antt =====
-- process.c: the pages that CopyUPT gives a child, and the frames that it takes.
use yalnix_implementation.Base.{
  ℕ, ◌+◌, ◌≡◌, ◌≢◌, refl, sym, ◌==◌, if◌then◌else◌, true, false, List, [], ◌∷◌, ◌∙◌, arith, length,
  Bool-cases, Option-cases, inl, inr, ◌≤◌,
}
use yalnix_implementation.Hardware.{Pte, valid_frame}
use yalnix_implementation.Frames.{Memory, pop_frame, allocate_pfn}
use yalnix_implementation.Frames.Loops.{done}
use yalnix_implementation.Frames.Conservation.{total, count-pop_frame}
use yalnix_implementation.Frames.Mapping.{AllLive, take_live}
use yalnix_implementation.Process.CopyTables.{copy_upt}

-- no entry is valid
abbrev pub AllInvalid : List Pte → Type 0
AllInvalid [] = Unit
AllInvalid (e ∷ pt) = ((e.valid == valid_frame) ≡ false) × AllInvalid pt

-- However CopyUPT ends on a child's table without valid entries, each frame other than 0 is in the
-- child's table or free as often as it was free before.
pub copy_upt-total :
    (f r : ℕ) (pt1 pt2 : List Pte) (m : Memory)
    → f ≢ 0
    → AllInvalid pt2
    → total f (copy_upt pt1 pt2 r m).table (copy_upt pt1 pt2 r m).memory ≡ total f pt2 m
unfolding copy_upt allocate_pfn
copy_upt-total f r [] pt2 m live fresh = refl
copy_upt-total f r (e ∷ pt1) [] m live fresh = refl
copy_upt-total f r (e ∷ pt1) (e2 ∷ pt2) m live fresh = elim (Bool-cases (e.valid == valid_frame)) [
  | inr bad ↦ rw (bad, copy_upt) (ground (arith, copy_upt-total f r pt1 pt2 m live fresh.1))
  | inl good ↦ elim (Option-cases (pop_frame m.pfn_list).0) [
    | inl failed ↦ rw (good, copy_upt) (rw failed (ground (arith, count-pop_frame f m.pfn_list)))
    | inr (g, got) ↦
        rw (good, copy_upt)
          (rw got (
            ground (
              arith,
              count-pop_frame f m.pfn_list,
              copy_upt-total f g pt1 pt2 (allocate_pfn m).1 live fresh.1,
            )))
  ]
]

-- entry by entry: valid in both with one protection, or in neither
abbrev pub SameLayout : List Pte → List Pte → Type 0
SameLayout [] pt2 = Unit
SameLayout (e ∷ pt1) [] = ⊥
SameLayout (e ∷ pt1) (e2 ∷ pt2) =
    ((e.valid == valid_frame) ≡ (e2.valid == valid_frame))
    × ((e.valid == valid_frame) ≡ true → e.prot ≡ e2.prot)
    × SameLayout pt1 pt2

-- Where CopyUPT succeeds on a child's table without valid entries, the child has exactly the
-- parent's pages, with the parent's protections.
pub copy_upt-SameLayout :
    (r : ℕ) (pt1 pt2 : List Pte) (m : Memory)
    → AllInvalid pt2
    → (copy_upt pt1 pt2 r m).status ≡ done
    → SameLayout pt1 (copy_upt pt1 pt2 r m).table
unfolding copy_upt
copy_upt-SameLayout r [] pt2 m fresh = λ ends. tt
copy_upt-SameLayout r (e ∷ pt1) [] m fresh = λ ends. cc
copy_upt-SameLayout r (e ∷ pt1) (e2 ∷ pt2) m fresh = elim (Bool-cases (e.valid == valid_frame)) [
  | inr bad ↦
      rw (bad, copy_upt)
        λ ends. (bad ∙ sym fresh.0, (λ good. cc), copy_upt-SameLayout r pt1 pt2 m fresh.1 ends)
  | inl good ↦ elim (Option-cases (allocate_pfn m).0) [
    | inl failed ↦ rw (good, copy_upt) (rw failed λ ends. cc)
    | inr (g, got) ↦
        rw (good, copy_upt)
          (rw got λ ends.
            (good, (λ _. refl), copy_upt-SameLayout g pt1 pt2 (allocate_pfn m).1 fresh.1 ends))
  ]
]

-- the number of valid entries
abbrev pub pages : List Pte → ℕ
pages [] = 0
pages (e ∷ pt) = (if e.valid == valid_frame then 1 else 0) + pages pt

-- CopyUPT on two tables of one length ends without an error where there are as many free frames,
-- none of number 0, as the parent has pages.
pub copy_upt-done :
    (r : ℕ) (pt1 pt2 : List Pte) (m : Memory)
    → length pt1 ≡ length pt2
    → pages pt1 ≤ length m.pfn_list
    → AllLive m.pfn_list
    → (copy_upt pt1 pt2 r m).status ≡ done
unfolding copy_upt allocate_pfn
copy_upt-done r [] pt2 m same enough live = refl
copy_upt-done r (e ∷ pt1) [] m same enough live = absurd (omega arith)
copy_upt-done r (e ∷ pt1) (e2 ∷ pt2) m same enough live =
    elim (Bool-cases (e.valid == valid_frame)) [
      | inr bad ↦ rw (bad, copy_upt) (copy_upt-done r pt1 pt2 m (omega arith) (ground arith) live)
      | inl good ↦
          let (g, got, left, rest) = take_live m.pfn_list (pages pt1) (ground arith) live in
          rw (good, copy_upt)
            (rw got (copy_upt-done g pt1 pt2 (allocate_pfn m).1 (omega arith) left rest))
    ]

-- CopyUPT asks `malloc` for nothing
pub copy_upt-malloc :
    (r : ℕ) (pt1 pt2 : List Pte) (m : Memory)
    → ((copy_upt pt1 pt2 r m).memory.malloc ≡ m.malloc)
      × ((copy_upt pt1 pt2 r m).memory.mallocs ≡ m.mallocs)
unfolding copy_upt allocate_pfn
copy_upt-malloc r [] pt2 m = (refl, refl)
copy_upt-malloc r (e ∷ pt1) [] m = (refl, refl)
copy_upt-malloc r (e ∷ pt1) (e2 ∷ pt2) m = elim (Bool-cases (e.valid == valid_frame)) [
  | inr bad ↦ rw (bad, copy_upt) (copy_upt-malloc r pt1 pt2 m)
  | inl good ↦ elim (Option-cases (pop_frame m.pfn_list).0) [
    | inl failed ↦ rw (good, copy_upt) (rw failed (refl, refl))
    | inr (g, got) ↦ rw (good, copy_upt) (rw got (copy_upt-malloc g pt1 pt2 (allocate_pfn m).1))
  ]
]
