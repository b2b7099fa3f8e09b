-- ===== src/Frames/Unmapping.antt =====
-- What `unmap_entries` does to a page table, inside the stretch and outside of it.
use yalnix_implementation.Base.{
  ℕ, zero, suc, ◌+◌, ◌≤◌, ◌<◌, ◌≡◌, ◌≢◌, refl, true, false, ◌==◌, some, List, get_elem?, set, arith,
  ◌∙◌, Bool-cases, Option-cases, inl, inr, ◌⊎◌, length, length-set, get_elem?-set_self,
  get_elem?-set_ne, get_elem?-lt,
}
use yalnix_implementation.Hardware.{Pte, pte, valid_frame, invalid_frame, no_x_no_w_no_r, null}
use yalnix_implementation.Frames.{Memory, deallocate_pfn}
use yalnix_implementation.Frames.Loops.{done, unmap_entries}
use yalnix_implementation.Frames.Mapping.{le_cases}

pub unmap_entries_outside :
    (n i j : ℕ) (pt : List Pte) (m : Memory)
    → (j < i) ⊎ (i + n ≤ j)
    → get_elem? (unmap_entries n i pt m).table j ≡ get_elem? pt j
unfolding unmap_entries
unmap_entries_outside zero i j pt m h = refl
unmap_entries_outside (suc n) i j pt m h = elim (Option-cases (get_elem? pt i)) [
  | inl out ↦ rw (out, unmap_entries)
  | inr (e, at) ↦ elim (Bool-cases (e.valid == valid_frame)) [
    | inl good ↦ elim (Bool-cases (deallocate_pfn e.pfn m).0) [
      | inr failed ↦ rw (at, unmap_entries) (rw good (rw failed refl))
      | inl freed ↦
          rw (at, unmap_entries)
            (rw good (
              rw freed (
                unmap_entries_outside n (suc i) j _ _ (omega arith)
                ∙ get_elem?-set_ne pt i j _ (omega arith))))
    ]
    | inr bad ↦
        rw (at, unmap_entries) (rw bad (unmap_entries_outside n (suc i) j pt m (omega arith)))
  ]
]

-- the entry is in the table and is not valid
abbrev pub IsUnmapped : List Pte → ℕ → Type 0
IsUnmapped pt j = (e : Pte) × (get_elem? pt j ≡ some e) × ((e.valid == valid_frame) ≡ false)

pub unmap_entries_inside :
    (n i j : ℕ) (pt : List Pte) (m : Memory)
    → i ≤ j
    → j < i + n
    → (unmap_entries n i pt m).status ≡ done
    → IsUnmapped (unmap_entries n i pt m).table j
unfolding unmap_entries
unmap_entries_inside zero i j pt m lo hi = absurd (omega arith)
unmap_entries_inside (suc n) i j pt m lo hi = elim (Option-cases (get_elem? pt i)) [
  | inl out ↦ rw (out, unmap_entries) λ ok. cc
  | inr (e, at) ↦ elim (Bool-cases (e.valid == valid_frame)) [
    | inl good ↦ elim (Bool-cases (deallocate_pfn e.pfn m).0) [
      | inr failed ↦ rw (at, unmap_entries) (rw good (rw failed λ ok. cc))
      | inl freed ↦
          rw (at, unmap_entries)
            (rw good (
              rw freed λ ok. elim (le_cases i j lo) [
                | inl here ↦ (
                  pte invalid_frame no_x_no_w_no_r 0,
                  unmap_entries_outside n (suc i) j _ _ (omega arith)
                      ∙ rw (← here)
                          (get_elem?-set_self pt i e (pte invalid_frame no_x_no_w_no_r 0) at),
                  refl,
                )
                | inr later ↦ unmap_entries_inside n (suc i) j _ _ later (omega arith) ok
              ]))
    ]
    | inr bad ↦
        rw (at, unmap_entries)
          (rw bad λ ok. elim (le_cases i j lo) [
            | inl here ↦
                (e, unmap_entries_outside n (suc i) j _ _ (omega arith) ∙ rw (← here) at, bad)
            | inr later ↦ unmap_entries_inside n (suc i) j _ _ later (omega arith) ok
          ])
  ]
]

pub deallocate_pfn-succeeds :
    (f : ℕ) (m : Memory)
    → ((c : ℕ) → m.malloc c ≢ null)
    → ((deallocate_pfn f m).0 ≡ true) × ((deallocate_pfn f m).1.malloc ≡ m.malloc)
unfolding deallocate_pfn
deallocate_pfn-succeeds f m room = ground (arith, room m.mallocs)

pub unmap_entries-done :
    (n i : ℕ) (pt : List Pte) (m : Memory)
    → i + n ≤ length pt
    → ((c : ℕ) → m.malloc c ≢ null)
    → (unmap_entries n i pt m).status ≡ done
unfolding unmap_entries
unmap_entries-done zero i pt m fits room = refl
unmap_entries-done (suc n) i pt m fits room =
    let (e, at) = get_elem?-lt pt i (omega arith) in
    let (freed, same) = deallocate_pfn-succeeds e.pfn m room in
    let gone = pte invalid_frame no_x_no_w_no_r 0 in
    elim (Bool-cases (e.valid == valid_frame)) [
      | inl good ↦
          rw (at, unmap_entries)
            (rw good (
              rw freed (
                unmap_entries-done n (suc i) (set pt i gone) (deallocate_pfn e.pfn m).1
                  (omega (arith, length-set pt i gone)) (rw same room))))
      | inr bad ↦
          rw (at, unmap_entries) (rw bad (unmap_entries-done n (suc i) pt m (omega arith) room))
    ]
