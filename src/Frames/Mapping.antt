-- ===== src/Frames/Mapping.antt =====
-- What `map_entries` does to a page table, inside the stretch and outside of it.
use yalnix_implementation.Base.{
  ℕ, zero, suc, ◌+◌, ◌≤◌, ◌<◌, ◌≡◌, ◌≢◌, refl, false, ◌==◌, some, List, [], ◌∷◌, get_elem?, set,
  arith, ◌∙◌, Bool-cases, Option-cases, inl, inr, ◌⊎◌, length, length-set, get_elem?-set_self,
  get_elem?-set_ne, get_elem?-lt,
}
use yalnix_implementation.Hardware.{Pte, pte, valid_frame, invalid_frame}
use yalnix_implementation.Frames.{Memory, pop_frame, allocate_pfn}
use yalnix_implementation.Frames.Loops.{done, map_entries}

-- The loop that maps a stretch of a page table changes no entry outside of it, however it ends.
pub map_entries_outside :
    (prot n i j : ℕ) (pt : List Pte) (m : Memory)
    → (j < i) ⊎ (i + n ≤ j)
    → get_elem? (map_entries prot n i pt m).table j ≡ get_elem? pt j
unfolding map_entries
map_entries_outside prot zero i j pt m h = refl
map_entries_outside prot (suc n) i j pt m h = elim (Option-cases (get_elem? pt i)) [
  | inl out ↦ rw (out, map_entries)
  | inr (e, at) ↦ elim (Bool-cases (e.valid == invalid_frame)) [
    | inl bad ↦ elim (Option-cases (allocate_pfn m).0) [
      | inl failed ↦ rw (at, map_entries) (rw bad (rw failed refl))
      | inr (g, got) ↦
          rw (at, map_entries)
            (rw bad (
              rw got (
                map_entries_outside prot n (suc i) j _ _ (omega arith)
                ∙ get_elem?-set_ne pt i j _ (omega arith))))
    ]
    | inr good ↦
        rw (at, map_entries) (rw good (map_entries_outside prot n (suc i) j pt m (omega arith)))
  ]
]

-- the entry is in the table and its valid bit is not 0
abbrev pub IsMapped : List Pte → ℕ → Type 0
IsMapped pt j = (e : Pte) × (get_elem? pt j ≡ some e) × ((e.valid == invalid_frame) ≡ false)

pub le_cases : (i j : ℕ) → i ≤ j → (i ≡ j) ⊎ (suc i ≤ j)
le_cases i j h = grind arith

-- Where the loop that maps a stretch of a page table ends by its bound, every entry of the stretch
-- is mapped.
pub map_entries_inside :
    (prot n i j : ℕ) (pt : List Pte) (m : Memory)
    → i ≤ j
    → j < i + n
    → (map_entries prot n i pt m).status ≡ done
    → IsMapped (map_entries prot n i pt m).table j
unfolding map_entries
map_entries_inside prot zero i j pt m lo hi = absurd (omega arith)
map_entries_inside prot (suc n) i j pt m lo hi = elim (Option-cases (get_elem? pt i)) [
  | inl out ↦ rw (out, map_entries) λ ok. cc
  | inr (e, at) ↦ elim (Bool-cases (e.valid == invalid_frame)) [
    | inl bad ↦ elim (Option-cases (allocate_pfn m).0) [
      | inl failed ↦ rw (at, map_entries) (rw bad (rw failed λ ok. cc))
      | inr (g, got) ↦
          rw (at, map_entries)
            (rw bad (
              rw got λ ok. elim (le_cases i j lo) [
                | inl here ↦ (
                  pte valid_frame prot g,
                  map_entries_outside prot n (suc i) j _ _ (omega arith)
                      ∙ rw (← here) (get_elem?-set_self pt i e (pte valid_frame prot g) at),
                  refl,
                )
                | inr later ↦ map_entries_inside prot n (suc i) j _ _ later (omega arith) ok
              ]))
    ]
    | inr good ↦
        rw (at, map_entries)
          (rw good λ ok. elim (le_cases i j lo) [
            | inl here ↦
                (e, map_entries_outside prot n (suc i) j _ _ (omega arith) ∙ rw (← here) at, good)
            | inr later ↦ map_entries_inside prot n (suc i) j _ _ later (omega arith) ok
          ])
  ]
]

-- the free list holds no frame 0
abbrev pub AllLive : List ℕ → Type 0
AllLive [] = Unit
AllLive (f ∷ fs) = (f ≢ 0) × AllLive fs

pub take_live :
    (fs : List ℕ) (n : ℕ)
    → suc n ≤ length fs
    → AllLive fs
    → (g : ℕ) × ((pop_frame fs).0 ≡ some g)
      × (n ≤ length (pop_frame fs).1)
      × AllLive (pop_frame fs).1
unfolding pop_frame
take_live [] n h live = absurd (omega arith)
take_live (f ∷ fs) n h live = (f, ground arith, omega arith, live.1)

pop-le : (fs : List ℕ) (n : ℕ) → suc n ≤ length fs → n ≤ length fs
pop-le fs n h = omega arith

-- With a free frame for each entry of the stretch the loop ends by its bound.
pub map_entries-done :
    (prot n i : ℕ) (pt : List Pte) (m : Memory)
    → i + n ≤ length pt
    → n ≤ length m.pfn_list
    → AllLive m.pfn_list
    → (map_entries prot n i pt m).status ≡ done
unfolding map_entries allocate_pfn
map_entries-done prot zero i pt m fits enough live = refl
map_entries-done prot (suc n) i pt m fits enough live =
    let (e, at) = get_elem?-lt pt i (omega arith) in
    let (g, got, left, rest) = take_live m.pfn_list n enough live in
    elim (Bool-cases (e.valid == invalid_frame)) [
      | inl bad ↦
          rw (at, map_entries)
            (rw bad (
              rw got (
                map_entries-done prot n (suc i) (set pt i (pte valid_frame prot g)) _
                  (omega (arith, length-set pt i (pte valid_frame prot g))) left rest)))
      | inr good ↦
          rw (at, map_entries)
            (rw good (map_entries-done prot n (suc i) pt m (omega arith) (omega arith) live))
    ]
