-- ===== src/Syscall/Brk/RunningOut.antt =====
-- The loop of KernelBrk that maps a stretch of pages, where the frames run out.
use mathlib.Core.Path.{subst}
use yalnix_implementation.Base.{
  ℕ, zero, suc, ◌+◌, ◌≡◌, ◌<◌, ◌≤◌, ◌≢◌, refl, sym, ap, ◌∙◌, ◌==◌, ◌⊎◌, some, true, false, List, [],
  ◌∷◌, arith, length, get_elem?, set, get_elem?-set_self, get_elem?-set_ne, inl, inr,
}
use yalnix_implementation.Hardware.{Pte, pte, valid_frame, invalid_frame}
use yalnix_implementation.Frames.{Memory, pop_frame, allocate_pfn}
use yalnix_implementation.Frames.Loops.{error, Walk, map_entries, some_entry}
use yalnix_implementation.Frames.Mapping.{AllLive}

-- the entries of the stretch are there, with the valid bit 0
abbrev pub AllClear : List Pte → ℕ → ℕ → Type 0
AllClear pt i n =
    (j : ℕ)
    → i ≤ j
    → j < i + n
    → (e : Pte) × (get_elem? pt j ≡ some e) × ((e.valid == invalid_frame) ≡ true)

pub clear_entries :
    (n i : ℕ) (pt : List Pte) → AllClear pt i n → some_entry valid_frame n i pt ≡ some false
unfolding some_entry
clear_entries zero i pt clear = refl
clear_entries (suc n) i pt clear =
    let (e, at, bad) = clear i (omega arith) (omega arith) in
    ground (arith, at, clear_entries n (suc i) pt (λ j lo hi. clear j (omega arith) (omega arith)))

-- How the loop that maps a stretch of `pt` from `i` on ends when there are only the frames `fs`, too
-- few: they are mapped in their order.
pub record RanOut (prot i : ℕ) (pt : List Pte) (fs : List ℕ) (w : Walk) : Type 0 where
  pub failed : w.status ≡ error
  pub nothing_free : w.memory.pfn_list ≡ []
  pub used :
      (j g : ℕ)
      → get_elem? fs j ≡ some g
      → get_elem? w.table (i + j) ≡ some (pte valid_frame prot g)
  pub kept : (j : ℕ) → (j < i) ⊎ (i + length fs ≤ j) → get_elem? w.table j ≡ get_elem? pt j

map_entries-next :
    (prot n i f : ℕ) (pt : List Pte) (m : Memory) (fs : List ℕ) (e : Pte)
    → get_elem? pt i ≡ some e
    → (e.valid == invalid_frame) ≡ true
    → m.pfn_list ≡ f ∷ fs
    → f ≢ 0
    → map_entries prot (suc n) i pt m
      ≡ map_entries prot n (suc i) (set pt i (pte valid_frame prot f)) (record m { pfn_list = fs })
unfolding map_entries allocate_pfn pop_frame
map_entries-next prot n i f pt m fs e at clear free real = ground arith

map_entries-none :
    (prot n i : ℕ) (pt : List Pte) (m : Memory) (e : Pte)
    → get_elem? pt i ≡ some e
    → (e.valid == invalid_frame) ≡ true
    → m.pfn_list ≡ []
    → ((map_entries prot (suc n) i pt m).status ≡ error)
      × ((map_entries prot (suc n) i pt m).memory.pfn_list ≡ [])
      × ((map_entries prot (suc n) i pt m).table ≡ pt)
unfolding map_entries allocate_pfn pop_frame
map_entries-none prot n i pt m e at clear free = ground arith

pub map_entries-RanOut :
    (prot n i : ℕ) (pt : List Pte) (m : Memory) (fs : List ℕ)
    → m.pfn_list ≡ fs
    → length fs < n
    → AllClear pt i n
    → AllLive fs
    → RanOut prot i pt fs (map_entries prot n i pt m)
map_entries-RanOut prot zero i pt m fs free short clear real = absurd (omega arith)
map_entries-RanOut prot (suc n) i pt m [] free short clear real =
    let (e, at, bad) = clear i (omega arith) (omega arith) in
    let (failed, nothing, same) = map_entries-none prot n i pt m e at bad free in
    record {
      failed = failed;
      nothing_free = nothing;
      used = λ j g h. cc h;
      kept = λ j out. ap (λ (t : List Pte). get_elem? t j) same;
    }
map_entries-RanOut prot (suc n) i pt m (f ∷ fs) free short clear (live, real) =
    let (e, at, bad) = clear i (omega arith) (omega arith) in
    let here = pte valid_frame prot f in
    let pt1 = set pt i here in
    let m1 = record m { pfn_list = fs } in
    let ih =
      map_entries-RanOut prot n (suc i) pt1 m1 fs refl (omega arith)
        (λ j lo hi.
          let (d, d-at, d-bad) = clear j (omega arith) (omega arith) in
          (d, get_elem?-set_ne pt i j here (omega arith) ∙ d-at, d-bad))
        real in
    subst (RanOut prot i pt (f ∷ fs)) (sym (map_entries-next prot n i f pt m fs e at bad free live))
      (record {
        failed = ih.failed;
        nothing_free = ih.nothing_free;
        used =
            used_cons i f fs here pt1 (map_entries prot n (suc i) pt1 m1).table
              (get_elem?-set_self pt i e here at) ih.used (ih.kept i (inl (omega arith))) refl;
        kept = λ j out. elim out [
          | inl below ↦ ih.kept j (inl (omega arith)) ∙ get_elem?-set_ne pt i j here (omega arith)
          | inr above ↦ ih.kept j (inr (omega arith)) ∙ get_elem?-set_ne pt i j here (omega arith)
        ];
      })
  where
    used_cons :
        (i f : ℕ) (fs : List ℕ) (here : Pte) (pt1 t : List Pte)
        → get_elem? pt1 i ≡ some here
        → ((j g : ℕ)
            → get_elem? fs j ≡ some g
            → get_elem? t (suc i + j) ≡ some (pte valid_frame prot g))
        → get_elem? t i ≡ get_elem? pt1 i
        → here ≡ pte valid_frame prot f
        → (j g : ℕ) → get_elem? (f ∷ fs) j ≡ some g
        → get_elem? t (i + j) ≡ some (pte valid_frame prot g)
    used_cons i f fs here pt1 t set_at later kept same zero g h =
        let first : f ≡ g = ground arith in
        let index : i + 0 ≡ i = omega arith in
        ap (get_elem? t) index
        ∙ kept
        ∙ set_at
        ∙ ap some same
        ∙ ap (λ x. some (pte valid_frame prot x)) first
    used_cons i f fs here pt1 t set_at later kept same (suc j) g h =
        let index : i + suc j ≡ suc i + j = omega arith in ap (get_elem? t) index ∙ later j g h
