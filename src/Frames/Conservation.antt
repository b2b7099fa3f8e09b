-- ===== src/Frames/Conservation.antt =====
-- Where the frames are: how often a page table maps a frame, and how often it is free.
use yalnix_implementation.Base.{
  ℕ, zero, suc, ◌+◌, ◌≡◌, ◌≢◌, refl, ap, true, false, ◌&&◌, ◌==◌, if◌then◌else◌, Option, none, some,
  List, [], ◌∷◌, get_elem?, set, arith, ◌∙◌, Bool-cases, Option-cases, inl, inr,
}
use yalnix_implementation.Hardware.{Pte, pte, valid_frame, invalid_frame, no_x_no_w_no_r}
use yalnix_implementation.Frames.{Memory, pop_frame, allocate_pfn, deallocate_pfn}
use yalnix_implementation.Frames.Loops.{map_entries, unmap_entries, release_frames}

abbrev pub count : ℕ → List ℕ → ℕ
count f [] = 0
count f (g ∷ gs) = (if g == f then 1 else 0) + count f gs

abbrev pub holds : ℕ → Pte → ℕ
holds f e = if (e.valid == valid_frame) && (e.pfn == f) then 1 else 0

-- how often a page table maps the frame
abbrev pub mapped : ℕ → List Pte → ℕ
mapped f [] = 0
mapped f (e ∷ pt) = holds f e + mapped f pt

pub mapped-set :
    (f : ℕ) (pt : List Pte) (i : ℕ) (old new : Pte)
    → get_elem? pt i ≡ some old
    → mapped f (set pt i new) + holds f old ≡ mapped f pt + holds f new
mapped-set f [] i old new e = cc
mapped-set f (x ∷ pt) zero old new e = ground arith
mapped-set f (x ∷ pt) (suc i) old new e = omega (arith, mapped-set f pt i old new e)

abbrev pub given : ℕ → Option ℕ → ℕ
given f none = 0
given f (some g) = if g == f then 1 else 0

pub count-pop_frame :
    (f : ℕ) (fs : List ℕ) → f ≢ 0 → count f (pop_frame fs).1 + given f (pop_frame fs).0 ≡ count f fs
unfolding pop_frame
count-pop_frame f [] live = refl
count-pop_frame f (g ∷ fs) live = ground arith

-- the frames that a table maps and the free ones
abbrev pub total : ℕ → List Pte → Memory → ℕ
total f pt m = mapped f pt + count f m.pfn_list

-- one round of `map_entries`
map_entry :
    (f prot : ℕ) (pt : List Pte) (i g : ℕ) (m : Memory) (e : Pte)
    → f ≢ 0
    → get_elem? pt i ≡ some e
    → (e.valid == invalid_frame) ≡ true
    → (allocate_pfn m).0 ≡ some g
    → total f (set pt i (pte valid_frame prot g)) (allocate_pfn m).1 ≡ total f pt m
unfolding allocate_pfn
map_entry f prot pt i g m e live at bad got =
    ground (arith, mapped-set f pt i e (pte valid_frame prot g) at, count-pop_frame f m.pfn_list)

map_entry_fails :
    (f : ℕ) (pt : List Pte) (m : Memory)
    → f ≢ 0
    → (allocate_pfn m).0 ≡ none
    → total f pt (allocate_pfn m).1 ≡ total f pt m
unfolding allocate_pfn
map_entry_fails f pt m live failed = ground (arith, count-pop_frame f m.pfn_list)

-- However the loop ends, no frame is lost and none is doubled.
pub map_entries-total :
    (f prot n i : ℕ) (pt : List Pte) (m : Memory)
    → f ≢ 0
    → total f (map_entries prot n i pt m).table (map_entries prot n i pt m).memory ≡ total f pt m
unfolding map_entries
map_entries-total f prot zero i pt m live = refl
map_entries-total f prot (suc n) i pt m live = elim (Option-cases (get_elem? pt i)) [
  | inl out ↦ rw (out, map_entries)
  | inr (e, at) ↦ elim (Bool-cases (e.valid == invalid_frame)) [
    | inl bad ↦ elim (Option-cases (allocate_pfn m).0) [
      | inl failed ↦ rw (at, map_entries) (rw bad (rw failed (map_entry_fails f pt m live failed)))
      | inr (g, got) ↦
          rw (at, map_entries)
            (rw bad (
              rw got (
                map_entries-total f prot n (suc i) _ _ live
                ∙ map_entry f prot pt i g m e live at bad got)))
    ]
    | inr good ↦ rw (at, map_entries) (rw good (map_entries-total f prot n (suc i) pt m live))
  ]
]

unmap_entry :
    (f : ℕ) (pt : List Pte) (i : ℕ) (m : Memory) (e : Pte)
    → get_elem? pt i ≡ some e
    → (e.valid == valid_frame) ≡ true
    → (deallocate_pfn e.pfn m).0 ≡ true
    → total f (set pt i (pte invalid_frame no_x_no_w_no_r 0)) (deallocate_pfn e.pfn m).1
      ≡ total f pt m
unfolding deallocate_pfn
unmap_entry f pt i m e at bad freed =
    ground (arith, mapped-set f pt i e (pte invalid_frame no_x_no_w_no_r 0) at)

deallocate_pfn_fails :
    (f g : ℕ) (m : Memory)
    → (deallocate_pfn g m).0 ≡ false
    → (deallocate_pfn g m).1.pfn_list ≡ m.pfn_list
unfolding deallocate_pfn
deallocate_pfn_fails f g m failed = ground arith

-- The loop that unmaps a stretch of a page table, however it ends, keeps each frame mapped or
-- free, as often as before.
pub unmap_entries-total :
    (f n i : ℕ) (pt : List Pte) (m : Memory)
    → total f (unmap_entries n i pt m).table (unmap_entries n i pt m).memory ≡ total f pt m
unfolding unmap_entries
unmap_entries-total f zero i pt m = refl
unmap_entries-total f (suc n) i pt m = elim (Option-cases (get_elem? pt i)) [
  | inl out ↦ rw (out, unmap_entries)
  | inr (e, at) ↦ elim (Bool-cases (e.valid == valid_frame)) [
    | inl good ↦ elim (Bool-cases (deallocate_pfn e.pfn m).0) [
      | inl freed ↦
          rw (at, unmap_entries)
            (rw good (
              rw freed
                (unmap_entries-total f n (suc i) _ _ ∙ unmap_entry f pt i m e at good freed)))
      | inr failed ↦
          rw (at, unmap_entries)
            (rw good (
              rw failed
                (ap (λ fs. mapped f pt + count f fs) (deallocate_pfn_fails f e.pfn m failed))))
    ]
    | inr bad ↦ rw (at, unmap_entries) (rw bad (unmap_entries-total f n (suc i) pt m))
  ]
]

release_entry-count :
    (f : ℕ) (e : Pte) (pt : List Pte) (m : Memory)
    → ((release_frames pt (deallocate_pfn e.pfn m).1).0 ≡ true
        → count f (release_frames pt (deallocate_pfn e.pfn m).1).1.pfn_list
          ≡ mapped f pt + count f (deallocate_pfn e.pfn m).1.pfn_list)
    → ((release_frames pt m).0 ≡ true
        → count f (release_frames pt m).1.pfn_list ≡ mapped f pt + count f m.pfn_list)
    → (release_frames (e ∷ pt) m).0 ≡ true
    → count f (release_frames (e ∷ pt) m).1.pfn_list ≡ mapped f (e ∷ pt) + count f m.pfn_list
unfolding release_frames deallocate_pfn
release_entry-count f e pt m freed kept ok = ground arith

-- Where the loop of free_addr_space ends without an error, the free list holds each frame as often
-- as before and once more for each entry that maps it.
pub release_frames-count :
    (f : ℕ) (pt : List Pte) (m : Memory)
    → (release_frames pt m).0 ≡ true
    → count f (release_frames pt m).1.pfn_list ≡ mapped f pt + count f m.pfn_list
unfolding release_frames
release_frames-count f [] m ok = omega arith
release_frames-count f (e ∷ pt) m ok =
    release_entry-count f e pt m (release_frames-count f pt _) (release_frames-count f pt m) ok
