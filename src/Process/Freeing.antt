-- ===== src/Process/Freeing.antt =====
-- process.c: what free_addr_space adds to the free list.
use yalnix_implementation.Base.{
  ℕ, ◌+◌, ◌≡◌, ◌≢◌, refl, ◌∙◌, true, ◌==◌, some, List, [], ◌∷◌, pos, arith, Bool-cases, inl, inr,
}
use yalnix_implementation.Hardware.{Ptr, null, Pte, valid_frame}
use yalnix_implementation.Frames.{Memory, deallocate_pfn}
use yalnix_implementation.Frames.Loops.{release_frames}
use yalnix_implementation.Frames.Conservation.{count, mapped, release_frames-count}
use yalnix_implementation.Frames.Unmapping.{deallocate_pfn-succeeds}
use yalnix_implementation.Kernel.{Kernel, Pcb, ok, load_pcb}
use yalnix_implementation.Process.Space.{free_tables, free_addr_space}

release_frames-succeeds :
    (pt : List Pte) (m : Memory)
    → ((c : ℕ) → m.malloc c ≢ null)
    → ((release_frames pt m).0 ≡ true) × ((release_frames pt m).1.malloc ≡ m.malloc)
unfolding release_frames
release_frames-succeeds [] m room = (refl, refl)
release_frames-succeeds (e ∷ pt) m room = elim (Bool-cases (e.valid == valid_frame)) [
  | inr bad ↦ rw (bad, release_frames) (release_frames-succeeds pt m room)
  | inl good ↦
      let (freed, same) = deallocate_pfn-succeeds e.pfn m room in
      let m' = (deallocate_pfn e.pfn m).1 in
      let (all, kept) = release_frames-succeeds pt m' (rw same room) in
      rw (good, release_frames) (rw freed (all, kept ∙ same))
]

-- the frames of the process, those of its kernel stack included
abbrev pub owns : ℕ → Pcb → ℕ
owns f p = mapped f p.kernel_stack_pt + mapped f p.user_page_table

free_tables-count :
    (p : Pcb) (m : Memory)
    → ((c : ℕ) → m.malloc c ≢ null)
    → ((free_tables p m).0 ≡ true)
      × ((free_tables p m).1.malloc ≡ m.malloc)
      × ((f : ℕ) → count f (free_tables p m).1.pfn_list ≡ owns f p + count f m.pfn_list)
unfolding free_tables
free_tables-count p m room =
    let (ok1, same1) = release_frames-succeeds p.kernel_stack_pt m room in
    let m' = (release_frames p.kernel_stack_pt m).1 in
    let (ok2, same2) = release_frames-succeeds p.user_page_table m' (rw same1 room) in
    rw (ok1, free_tables)
      (
        ok2,
        same2 ∙ same1,
        λ f. omega (
          arith,
          release_frames-count f p.kernel_stack_pt m ok1,
          release_frames-count f p.user_page_table m' ok2,
        ),
      )

free_addr_space-frees :
    (k : Kernel) (a : Ptr) (p : Pcb)
    → a ≢ null
    → k.pcbs a ≡ some p
    → (free_tables p k.memory).0 ≡ true
    → free_addr_space a k ≡ ok (pos 0) (record k { memory = (free_tables p k.memory).1 })
unfolding free_addr_space load_pcb
free_addr_space-frees k a p live holds freed = ground arith

-- The process's frames go back to the free list, once for each entry that maps them.
pub free_addr_space-Freed :
    (k : Kernel) (a : Ptr) (p : Pcb)
    → a ≢ null
    → k.pcbs a ≡ some p
    → ((c : ℕ) → k.memory.malloc c ≢ null)
    → (m : Memory) × (free_addr_space a k ≡ ok (pos 0) (record k { memory = m }))
      × (m.malloc ≡ k.memory.malloc)
      × ((f : ℕ) → count f m.pfn_list ≡ owns f p + count f k.memory.pfn_list)
free_addr_space-Freed k a p live holds room =
    let (freed, same, counts) = free_tables-count p k.memory room in
    ((free_tables p k.memory).1, free_addr_space-frees k a p live holds freed, same, counts)
