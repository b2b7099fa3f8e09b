-- ===== src/Load/ThrowAway.antt =====
-- LoadProgram: what becomes of the old region 1.
use yalnix_implementation.Base.{
  ℕ, zero, suc, ◌+◌, ◌<◌, ◌≡◌, ◌≢◌, refl, ap, true, false, ◌==◌, List, [], ◌∷◌, arith, Bool-cases,
  inl, inr, length,
}
use yalnix_implementation.Hardware.{Pte, null, valid_frame, invalid_frame}
use yalnix_implementation.Frames.{Memory, deallocate_pfn}
use yalnix_implementation.Frames.Conservation.{total}
use yalnix_implementation.Frames.Mapping.{AllLive}
use yalnix_implementation.Frames.Unmapping.{IsUnmapped}
use yalnix_implementation.Process.CopyLaws.{pages}
use yalnix_implementation.Load.Pages.{throw_away}

-- no valid entry has frame 0
abbrev pub LiveTable : List Pte → Type 0
LiveTable [] = Unit
LiveTable (e ∷ pt) = ((e.valid == valid_frame) ≡ true → e.pfn ≢ 0) × LiveTable pt

-- no allocation fails
abbrev pub HasRoom : Memory → Type 0
HasRoom m = (c : ℕ) → m.malloc c ≢ null

-- The old pages are gone: each entry is invalid, each frame is mapped or free as often as before, and
-- the free list has grown by the pages.
pub record ThrownAway (pt : List Pte) (m : Memory) (r : List Pte × Memory) : Type 0 where
  pub entries : (j : ℕ) → j < length pt → IsUnmapped r.0 j
  pub same_length : length r.0 ≡ length pt
  pub frames : (f : ℕ) → total f r.0 r.1 ≡ total f pt m
  pub grown : length r.1.pfn_list ≡ length m.pfn_list + pages pt
  pub same_malloc : r.1.malloc ≡ m.malloc
  pub live : AllLive m.pfn_list → LiveTable pt → AllLive r.1.pfn_list

freed_memory :
    (f : ℕ) (m : Memory)
    → HasRoom m
    → deallocate_pfn f m ≡ (true, record m { mallocs = suc m.mallocs; pfn_list = f ∷ m.pfn_list })
unfolding deallocate_pfn
freed_memory f m room = ground (arith, room m.mallocs)

IsUnmapped-cons :
    (n : ℕ) (e : Pte) (pt : List Pte)
    → (e.valid == valid_frame) ≡ false
    → ((j : ℕ) → j < n → IsUnmapped pt j)
    → (j : ℕ) → j < suc n
    → IsUnmapped (e ∷ pt) j
IsUnmapped-cons n e pt bad rest zero h = (e, refl, bad)
IsUnmapped-cons n e pt bad rest (suc j) h = rest j (omega arith)

pub throw_away-ThrownAway :
    (pt : List Pte) (m : Memory) → HasRoom m → ThrownAway pt m (throw_away pt m)
unfolding throw_away
throw_away-ThrownAway [] m room = record {
  entries = λ j h. absurd (omega arith);
  same_length = refl;
  frames = λ f. refl;
  grown = omega arith;
  same_malloc = refl;
  live = λ a b. a;
}
throw_away-ThrownAway (e ∷ pt) m room = elim (Bool-cases (e.valid == valid_frame)) [
  | inr bad ↦
      let rest = throw_away-ThrownAway pt m room in
      rw (bad, throw_away)
        record {
          entries = IsUnmapped-cons (length pt) e _ bad rest.entries;
          same_length = ap suc rest.same_length;
          frames = λ f. omega (arith, rest.frames f);
          grown = ground (arith, rest.grown);
          same_malloc = rest.same_malloc;
          live = λ a b. rest.live a b.1;
        }
  | inl good ↦
      let m' = record m { mallocs = suc m.mallocs; pfn_list = e.pfn ∷ m.pfn_list } in
      let rest = throw_away-ThrownAway pt m' room in
      rw (good, throw_away)
        (rw (freed_memory e.pfn m room, throw_away)
          record {
            entries =
                IsUnmapped-cons (length pt) (record e { valid = invalid_frame; pfn = 0 }) _ refl
                  rest.entries;
            same_length = ap suc rest.same_length;
            frames = λ f. ground (arith, rest.frames f);
            grown = ground (arith, rest.grown);
            same_malloc = rest.same_malloc;
            live = λ a b. rest.live (b.0 good, a) b.1;
          })
]
