-- ===== src/Frames.antt =====
-- kernel.c's AllocatePFN and DeallocatePFN, and the loops over page tables of process.c and
-- syscalls.c that give frames out and take them back.
-- The free list is a list.c list; here it is the list of its items, last added first
-- (LinkedList/Stack.antt). `malloc` is a parameter: what its n-th call returns.
pub mod Loops
pub mod Conservation
pub mod Mapping
pub mod Unmapping
use yalnix_implementation.Base.{
  ℕ, suc, Bool, true, false, ◌==◌, if◌then◌else◌, Option, none, some, List, [], ◌∷◌,
}
use yalnix_implementation.Hardware.{Ptr, null}

pub record Memory : Type 0 where
  pub malloc : ℕ → Ptr
  -- the calls of `malloc` so far
  pub mallocs : ℕ
  pub pfn_list : List ℕ

-- Does the next call of `malloc` succeed?
abbrev pub malloc_fails : Memory → Bool
malloc_fails m = m.malloc m.mallocs == null

-- `none` is `ERROR`. A frame number 0 is taken off the list and refused.
unfoldable pub pop_frame : List ℕ → Option ℕ × List ℕ
pop_frame [] = (none, [])
pop_frame (f ∷ fs) = (if f == 0 then none else some f, fs)

unfoldable pub allocate_pfn : Memory → Option ℕ × Memory
unfolding pop_frame
allocate_pfn m = let (r, fs) = pop_frame m.pfn_list in (r, record m { pfn_list = fs })

-- `false` is `ERROR`: no list node could be allocated
unfoldable pub deallocate_pfn : ℕ → Memory → Bool × Memory
deallocate_pfn f m =
    if malloc_fails m
    then (false, record m { mallocs = suc m.mallocs })
    else (true, record m { mallocs = suc m.mallocs; pfn_list = f ∷ m.pfn_list })
