-- ===== src/Census.antt =====
-- Where the frames of all processes are: the calls that give frames out and take them back, together.
pub mod Calls
pub mod Exits
pub mod Steps
use yalnix_implementation.Base.{
  ℕ, ◌+◌, ◌≡◌, ◌≢◌, refl, ap, ◌==◌, if◌then◌else◌, Option, none, some, List, [], ◌∷◌, arith, ◌⊎◌,
  inl, inr,
}
use yalnix_implementation.Hardware.{Ptr}
use yalnix_implementation.Frames.Conservation.{count}
use yalnix_implementation.Kernel.{Kernel, Pcb, put}
use yalnix_implementation.Process.Freeing.{owns}

abbrev pub owned_by : ℕ → Option Pcb → ℕ
owned_by f none = 0
owned_by f (some p) = owns f p

-- how often the processes at the addresses have the frame
abbrev pub owned : ℕ → List Ptr → (Ptr → Option Pcb) → ℕ
owned f [] pcbs = 0
owned f (a ∷ ps) pcbs = owned_by f (pcbs a) + owned f ps pcbs

-- and the free list with them
abbrev pub census : ℕ → List Ptr → Kernel → ℕ
census f ps k = owned f ps k.pcbs + count f k.memory.pfn_list

abbrev pub Missing : Ptr → List Ptr → Type 0
Missing a [] = Unit
Missing a (b ∷ bs) = (b ≢ a) × Missing a bs

abbrev pub Present : Ptr → List Ptr → Type 0
Present a [] = ⊥
Present a (b ∷ bs) = (b ≡ a) ⊎ ((b ≢ a) × Present a bs)

-- no address occurs twice
abbrev pub AllDifferent : List Ptr → Type 0
AllDifferent [] = Unit
AllDifferent (a ∷ ps) = Missing a ps × AllDifferent ps

-- Processes that have the frame as often as before, but for one that is not among them.
pub owned-same :
    (f : ℕ) (ps : List Ptr) (pcbs pcbs' : Ptr → Option Pcb) (a : Ptr)
    → Missing a ps
    → ((b : Ptr) → b ≢ a → owned_by f (pcbs' b) ≡ owned_by f (pcbs b))
    → owned f ps pcbs' ≡ owned f ps pcbs
owned-same f [] pcbs pcbs' a out same = refl
owned-same f (b ∷ bs) pcbs pcbs' a (ne, out) same =
    omega (arith, same b ne, owned-same f bs pcbs pcbs' a out same)

-- One process has changed.
pub owned-changed :
    (f : ℕ) (ps : List Ptr) (pcbs pcbs' : Ptr → Option Pcb) (a : Ptr)
    → AllDifferent ps
    → Present a ps
    → ((b : Ptr) → b ≢ a → pcbs' b ≡ pcbs b)
    → owned f ps pcbs' + owned_by f (pcbs a) ≡ owned f ps pcbs + owned_by f (pcbs' a)
owned-changed f [] pcbs pcbs' a apart there same = elim there [ ]
owned-changed f (b ∷ bs) pcbs pcbs' a (out, apart) (inl here) same =
    let rest =
      owned-same f bs pcbs pcbs' b out (λ c ne. ap (owned_by f) (same c (rw (← here) ne))) in
    let old : owned_by f (pcbs b) ≡ owned_by f (pcbs a) = ap (λ x. owned_by f (pcbs x)) here in
    let new : owned_by f (pcbs' b) ≡ owned_by f (pcbs' a) = ap (λ x. owned_by f (pcbs' x)) here in
    omega (arith, rest, old, new)
owned-changed f (b ∷ bs) pcbs pcbs' a (out, apart) (inr (ne, there)) same =
    let old : owned_by f (pcbs' b) ≡ owned_by f (pcbs b) = ap (owned_by f) (same b ne) in
    omega (arith, old, owned-changed f bs pcbs pcbs' a apart there same)

-- No PCB but the running process's has changed, and the frames that this one gained are those that the free list
-- lost.
pub record Local (f : ℕ) (k k' : Kernel) : Type 0 where
  pub others : (b : Ptr) → b ≢ k.active_pcb → k'.pcbs b ≡ k.pcbs b
  pub kept :
      owned_by f (k'.pcbs k.active_pcb) + count f k'.memory.pfn_list
      ≡ owned_by f (k.pcbs k.active_pcb) + count f k.memory.pfn_list

pub Local-census :
    (f : ℕ) (ps : List Ptr) (k k' : Kernel)
    → AllDifferent ps
    → Present k.active_pcb ps
    → Local f k k'
    → census f ps k' ≡ census f ps k
Local-census f ps k k' apart there local =
    omega
      (arith, owned-changed f ps k.pcbs k'.pcbs k.active_pcb apart there local.others, local.kept)
