-- ===== src/Syscall/Exit/Queued.antt =====
-- KernelExit: what its passes over the queues have in common.
use yalnix_implementation.Base.{
  ◌≡◌, ◌≢◌, refl, ap, ◌∙◌, Option, some, List, [], ◌∷◌, ◌++◌, inl, inr, ==-ne,
}
use yalnix_implementation.Hardware.{Ptr, null}
use yalnix_implementation.Kernel.{Kernel, Pcb, put}
use yalnix_implementation.Census.{Missing, Present}

-- the PCBs are there, and none is the exiting process's
abbrev pub AllThere : Kernel → List Ptr → Type 0
AllThere k [] = Unit
AllThere k (x ∷ xs) =
    (x ≢ null) × (x ≢ k.active_pcb) × ((p : Pcb) × (k.pcbs x ≡ some p)) × AllThere k xs

-- nothing has changed but the queues, the PCBs, and how often memory was asked for
abbrev pub OnlyQueued : Kernel → Kernel → Type 0
OnlyQueued k k' = k' ≡ record k {
  queues = k'.queues;
  pcbs = k'.pcbs;
  memory = record k.memory { mallocs = k'.memory.mallocs };
}

pub Missing-there :
    (k : Kernel) (x : Ptr) (q : Option Pcb) (xs : List Ptr)
    → Missing x xs
    → AllThere k xs
    → AllThere (record k { pcbs = put k.pcbs x q }) xs
Missing-there k x q [] out there = tt
Missing-there k x q (y ∷ ys) (ne, out) (live, other, (p, at), rest) =
    (live, other, (p, rw (==-ne y x ne) at), Missing-there k x q ys out rest)

pub Present-ne : (x y : Ptr) (xs : List Ptr) → Missing x xs → Present y xs → y ≢ x
Present-ne x y [] out there = elim there [ ]
Present-ne x y (b ∷ bs) (ne, out) (inl here) = λ same. ne (here ∙ same)
Present-ne x y (b ∷ bs) (ne, out) (inr (other, there)) = Present-ne x y bs out there

pub append_snoc : (ys xs : List Ptr) (x : Ptr) → (ys ++ x ∷ []) ++ xs ≡ ys ++ x ∷ xs
append_snoc [] xs x = refl
append_snoc (y ∷ ys) xs x = ap (λ l. y ∷ l) (append_snoc ys xs x)

pub snoc_append : (xs ys : List Ptr) (x : Ptr) → (xs ++ ys) ++ x ∷ [] ≡ xs ++ (ys ++ x ∷ [])
snoc_append [] ys x = refl
snoc_append (y ∷ xs) ys x = ap (λ l. y ∷ l) (snoc_append xs ys x)

pub append_nil : (ys : List Ptr) → ys ≡ ys ++ []
append_nil [] = refl
append_nil (y ∷ ys) = ap (λ l. y ∷ l) (append_nil ys)
