-- ===== src/Syscall/Exit/Apart.antt =====
-- KernelExit: what its passes read of the queues depends on the PCBs of the processes on them alone.
use yalnix_implementation.Base.{◌≡◌, refl, sym, ◌∙◌, Option, List, [], ◌∷◌, ◌++◌, inl, inr, arith}
use yalnix_implementation.Hardware.{Ptr}
use yalnix_implementation.Kernel.{Kernel, Pcb}
use yalnix_implementation.Census.{Missing, Present, AllDifferent}
use yalnix_implementation.Syscall.Exit.Queued.{AllThere}
use yalnix_implementation.Syscall.Exit.ReadyPass.{has_parent}
use yalnix_implementation.Syscall.Exit.BlockedRound.{woken, asleep, has_busy_parent}
use yalnix_implementation.Syscall.Exit.DefunctPass.{survivors}

-- the PCBs of the processes are the same in both
abbrev pub SameOn : List Ptr → (Ptr → Option Pcb) → (Ptr → Option Pcb) → Type 0
SameOn [] f g = Unit
SameOn (x ∷ xs) f g = (f x ≡ g x) × SameOn xs f g

-- none of the processes is among the others
abbrev pub AllMissing : List Ptr → List Ptr → Type 0
AllMissing [] xs = Unit
AllMissing (y ∷ ys) xs = Missing y xs × AllMissing ys xs

module _ (me : Pcb) (f g : Ptr → Option Pcb) where
  pub SameOn-has_parent : (xs : List Ptr) → SameOn xs f g → has_parent me xs f ≡ has_parent me xs g
  SameOn-has_parent [] s = refl
  SameOn-has_parent (x ∷ xs) (e, s) = ground (arith, SameOn-has_parent xs s)

  pub SameOn-has_busy_parent :
      (xs : List Ptr) → SameOn xs f g → has_busy_parent me xs f ≡ has_busy_parent me xs g
  SameOn-has_busy_parent [] s = refl
  SameOn-has_busy_parent (x ∷ xs) (e, s) = ground (arith, SameOn-has_busy_parent xs s)

  pub SameOn-woken : (xs : List Ptr) → SameOn xs f g → woken me xs f ≡ woken me xs g
  SameOn-woken [] s = refl
  SameOn-woken (x ∷ xs) (e, s) = ground (arith, SameOn-woken xs s)

  pub SameOn-asleep : (xs : List Ptr) → SameOn xs f g → asleep me xs f ≡ asleep me xs g
  SameOn-asleep [] s = refl
  SameOn-asleep (x ∷ xs) (e, s) = ground (arith, SameOn-asleep xs s)

  pub SameOn-survivors : (xs : List Ptr) → SameOn xs f g → survivors me xs f ≡ survivors me xs g
  SameOn-survivors [] s = refl
  SameOn-survivors (x ∷ xs) (e, s) = ground (arith, SameOn-survivors xs s)

pub Missing-SameOn :
    (xs ys : List Ptr) (f g : Ptr → Option Pcb)
    → ((b : Ptr) → Missing b xs → f b ≡ g b)
    → AllMissing ys xs
    → SameOn ys f g
Missing-SameOn xs [] f g others out = tt
Missing-SameOn xs (y ∷ ys) f g others (out, rest) =
    (others y out, Missing-SameOn xs ys f g others rest)

pub SameOn-there :
    (ys : List Ptr) (k k' : Kernel)
    → k'.active_pcb ≡ k.active_pcb
    → SameOn ys k'.pcbs k.pcbs
    → AllThere k ys
    → AllThere k' ys
SameOn-there [] k k' active s there = tt
SameOn-there (y ∷ ys) k k' active (e, s) (live, other, (p, at), there) =
    (live, λ same. other (same ∙ active), (p, e ∙ at), SameOn-there ys k k' active s there)

pub AllThere-active : (k : Kernel) (xs : List Ptr) → AllThere k xs → Missing k.active_pcb xs
AllThere-active k [] there = tt
AllThere-active k (x ∷ xs) (live, other, at, there) = (other, AllThere-active k xs there)

-- The processes of a list without repetitions, in two parts.
pub Missing-append_left : (b : Ptr) (xs ys : List Ptr) → Missing b (xs ++ ys) → Missing b xs
Missing-append_left b [] ys out = tt
Missing-append_left b (x ∷ xs) ys (ne, out) = (ne, Missing-append_left b xs ys out)

pub Missing-append_right : (b : Ptr) (xs ys : List Ptr) → Missing b (xs ++ ys) → Missing b ys
Missing-append_right b [] ys out = out
Missing-append_right b (x ∷ xs) ys (ne, out) = Missing-append_right b xs ys out

pub Missing-append :
    (b : Ptr) (xs ys : List Ptr) → Missing b xs → Missing b ys → Missing b (xs ++ ys)
Missing-append b [] ys no_x no_y = no_y
Missing-append b (x ∷ xs) ys (ne, no_x) no_y = (ne, Missing-append b xs ys no_x no_y)

pub AllDifferent-left : (xs ys : List Ptr) → AllDifferent (xs ++ ys) → AllDifferent xs
AllDifferent-left [] ys apart = tt
AllDifferent-left (x ∷ xs) ys (out, apart) =
    (Missing-append_left x xs ys out, AllDifferent-left xs ys apart)

pub AllDifferent-right : (xs ys : List Ptr) → AllDifferent (xs ++ ys) → AllDifferent ys
AllDifferent-right [] ys apart = apart
AllDifferent-right (x ∷ xs) ys (out, apart) = AllDifferent-right xs ys apart

AllMissing-cons :
    (x : Ptr) (xs ys : List Ptr) → Missing x ys → AllMissing ys xs → AllMissing ys (x ∷ xs)
AllMissing-cons x xs [] out rest = tt
AllMissing-cons x xs (y ∷ ys) (ne, out) (off, rest) =
    ((λ same. ne (sym same), off), AllMissing-cons x xs ys out rest)

AllMissing-nil : (ys : List Ptr) → AllMissing ys []
AllMissing-nil [] = tt
AllMissing-nil (y ∷ ys) = (tt, AllMissing-nil ys)

pub AllDifferent-apart : (xs ys : List Ptr) → AllDifferent (xs ++ ys) → AllMissing ys xs
AllDifferent-apart [] ys apart = AllMissing-nil ys
AllDifferent-apart (x ∷ xs) ys (out, apart) =
    AllMissing-cons x xs ys (Missing-append_right x xs ys out) (AllDifferent-apart xs ys apart)

pub AllMissing-left : (xs ys zs : List Ptr) → AllMissing (xs ++ ys) zs → AllMissing xs zs
AllMissing-left [] ys zs out = tt
AllMissing-left (x ∷ xs) ys zs (off, out) = (off, AllMissing-left xs ys zs out)

pub AllMissing-right : (xs ys zs : List Ptr) → AllMissing (xs ++ ys) zs → AllMissing ys zs
AllMissing-right [] ys zs out = out
AllMissing-right (x ∷ xs) ys zs (off, out) = AllMissing-right xs ys zs out

-- a process on the one list is not on the other
pub AllMissing-Present :
    (x : Ptr) (ys xs : List Ptr) → AllMissing ys xs → Present x ys → Missing x xs
AllMissing-Present x [] xs out there = elim there [ ]
AllMissing-Present x (y ∷ ys) xs (off, out) (inl here) = rw (← here) off
AllMissing-Present x (y ∷ ys) xs (off, out) (inr (ne, there)) = AllMissing-Present x ys xs out there

pub AllMissing-sym : (ys xs : List Ptr) → AllMissing ys xs → AllMissing xs ys
AllMissing-sym [] xs out = AllMissing-nil xs
AllMissing-sym (y ∷ ys) xs (off, out) = AllMissing-cons y ys xs off (AllMissing-sym ys xs out)

pub AllMissing-both :
    (ys xs zs : List Ptr) → AllMissing ys xs → AllMissing ys zs → AllMissing ys (xs ++ zs)
AllMissing-both [] xs zs no_x no_z = tt
AllMissing-both (y ∷ ys) xs zs (off_x, no_x) (off_z, no_z) =
    (Missing-append y xs zs off_x off_z, AllMissing-both ys xs zs no_x no_z)
