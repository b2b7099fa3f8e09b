-- ===== src/Boot/Globals.antt =====
-- The state that SetUpGlobals leaves: which ids the lists hold, and what the first calls meet.
use yalnix_implementation.Base.{
  ℕ, zero, suc, ◌+◌, ◌-◌, ◌<◌, ◌≡◌, ◌≢◌, refl, ap, ◌∙◌, List, [], ◌∷◌, ℤ, pos, arith, length,
}
use yalnix_implementation.Hardware.{Ptr, null, max_locks, max_cvars}
use yalnix_implementation.Frames.Mapping.{AllLive}
use yalnix_implementation.Kernel.{Kernel, Run, ok, fault, Ends, ends, ◌>>=◌}
use yalnix_implementation.Syscall.Lock.Unusable.{NoLockHeld}
use yalnix_implementation.Syscall.Cvar.{kernel_cvar_init}
use yalnix_implementation.Syscall.Cvar.Unusable.{NoOtherStatus, kernel_cvar_init-fault}
use yalnix_implementation.PipeList.{init_head_pipe}
use yalnix_implementation.Boot.{ids_up, frames_from, set_up_globals}

ids_up-suc : (n i : ℕ) (acc : List ℤ) → ids_up (suc n) i acc ≡ pos (n + i) ∷ ids_up n i acc
unfolding ids_up
ids_up-suc zero i acc = ap (λ j. pos j ∷ acc) (omega arith)
ids_up-suc (suc n) i acc =
    ids_up-suc n (suc i) (pos i ∷ acc)
    ∙ ap (λ j. pos j ∷ ids_up n (suc i) (pos i ∷ acc)) {x = n + suc i} {y = suc n + i} (omega arith)

pub frames_from-AllLive : (n base : ℕ) → 0 < base → AllLive (frames_from n base)
unfolding frames_from
frames_from-AllLive zero base h = tt
frames_from-AllLive (suc n) base h = (omega arith, frames_from-AllLive n (suc base) (omega arith))

pub length-frames_from : (n base : ℕ) → length (frames_from n base) ≡ n
unfolding frames_from
length-frames_from zero base = refl
length-frames_from (suc n) base = ap suc (length-frames_from n (suc base))

-- what the kernel starts from
pub record Booted (num_of_frames : ℕ) (k : Kernel) : Type 0 where
  pub locks : NoLockHeld k
  pub cvars : NoOtherStatus k
  pub live : AllLive k.memory.pfn_list
  pub frames : length k.memory.pfn_list ≡ num_of_frames - 128
  pub first_cvar : (rest : List ℤ) × (k.cvar_list ≡ pos (max_locks + max_cvars) ∷ rest)

pub set_up_globals-Booted :
    (num_of_frames : ℕ) (k : Kernel)
    → Ends (λ r k'. Booted num_of_frames k') (set_up_globals num_of_frames k)
unfolding set_up_globals init_head_pipe
set_up_globals-Booted num_of_frames k = ends (record {
  locks = λ i. refl;
  cvars = λ i. refl;
  live = frames_from-AllLive _ _ (omega arith);
  frames = length-frames_from (num_of_frames - 128) 128;
  first_cvar = (_, ids_up-suc 4999 101 []);
})

-- after a command that ends, a command that is undefined wherever the first one ends
fault_after :
    {A B : Type 0} {P : A → Kernel → Type 0} (r : Run A) (f : A → Kernel → Run B)
    → Ends P r
    → ((a : A) (k : Kernel) → P a k → f a k ≡ fault)
    → elim r [ ok a k ↦ f a k | fault ↦ fault ] ≡ fault
fault_after r f (ends {a} {k} p) bad = bad a k p

-- The first KernelCvarInit after SetUpGlobals, with any pointer but NULL, is a write behind the
-- array cvar_status: undefined behaviour.
pub first_cvar_init-fault :
    (num_of_frames : ℕ) (k : Kernel) (cvar_idp : Ptr)
    → cvar_idp ≢ null
    → (set_up_globals num_of_frames >>= λ _. kernel_cvar_init cvar_idp) k ≡ fault
first_cvar_init-fault num_of_frames k p live =
    fault_after (set_up_globals num_of_frames k) (λ _. kernel_cvar_init p)
      (set_up_globals-Booted num_of_frames k)
      (λ _ k' b. kernel_cvar_init-fault k' p b.first_cvar.0 live b.first_cvar.1)
