-- ===== src/Syscall/Cvar/Unusable.antt =====
-- USED_CVAR and UNUSED_CVAR are both 0, and the ids start one too high.
use yalnix_implementation.Base.{ℕ, ◌-◌, ◌+◌, ◌≡◌, ◌<◌, ◌≤◌, ◌≢◌, List, ◌∷◌, ℤ, pos, arith}
use yalnix_implementation.Hardware.{Ptr, null, max_locks, max_cvars}
use yalnix_implementation.Kernel.{Kernel, ok, fault, error_code, used_cvar, returns}
use yalnix_implementation.Syscall.Cvar.{
  kernel_cvar_init, kernel_cvar_signal, kernel_cvar_broadcast, kernel_cvar_wait, cvar_index,
}

-- every condition variable is used or unused
abbrev pub NoOtherStatus : Kernel → Type 0
NoOtherStatus k = (i : ℕ) → k.cvar_status i ≡ used_cvar

-- With every condition variable at the one status, signal, broadcast and wait on any of the array
-- return the error code and change nothing.
pub cvar-refused :
    (k : Kernel) (i : ℕ) (lock_id : ℤ)
    → max_locks ≤ i
    → i < max_locks + max_cvars
    → NoOtherStatus k
    → (kernel_cvar_signal (pos i) k ≡ ok error_code k)
      × (kernel_cvar_broadcast (pos i) k ≡ ok error_code k)
      × (kernel_cvar_wait (pos i) lock_id k ≡ ok (returns error_code) k)
unfolding kernel_cvar_signal kernel_cvar_broadcast kernel_cvar_wait cvar_index
cvar-refused k i lock_id lo hi s = (
  ground (arith, s (i - max_locks)),
  ground (arith, s (i - max_locks)),
  ground (arith, s (i - max_locks)),
)

-- Making a condition variable of the highest id writes behind the array `cvar_status`.
pub kernel_cvar_init-fault :
    (k : Kernel) (cvar_idp : Ptr) (rest : List ℤ)
    → cvar_idp ≢ null
    → k.cvar_list ≡ pos (max_locks + max_cvars) ∷ rest
    → kernel_cvar_init cvar_idp k ≡ fault
unfolding kernel_cvar_init
kernel_cvar_init-fault k cvar_idp rest live free = ground arith
