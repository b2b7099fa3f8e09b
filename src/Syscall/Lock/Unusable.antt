-- ===== src/Syscall/Lock/Unusable.antt =====
-- FREE_LOCK and UNUSED_LOCK are both 0, so a lock that is free looks unused.
use yalnix_implementation.Base.{ℕ, ◌≡◌, ◌<◌, ℤ, pos, arith}
use yalnix_implementation.Hardware.{Ptr, max_locks}
use yalnix_implementation.Kernel.{Kernel, Pcb, ok, error_code, free_lock, returns, load_pcb}
use yalnix_implementation.Syscall.Lock.{
  read_lock_status, kernel_lock_init, kernel_acquire, kernel_release,
}

-- every lock is free or unused
abbrev pub NoLockHeld : Kernel → Type 0
NoLockHeld k = (i : ℕ) → k.lock_status i ≡ free_lock

-- Where no lock is held, KernelAcquire of any lock of the array returns the error code and changes
-- nothing.
pub kernel_acquire-refused :
    (k : Kernel) (i : ℕ)
    → i < max_locks
    → NoLockHeld k
    → kernel_acquire (pos i) k ≡ ok (returns error_code) k
unfolding kernel_acquire read_lock_status
kernel_acquire-refused k i h free = ground (arith, free i)

-- While no lock is held, releasing one fails and changes nothing.
pub kernel_release-refused :
    (k : Kernel) (i : ℕ) (me : Pcb)
    → i < max_locks
    → NoLockHeld k
    → load_pcb k.active_pcb k ≡ ok me k
    → kernel_release (pos i) k ≡ ok error_code k
unfolding kernel_release load_pcb
kernel_release-refused k i me h free active = ground (arith, free i)

-- Where no lock is held, none is held after a KernelLockInit that returns.
pub kernel_lock_init-NoLockHeld :
    (k k' : Kernel) (lock_idp : Ptr) (r : ℤ)
    → NoLockHeld k
    → kernel_lock_init lock_idp k ≡ ok r k'
    → NoLockHeld k'
unfolding kernel_lock_init
kernel_lock_init-NoLockHeld k k' p r free run i = ground (arith, free i)
