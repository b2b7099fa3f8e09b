-- ===== src/Syscall/Lock/Steps.antt =====
-- The lock calls as steps of the kernel, in any order.
use mathlib.Core.Path.{subst}
use yalnix_implementation.Base.{◌≡◌, ℤ, pos, negsuc, arith}
use yalnix_implementation.Hardware.{Ptr}
use yalnix_implementation.Kernel.{Kernel, ok, Outcome, load_pcb}
use yalnix_implementation.Syscall.Lock.{
  kernel_lock_init, kernel_acquire, kernel_release, read_lock_status,
}
use yalnix_implementation.Syscall.Lock.Unusable.{NoLockHeld, kernel_lock_init-NoLockHeld}

-- the second state can be reached from the first by calls of KernelLockInit, KernelAcquire and
-- KernelRelease
pub data Steps (k : Kernel) : Kernel → Type 0 where
  start : Steps k k
  inits : {a b : Kernel} → Steps k a → (p : Ptr) (r : ℤ) → kernel_lock_init p a ≡ ok r b → Steps k b
  acquires :
      {a b : Kernel} → Steps k a → (id : ℤ) (o : Outcome) → kernel_acquire id a ≡ ok o b → Steps k b
  releases : {a b : Kernel} → Steps k a → (id r : ℤ) → kernel_release id a ≡ ok r b → Steps k b

-- with no lock held, acquiring and releasing change nothing
kernel_acquire-same :
    (k k' : Kernel) (id : ℤ) (o : Outcome) → NoLockHeld k → kernel_acquire id k ≡ ok o k' → k ≡ k'
unfolding kernel_acquire read_lock_status
kernel_acquire-same k k' (negsuc i) o free run = ground arith
kernel_acquire-same k k' (pos i) o free run = ground (arith, free i)

kernel_release-same :
    (k k' : Kernel) (id r : ℤ) → NoLockHeld k → kernel_release id k ≡ ok r k' → k ≡ k'
unfolding kernel_release read_lock_status load_pcb
kernel_release-same k k' (negsuc i) r free run = ground arith
kernel_release-same k k' (pos i) r free run = ground (arith, free i)

-- From a state in which no lock is held, every state that calls of KernelLockInit, KernelAcquire
-- and KernelRelease can lead to, in any order and with any arguments, is one in which no lock is
-- held.
pub Steps-NoLockHeld : (k k' : Kernel) → NoLockHeld k → Steps k k' → NoLockHeld k'
Steps-NoLockHeld k k' free start = free
Steps-NoLockHeld k k' free (inits {a} s p r run) =
    kernel_lock_init-NoLockHeld a k' p r (Steps-NoLockHeld k a free s) run
Steps-NoLockHeld k k' free (acquires {a} s id o run) =
    let before = Steps-NoLockHeld k a free s in
    subst NoLockHeld (kernel_acquire-same a k' id o before run) before
Steps-NoLockHeld k k' free (releases {a} s id r run) =
    let before = Steps-NoLockHeld k a free s in
    subst NoLockHeld (kernel_release-same a k' id r before run) before
