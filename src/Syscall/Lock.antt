-- ===== src/Syscall/Lock.antt =====
-- syscalls.c: KernelLockInit, KernelAcquire and KernelRelease.
pub mod Unusable
pub mod Steps
use yalnix_implementation.Base.{
  ℕ, ◌==◌, ltb, if◌then◌else◌, Option, none, some, Bool, true, false, not, ◌||◌, ◌&&◌, List, [],
  ◌∷◌, ℤ, pos, negsuc,
}
use yalnix_implementation.Hardware.{Ptr, null, max_locks}
use yalnix_implementation.Kernel.{
  Kernel, QueueId, ready, lock_acquire, M, pure, ◌>>=◌, ◌>>◌, gets, modify, undefined_behaviour,
  put, error_code, not_blocked, blocked_lock_acquire, unused_lock, free_lock, queue_add, queue_pop,
  int_at, emit, Outcome, returns, sleeps, goes, in_acquire, refuse, active_process, update_active,
  trap_context,
}
use yalnix_implementation.Process.{Swap, swapped, stayed, failed, swap_process, swap_return}

-- `id < 0 || id > MAX_LOCKS`
abbrev pub bad_lock : ℤ → Bool
bad_lock (pos n) = ltb max_locks n
bad_lock (negsuc n) = true

-- `lock_status[id]`, an array of `MAX_LOCKS` ints
unfoldable pub read_lock_status : ℤ → M ℕ
read_lock_status (pos n) =
    if ltb n max_locks then gets (λ k. k.lock_status n) else undefined_behaviour
read_lock_status (negsuc n) = undefined_behaviour

unfoldable pub write_lock_status : ℤ → ℕ → M (Unit {0})
write_lock_status (pos n) v =
    if ltb n max_locks
    then modify (λ k. record k { lock_status = put k.lock_status n v })
    else undefined_behaviour
write_lock_status (negsuc n) v = undefined_behaviour

-- `lockAquireQueues[id]`
abbrev pub lock_queue : ℤ → QueueId
lock_queue (pos n) = lock_acquire n
lock_queue (negsuc n) = lock_acquire 0

unfoldable pub write_user_int : Ptr → ℤ → M (Unit {0})
write_user_int p v = if p == null then undefined_behaviour else emit (int_at p v)

-- The free ids; with none left the id written is -1, before the pointer is looked at.
unfoldable pub kernel_lock_init : Ptr → M ℤ
unfolding write_user_int write_lock_status
kernel_lock_init lock_idp = do
  free ← gets λ k. k.lock_list
  elim free [
    | [] ↦ do write_user_int lock_idp (negsuc 0); pure error_code
    | id ∷ rest ↦ if lock_idp == null then pure error_code else do
      modify λ k. record k { lock_list = rest }
      emit (int_at lock_idp id)
      write_lock_status id free_lock
      pure (pos 0)
  ]

-- the last lines of KernelAcquire
unfoldable pub take_lock : ℤ → M Outcome
take_lock id = do me ← active_process; write_lock_status id me.pid; pure (returns (pos 0))

-- the lines of KernelAcquire behind a switch
unfoldable pub kernel_acquire_return : ℤ → M Outcome
unfolding take_lock
kernel_acquire_return id = do
  swap_return
  update_active λ p. record p { blocked_code = not_blocked }
  take_lock id

-- the lines behind a call of `SwapProcess` that did not switch
unfoldable pub acquire_stayed : ℤ → M Outcome
unfolding take_lock
acquire_stayed id = do update_active λ p. record p { blocked_code = not_blocked }; take_lock id

unfoldable pub wait_for_lock : ℤ → M Outcome
unfolding acquire_stayed
wait_for_lock id = do
  update_active λ p. record p { blocked_code = blocked_lock_acquire }
  s ← swap_process (some (lock_queue id))
  elim s [
    | swapped ↦ pure (sleeps (in_acquire id))
    | stayed ↦ acquire_stayed id
    | failed ↦ acquire_stayed id
  ]

unfoldable pub kernel_acquire : ℤ → M Outcome
unfolding wait_for_lock take_lock
kernel_acquire id = do
  u ← trap_context
  elim u [
    | none ↦ refuse
    | some _ ↦ if bad_lock id then refuse else do
      s ← read_lock_status id
      if s == unused_lock then refuse else do
        me ← active_process
        if s == me.pid
            then refuse
            else if not (s == free_lock)
            then wait_for_lock id
            else take_lock id
  ]

unfoldable pub kernel_release : ℤ → M ℤ
unfolding read_lock_status
kernel_release id = if bad_lock id then pure error_code else do
  s ← read_lock_status id
  me ← active_process
  if not (s == me.pid) || (s == unused_lock) then pure error_code else do
    write_lock_status id free_lock
    waiting ← gets λ k. k.queues (lock_queue id)
    elim waiting [
      | [] ↦ pure (pos 0)
      | _ ∷ _ ↦ do next ← queue_pop (lock_queue id); _ ← queue_add (some ready) next; pure (pos 0)
    ]
