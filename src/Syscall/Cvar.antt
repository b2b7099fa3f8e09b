-- ===== src/Syscall/Cvar.antt =====
-- syscalls.c: the condition variables.
pub mod Unusable
use yalnix_implementation.Base.{
  ℕ, zero, suc, ◌-◌, ◌==◌, ltb, leb, if◌then◌else◌, Option, none, some, Bool, true, ◌&&◌, [], ◌∷◌,
  ℤ, pos, negsuc, is_neg, length,
}
use yalnix_implementation.Hardware.{Ptr, null, max_locks, max_cvars}
use yalnix_implementation.Kernel.{
  QueueId, ready, cvar_wait, M, pure, ◌>>=◌, ◌>>◌, gets, modify, undefined_behaviour, put,
  error_code, unused_lock, unused_cvar, used_cvar, queue_add, queue_pop, int_at, emit, Outcome,
  sleeps, in_cvar_wait, refuse, trap_context,
}
use yalnix_implementation.Process.{swapped, stayed, failed, swap_process, swap_return}
use yalnix_implementation.Syscall.Lock.{read_lock_status, kernel_acquire, kernel_release}

-- `id - MAX_LOCKS` as an index into the arrays of `MAX_CVARS`; `none` lies outside
unfoldable pub cvar_index : ℤ → Option ℕ
cvar_index (pos n) =
    if leb max_locks n && ltb (n - max_locks) max_cvars then some (n - max_locks) else none
cvar_index (negsuc n) = none

unfoldable pub read_cvar_status : ℤ → M ℕ
unfolding cvar_index
read_cvar_status id = elim (cvar_index id) [
  | none ↦ undefined_behaviour
  | some i ↦ gets λ k. k.cvar_status i
]

unfoldable pub write_cvar_status : ℤ → ℕ → M (Unit {0})
unfolding cvar_index
write_cvar_status id v = elim (cvar_index id) [
  | none ↦ undefined_behaviour
  | some i ↦ modify λ k. record k { cvar_status = put k.cvar_status i v }
]

-- `cvarWaitQueues[id - MAX_LOCKS]`, behind a read of the status there
abbrev pub cvar_queue : ℤ → QueueId
cvar_queue (pos n) = cvar_wait (n - max_locks)
cvar_queue (negsuc n) = cvar_wait 0

unfoldable pub kernel_cvar_init : Ptr → M ℤ
unfolding write_cvar_status
kernel_cvar_init cvar_idp = if cvar_idp == null then pure error_code else do
  free ← gets λ k. k.cvar_list
  elim free [
    | [] ↦ do emit (int_at cvar_idp error_code); pure error_code
    | id ∷ rest ↦ do
      modify λ k. record k { cvar_list = rest }
      emit (int_at cvar_idp id)
      write_cvar_status id used_cvar
      pure (pos 0)
  ]

-- the guard that signal and broadcast share: is the call refused?
unfoldable pub cvar_refused : ℤ → M Bool
unfolding read_cvar_status
cvar_refused id = if is_neg id then pure true else do
  u ← trap_context
  elim u [ none ↦ pure true | some _ ↦ do s ← read_cvar_status id; pure (s == unused_cvar) ]

unfoldable pub kernel_cvar_signal : ℤ → M ℤ
unfolding cvar_refused
kernel_cvar_signal id = do
  no_cvar ← cvar_refused id
  if no_cvar then pure error_code else do
    waiting ← gets λ k. k.queues (cvar_queue id)
    elim waiting [
      | [] ↦ pure (pos 0)
      | _ ∷ _ ↦ do
        receiver ← queue_pop (cvar_queue id)
        _ ← queue_add (some ready) receiver
        pure (pos 0)
    ]

-- The loop of KernelCvarBroadcast, one round for each process that waits.
unfoldable pub broadcast_loop : ℕ → QueueId → M (Unit {0})
broadcast_loop zero q = pure tt
broadcast_loop (suc n) q = do
  receiver ← queue_pop q
  if receiver == null then pure tt else do _ ← queue_add (some ready) receiver; broadcast_loop n q

unfoldable pub kernel_cvar_broadcast : ℤ → M ℤ
unfolding cvar_refused
kernel_cvar_broadcast id = do
  no_cvar ← cvar_refused id
  if no_cvar then pure error_code else do
    n ← gets λ k. length (k.queues (cvar_queue id))
    broadcast_loop n (cvar_queue id)
    pure (pos 0)

-- KernelCvarWait behind its guard
unfoldable pub cvar_sleep : ℤ → ℤ → M Outcome
cvar_sleep id lock_id = do
  r ← kernel_release lock_id
  if is_neg r then refuse else do
    s ← swap_process (some (cvar_queue id))
    elim s [
      | swapped ↦ pure (sleeps (in_cvar_wait lock_id))
      | stayed ↦ kernel_acquire lock_id
      | failed ↦ kernel_acquire lock_id
    ]

unfoldable pub kernel_cvar_wait : ℤ → ℤ → M Outcome
unfolding cvar_sleep read_cvar_status
kernel_cvar_wait id lock_id = if is_neg id then refuse else do
  s ← read_cvar_status id
  if s == unused_cvar then refuse else if is_neg lock_id then refuse else do
    l ← read_lock_status lock_id
    if l == unused_lock
        then refuse
        else do u ← trap_context; elim u [ none ↦ refuse | some _ ↦ cvar_sleep id lock_id ]

unfoldable pub kernel_cvar_wait_return : ℤ → M Outcome
kernel_cvar_wait_return lock_id = do swap_return; kernel_acquire lock_id
