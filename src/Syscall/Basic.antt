-- ===== src/Syscall/Basic.antt =====
-- syscalls.c: KernelGetPid, KernelGetPPid, KernelDelay and KernelWait.
pub mod Reaping
use yalnix_implementation.Base.{
  ℕ, zero, suc, ◌==◌, if◌then◌else◌, some, not, ℤ, pos, negsuc, dec, is_neg, eq_int, length,
}
use yalnix_implementation.Hardware.{Ptr, null}
use yalnix_implementation.Kernel.{
  blocked, defunct, M, pure, ◌>>=◌, ◌>>◌, gets, load_pcb, undefined_behaviour, error_code,
  not_blocked, blocked_delay, blocked_wait, queue_add, queue_pop, int_at, emit, Outcome, returns,
  sleeps, in_wait, in_delay, refuse, active_process, update_active,
}
use yalnix_implementation.Process.{Swap, swapped, stayed, failed, swap_process, swap_return}

unfoldable pub kernel_get_pid : M ℤ
kernel_get_pid = do
  a ← gets λ k. k.active_pcb
  if a == null then pure error_code else do p ← load_pcb a; pure (pos p.pid)

unfoldable pub kernel_get_ppid : M ℤ
kernel_get_ppid = do
  a ← gets λ k. k.active_pcb
  if a == null then pure error_code else do p ← load_pcb a; pure (pos p.ppid)

-- The end of a call that compares the value of `SwapProcess` with `ERROR`: where there was no switch
-- there is no value, and the comparison is undefined behaviour.
abbrev pub after_swap : Outcome → Swap → M Outcome
after_swap o swapped = pure o
after_swap o stayed = undefined_behaviour
after_swap o failed = refuse

unfoldable pub kernel_delay : ℤ → M Outcome
kernel_delay (negsuc n) = refuse
kernel_delay (pos zero) = pure (returns (pos 0))
kernel_delay (pos (suc n)) = do
  update_active λ p. record p { clock_ticks = pos (suc n); blocked_code = blocked_delay }
  s ← swap_process (some blocked)
  after_swap (sleeps in_delay) s

unfoldable pub kernel_delay_return : M Outcome
kernel_delay_return = do swap_return; pure (returns (pos 0))

-- What a look at the defunct processes ends in.
pub data Scan : Type 0 where
  reaped missing broken : Scan

unfoldable pub reap : Ptr → ℤ → M Scan
reap status_ptr exit_code = do
  update_active λ p. record p { num_children = dec p.num_children }
  emit (int_at status_ptr exit_code)
  pure reaped

-- KernelWait's loop: the first defunct child of the active process is taken off the queue, and its
-- exit code is written to `status_ptr`.
unfoldable pub wait_scan : ℕ → Ptr → M Scan
unfolding reap
wait_scan zero status_ptr = pure missing
wait_scan (suc n) status_ptr = do
  d ← queue_pop defunct
  if d == null then pure broken else do
    d_pcb ← load_pcb d
    me ← active_process
    if d_pcb.ppid == me.pid then reap status_ptr d_pcb.exit_code else do
      c ← queue_add (some defunct) d
      if is_neg c then pure broken else wait_scan n status_ptr

unfoldable pub wait_block : Ptr → M Outcome
wait_block status_ptr = do
  update_active λ p. record p { blocked_code = blocked_wait }
  me ← active_process
  s ← swap_process (some blocked)
  after_swap (sleeps (in_wait status_ptr me.pid)) s

unfoldable pub kernel_wait : Ptr → M Outcome
unfolding wait_block
kernel_wait status_ptr = if status_ptr == null then refuse else do
  me ← active_process
  if eq_int me.num_children (pos 0) then refuse else do
    limit ← gets λ k. length (k.queues defunct)
    r ← wait_scan limit status_ptr
    elim r [ reaped ↦ pure (returns (pos 0)) | broken ↦ refuse | missing ↦ wait_block status_ptr ]

unfoldable pub kernel_wait_return : Ptr → ℕ → M Outcome
kernel_wait_return status_ptr set_code_pid = do
  swap_return
  me ← active_process
  if not (me.pid == set_code_pid) then pure (returns (pos 0)) else do
    emit (int_at status_ptr me.blocked_code)
    update_active λ p. record p { blocked_code = not_blocked }
    pure (returns (pos 0))
