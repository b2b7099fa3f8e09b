-- ===== src/Syscall/Exit.antt =====
-- syscalls.c: KernelExit.
pub mod Freed
pub mod Queued
pub mod ReadyPass
pub mod BlockedRound
pub mod BlockedPass
pub mod DefunctPass
pub mod Apart
pub mod Hearing
pub mod Scanning
pub mod Scan
pub mod Departure
pub mod Leaving
pub mod Departed
pub mod Waited
use yalnix_implementation.Base.{
  ℕ, zero, suc, ◌==◌, if◌then◌else◌, Option, none, some, Bool, true, false, not, ◌||◌, ◌&&◌, ℤ, pos,
  dec, is_neg, is_pos, eq_int, length,
}
use yalnix_implementation.Hardware.{null}
use yalnix_implementation.Kernel.{
  Pcb, ready, blocked, defunct, M, pure, ◌>>=◌, ◌>>◌, gets, load_pcb, update_pcb, blocked_wait,
  queue_add, queue_pop, Outcome, sleeps, in_exit, refuse, active_process, update_active,
  trap_context,
}
use yalnix_implementation.Process.{free_addr_space, delete_process, swap_process}
use yalnix_implementation.Syscall.Basic.{after_swap}

-- The three loops. `zombie` says that `swap_q` is the defunct queue; `none` is `return ERROR`.
unfoldable pub exit_ready : ℕ → Bool → M (Option Bool)
exit_ready zero zombie = pure (some zombie)
exit_ready (suc n) zombie = do
  r ← queue_pop ready
  r_pcb ← load_pcb r
  me ← active_process
  update_pcb r λ p. record p { ppid = if r_pcb.ppid == me.pid then 0 else p.ppid }
  c ← queue_add (some ready) r
  if is_neg c
      then pure none
      else exit_ready n (zombie || (not (r_pcb.ppid == me.pid) && (r_pcb.pid == me.ppid)))

-- the process is the exiting one's parent, and blocked in KernelWait
abbrev pub waits_for : Pcb → Pcb → Bool
waits_for b me = (b.pid == me.ppid) && eq_int b.blocked_code blocked_wait

-- what the exit of `me` does to a blocked process
abbrev pub notify : Pcb → Pcb → Pcb
notify me b =
    if waits_for b me
    then record b { blocked_code = me.exit_code; num_children = dec b.num_children }
    else if b.pid == me.ppid
    then b
    else if b.ppid == me.pid
    then record b { ppid = 0 }
    else b

unfoldable pub exit_blocked : ℕ → Bool → M (Option Bool)
exit_blocked zero zombie = pure (some zombie)
exit_blocked (suc n) zombie = do
  b ← queue_pop blocked
  if b == null then pure none else do
    b_pcb ← load_pcb b
    me ← active_process
    update_pcb b (notify me)
    c ← queue_add (some (if waits_for b_pcb me then ready else blocked)) b
    if is_neg c
        then pure none
        else exit_blocked n (zombie || (not (waits_for b_pcb me) && (b_pcb.pid == me.ppid)))

-- defunct children of the exiting process are dropped
unfoldable pub exit_defunct : ℕ → M (Option Bool)
exit_defunct zero = pure (some true)
exit_defunct (suc n) = do
  d ← queue_pop defunct
  if d == null then pure none else do
    d_pcb ← load_pcb d
    me ← active_process
    c ← (if d_pcb.ppid == me.pid then pure (pos 0) else queue_add (some defunct) d)
    if is_neg c then pure none else exit_defunct n

unfoldable pub scan_defunct : Bool → M (Option Bool)
scan_defunct zombie = do
  l ← gets λ k. length (k.queues defunct)
  d ← exit_defunct l
  pure (elim d [ none ↦ none | some _ ↦ some zombie ])

unfoldable pub scan_blocked : Bool → M (Option Bool)
unfolding scan_defunct
scan_blocked zombie = do
  m ← gets λ k. length (k.queues blocked)
  b ← exit_blocked m zombie
  elim b [ none ↦ pure none | some z ↦ scan_defunct z ]

unfoldable pub exit_scan : M (Option Bool)
unfolding scan_blocked
exit_scan = do
  n ← gets λ k. length (k.queues ready)
  r ← exit_ready n false
  elim r [ none ↦ pure none | some z ↦ scan_blocked z ]

-- the process gives up its memory and the processor
unfoldable pub exit_leave : Bool → M Outcome
exit_leave zombie = do
  a ← gets λ k. k.active_pcb
  c ← (if zombie then free_addr_space a else delete_process a)
  if is_neg c then refuse else do
    s ← swap_process (if zombie then some defunct else none)
    after_swap (sleeps in_exit) s

unfoldable pub kernel_exit : ℤ → M Outcome
unfolding exit_leave
kernel_exit exit_code = do
  u ← trap_context
  elim u [
    | none ↦ refuse
    | some _ ↦ do
      update_active λ p. record p { exit_code = exit_code }
      me ← active_process
      r ← (if not (me.ppid == 0) || is_pos me.num_children then exit_scan else pure (some false))
      elim r [ none ↦ refuse | some zombie ↦ exit_leave zombie ]
  ]
