-- ===== src/Process/Switch.antt =====
-- process.c: SwapProcess.
use yalnix_implementation.Base.{
  ◌==◌, if◌then◌else◌, Option, none, some, ◌&&◌, pos, negsuc, is_empty,
}
use yalnix_implementation.Hardware.{Ptr, null}
use yalnix_implementation.Kernel.{
  QueueId, ready, M, pure, ◌>>=◌, ◌>>◌, gets, modify, load_pcb, update_pcb, undefined_behaviour,
  put, queue_add, queue_pop,
}
use yalnix_implementation.ContextSwitch.{kernel_context_switch}

-- How a call of `SwapProcess` ends: with the next process running, without a switch (the C function
-- then returns no value), or with `ERROR`.
pub data Swap : Type 0 where
  swapped stayed failed : Swap

-- the process that runs next
unfoldable pub next_process : M Ptr
next_process = do n ← queue_pop ready; i ← gets λ k. k.idle_pcb; pure (if n == null then i else n)

-- the registers that the process goes on with
unfoldable pub save_context : Ptr → M (Unit {0})
save_context a = do
  u ← gets λ k. k.uctxt a
  elim u [
    | none ↦ undefined_behaviour
    | some c ↦
        update_pcb a λ p. record p { user_context = record p.user_context { sp = c.sp; pc = c.pc } }
  ]

unfoldable pub switch_from : Ptr → Option QueueId → M Swap
unfolding next_process save_context
switch_from a move = do
  next ← next_process
  save_context a
  modify λ k. record k { ptbr1 = next }
  r ← elim move [ none ↦ pure (pos 0) | some q ↦ queue_add (some q) a ]
  elim r [
    | negsuc _ ↦ pure failed
    | pos _ ↦ do
      modify λ k. record k { active_pcb = next }
      kernel_context_switch a next
      pure swapped
  ]

-- `SwapProcess` up to the switch; what follows it belongs to the process that runs next
unfoldable pub swap_process : Option QueueId → M Swap
unfolding switch_from
swap_process move_active = do
  a ← gets λ k. k.active_pcb
  i ← gets λ k. k.idle_pcb
  u ← gets λ k. k.uctxt a
  elim u [
    | none ↦ pure failed
    | some _ ↦ do
      active ← load_pcb a
      idle ← load_pcb i
      waiting ← gets λ k. k.queues ready
      let idling = active.pid == idle.pid
      if idling && is_empty waiting
          then pure stayed
          else switch_from a (if idling then none else move_active)
  ]

-- `SwapProcess` behind the switch, run by a process that comes back
unfoldable pub swap_return : M (Unit {0})
swap_return = do
  a ← gets λ k. k.active_pcb
  p ← load_pcb a
  u ← gets λ k. k.uctxt a
  elim u [
    | none ↦ undefined_behaviour
    | some c ↦ modify λ k. record k {
      uctxt = put k.uctxt a (some (record c { sp = p.user_context.sp; pc = p.user_context.pc }));
    }
  ]
