-- ===== src/Process/RoundTrip.antt =====
-- SwapProcess there and back: a process that is switched away and runs again.
use mathlib.Core.Path.{subst}
use yalnix_implementation.Base.{
  ℕ, suc, ◌+◌, ◌≤◌, length, ◌≡◌, ◌≢◌, refl, sym, some, [], ◌∷◌, ==-refl, arith,
}
use yalnix_implementation.Hardware.{Ptr, null, UserContext, kernel_stack_page}
use yalnix_implementation.Kernel.{Kernel, Pcb, M, ◌>>=◌, ready, ok, Ends, ends, put, load_pcb}
use yalnix_implementation.Process.KernelStack.{
  IsOnStack, SameOffStack, length-map_stack, map_stack-IsOnStack, map_stack-SameOffStack_twice,
}
use yalnix_implementation.Process.Switch.{swapped, swap_process, swap_return}
use yalnix_implementation.Process.SwitchLaws.{saved, after_switch, swap_process-switch}

-- Two processes, the running one at `k.active_pcb` and the only ready one at `n`, neither idle, with
-- kernel stacks of one size, for which region 0's table has room.
pub record Pair (k : Kernel) (n : Ptr) (p next idle : Pcb) (u v : UserContext) : Type 0 where
  pub live : k.active_pcb ≢ null
  pub next_live : n ≢ null
  pub idle_live : k.idle_pcb ≢ null
  pub apart : n ≢ k.active_pcb
  pub idle_apart : k.idle_pcb ≢ k.active_pcb
  pub idle_other : k.idle_pcb ≢ n
  pub holds : k.pcbs k.active_pcb ≡ some p
  pub next_holds : k.pcbs n ≡ some next
  pub idle_holds : k.pcbs k.idle_pcb ≡ some idle
  pub not_idle : p.pid ≢ idle.pid
  pub next_not_idle : next.pid ≢ idle.pid
  pub context : k.uctxt k.active_pcb ≡ some u
  pub next_context : k.uctxt n ≡ some v
  pub only : k.queues ready ≡ n ∷ []
  pub room : (c : ℕ) → k.memory.malloc c ≢ null
  pub table : kernel_stack_page + length p.kernel_stack_pt ≤ length k.k_pt
  pub same_size : length next.kernel_stack_pt ≡ length p.kernel_stack_pt

-- the process is switched away, the other one is, and the first goes on
abbrev pub there_and_back : M (Unit {0})
there_and_back = swap_process (some ready) >>= λ _. swap_process (some ready) >>= λ _. swap_return

-- The process runs as it did: on its page table, its kernel stack and its kernel context, with region
-- 0's table as it was off the kernel stack, and the trap returns to its own stack pointer and program counter. The other
-- one is ready again.
pub record Back (k : Kernel) (n : Ptr) (p next : Pcb) (u : UserContext) (k' : Kernel) : Type 0 where
  pub runs : k'.active_pcb ≡ k.active_pcb
  pub own_table : k'.ptbr1 ≡ k.active_pcb
  pub own_stack : IsOnStack p.kernel_stack_pt k'.k_pt
  pub off_stack : SameOffStack (length p.kernel_stack_pt) k.k_pt k'.k_pt
  pub own_kernel_context : k'.kernel_context ≡ k.kernel_context
  pub own_context : k'.uctxt k.active_pcb ≡ some u
  pub other_waits : k'.queues ready ≡ n ∷ []

module _ (k : Kernel) (n : Ptr) (p next idle : Pcb) (u v : UserContext)
    (h : Pair k n p next idle u v) where
  abbrev k1 : Kernel
  k1 = after_switch k k.active_pcb n ready p next u []

  abbrev k2 : Kernel
  k2 = after_switch k1 n k.active_pcb ready next (saved p u k.kernel_context) v []

  first : swap_process (some ready) k ≡ ok swapped k1
  first =
      swap_process-switch k n ready p next idle u [] h.live h.next_live h.apart h.idle_live h.holds
        h.next_holds h.idle_holds h.not_idle h.context h.only (h.room k.memory.mallocs)

  second : swap_process (some ready) k1 ≡ ok swapped k2
  second =
      swap_process-switch k1 k.active_pcb ready next (saved p u k.kernel_context) idle v []
        h.next_live h.live (λ same. h.apart (sym same)) h.idle_live
        (ground (arith, h.apart, h.next_holds)) (rw (==-refl k.active_pcb) refl)
        (ground (arith, h.idle_apart, h.idle_holds)) h.next_not_idle h.next_context refl
        (h.room (suc k.memory.mallocs))

  abbrev k3 : Kernel
  k3 = record k2 { uctxt = put k.uctxt k.active_pcb (some u) }

  third : swap_return k2 ≡ ok tt k3
  unfolding swap_return load_pcb
  third = ground (arith, h.live, h.context, h.apart)

  on_stack : IsOnStack p.kernel_stack_pt k3.k_pt
  on_stack =
      map_stack-IsOnStack p.kernel_stack_pt k1.k_pt
        (omega (arith, h.table, length-map_stack kernel_stack_page next.kernel_stack_pt k.k_pt))

  back : there_and_back k ≡ ok tt k3
  back = ground (arith, first, second, third)

-- If a process and the only ready one are both not the idle process and have user contexts and
-- kernel stacks of one size, for which region 0's table has room, and no allocation fails, then
-- behind a SwapProcess from the first to the second, one back, and what SwapProcess does when the
-- first goes on, each entry of the first one's kernel stack is at its place in region 0's table,
-- which is as it was elsewhere, the first runs on its own page table and kernel context, its trap
-- returns with the stack pointer and the program counter that it had, and the second is alone on
-- the ready queue.
pub there_and_back-Back :
    (k : Kernel) (n : Ptr) (p next idle : Pcb) (u v : UserContext)
    → Pair k n p next idle u v
    → Ends (λ _ k'. Back k n p next u k') (there_and_back k)
there_and_back-Back k n p next idle u v h =
    subst (Ends λ _ k'. Back k n p next u k') (sym (back k n p next idle u v h)) (
      ends (record {
        runs = refl;
        own_table = refl;
        own_stack = on_stack k n p next idle u v h;
        off_stack =
            map_stack-SameOffStack_twice p.kernel_stack_pt next.kernel_stack_pt k.k_pt h.same_size;
        own_kernel_context = refl;
        own_context = rw (==-refl k.active_pcb) refl;
        other_waits = refl;
      }))
