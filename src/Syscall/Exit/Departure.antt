-- ===== src/Syscall/Exit/Departure.antt =====
-- KernelExit: how its parts follow one another.
use yalnix_implementation.Base.{
  ℕ, ◌+◌, ◌≡◌, ◌≢◌, refl, sym, ap, ◌∙◌, Bool, true, false, ◌||◌, Option, some, List, [], ◌∷◌, ℤ,
  arith, is_pos, not, ◌==◌,
}
use yalnix_implementation.Hardware.{Ptr, null, UserContext}
use yalnix_implementation.Kernel.{
  Kernel, Pcb, ready, blocked, defunct, Run, ok, fault, Ends, ends, put, sleeps, in_exit, load_pcb,
  update_pcb,
}
use yalnix_implementation.Frames.{Memory}
use yalnix_implementation.Census.{Missing}
use yalnix_implementation.Frames.Conservation.{count}
use yalnix_implementation.Process.Freeing.{owns, free_addr_space-Freed}
use yalnix_implementation.Process.SwitchLaws.{after_switch, swap_process-switch}
use yalnix_implementation.Syscall.Exit.{exit_scan, exit_leave, kernel_exit}
use yalnix_implementation.Syscall.Exit.Queued.{AllThere}
use yalnix_implementation.Syscall.Exit.ReadyPass.{has_parent}
use yalnix_implementation.Syscall.Exit.BlockedRound.{has_busy_parent}
use yalnix_implementation.Syscall.Exit.Apart.{
  SameOn, SameOn-has_parent, SameOn-has_busy_parent, SameOn-there, AllThere-active,
}
use yalnix_implementation.Syscall.Exit.Scanning.{Exiting, Scanned}
use yalnix_implementation.Syscall.Exit.Freed.{exit_leave-fault}

-- the process with its exit code
abbrev pub coded : ℤ → Pcb → Pcb
coded exit_code p = record p { exit_code = exit_code }

pub has_parent-coded :
    (c : ℤ) (me : Pcb) (xs : List Ptr) (pcbs : Ptr → Option Pcb)
    → has_parent (coded c me) xs pcbs ≡ has_parent me xs pcbs
has_parent-coded c me [] pcbs = refl
has_parent-coded c me (x ∷ xs) pcbs = ground (arith, has_parent-coded c me xs pcbs)

pub has_busy_parent-coded :
    (c : ℤ) (me : Pcb) (xs : List Ptr) (pcbs : Ptr → Option Pcb)
    → has_busy_parent (coded c me) xs pcbs ≡ has_busy_parent me xs pcbs
has_busy_parent-coded c me [] pcbs = refl
has_busy_parent-coded c me (x ∷ xs) pcbs = ground (arith, has_busy_parent-coded c me xs pcbs)

abbrev pub with_code : Kernel → ℤ → Pcb → Kernel
with_code k c me = record k { pcbs = put k.pcbs k.active_pcb (some (coded c me)) }

pub Ends-value :
    {A : Type 0} {P : A → Kernel → Type 0} {r : Run A}
    → Ends P r
    → (a : A) × (k : Kernel) × (r ≡ ok a k) × P a k
Ends-value (ends p) = (_, _, refl, p)

pub put-SameOn :
    (k : Kernel) (p : Pcb) (xs : List Ptr)
    → Missing k.active_pcb xs
    → SameOn xs (put k.pcbs k.active_pcb (some p)) k.pcbs
put-SameOn k p [] out = tt
put-SameOn k p (x ∷ xs) (ne, out) = (ground arith, put-SameOn k p xs out)

module _ (k : Kernel) (me : Pcb) (c : ℤ) (e : Exiting k me) where
  pub same_there : (xs : List Ptr) → AllThere k xs → SameOn xs (with_code k c me).pcbs k.pcbs
  same_there xs there = put-SameOn k (coded c me) xs (AllThere-active k xs there)

  coded-there : (xs : List Ptr) → AllThere k xs → AllThere (with_code k c me) xs
  coded-there xs there = SameOn-there xs k (with_code k c me) refl (same_there xs there) there

  pub coded-Exiting : Exiting (with_code k c me) (coded c me)
  coded-Exiting = record {
    live = e.live;
    holds = ground arith;
    ready_there = coded-there (k.queues ready) e.ready_there;
    blocked_there = coded-there (k.queues blocked) e.blocked_there;
    defunct_there = coded-there (k.queues defunct) e.defunct_there;
    apart = e.apart;
    room = e.room;
  }

  -- the flag, read in the state before the exit code is stored
  pub coded-flag :
      has_parent (coded c me) (k.queues ready) (with_code k c me).pcbs
        || has_busy_parent (coded c me) (k.queues blocked) (with_code k c me).pcbs
      ≡ has_parent me (k.queues ready) k.pcbs || has_busy_parent me (k.queues blocked) k.pcbs
  coded-flag = ground (
    arith,
    SameOn-has_parent (coded c me) (with_code k c me).pcbs k.pcbs (k.queues ready)
        (same_there (k.queues ready) e.ready_there),
    SameOn-has_busy_parent (coded c me) (with_code k c me).pcbs k.pcbs (k.queues blocked)
        (same_there (k.queues blocked) e.blocked_there),
    has_parent-coded c me (k.queues ready) k.pcbs,
    has_busy_parent-coded c me (k.queues blocked) k.pcbs,
  )

  module _ (u : UserContext) (context : k.uctxt k.active_pcb ≡ some u) where
    pub kernel_exit-alone :
        not (me.ppid == 0) || is_pos me.num_children ≡ false
        → kernel_exit c k ≡ exit_leave false (with_code k c me)
    unfolding kernel_exit load_pcb update_pcb
    kernel_exit-alone alone = let live = e.live in let holds = e.holds in ground arith

    pub kernel_exit-scanned :
        (z : Bool) (k1 : Kernel)
        → not (me.ppid == 0) || is_pos me.num_children ≡ true
        → exit_scan (with_code k c me) ≡ ok (some z) k1
        → kernel_exit c k ≡ exit_leave z k1
    unfolding kernel_exit load_pcb update_pcb
    kernel_exit-scanned z k1 related scan = let live = e.live in let holds = e.holds in ground arith

    -- SwapProcess of the process that was deleted
    pub Scanned-fault :
        (k1 : Kernel)
        → Scanned (coded c me) (with_code k c me) false k1
        → exit_leave false k1 ≡ fault
    Scanned-fault k1 s =
        let active : k1.active_pcb ≡ k.active_pcb = ap (λ (h : Kernel). h.active_pcb) s.rest_same in
        let same : k1.uctxt ≡ k.uctxt = ap (λ (h : Kernel). h.uctxt) s.rest_same in
        exit_leave-fault k1 u (λ dead. e.live (sym active ∙ dead))
          (ap (λ (f : Ptr → Option UserContext). f k1.active_pcb) same
            ∙ ap k.uctxt active
            ∙ context)

-- the process gives up its frames and the processor, and stands behind the defunct processes
pub exit_leave-departs :
    (j : Kernel) (n : Ptr) (p next idle : Pcb) (u : UserContext) (rest : List Ptr)
    → j.active_pcb ≢ null
    → n ≢ null
    → n ≢ j.active_pcb
    → j.idle_pcb ≢ null
    → j.pcbs j.active_pcb ≡ some p
    → j.pcbs n ≡ some next
    → j.pcbs j.idle_pcb ≡ some idle
    → p.pid ≢ idle.pid
    → j.uctxt j.active_pcb ≡ some u
    → j.queues ready ≡ n ∷ rest
    → ((c : ℕ) → j.memory.malloc c ≢ null)
    → (m : Memory) × (exit_leave true j
        ≡ ok
            (sleeps in_exit)
            (after_switch (record j { memory = m }) j.active_pcb n defunct p next u rest))
      × (m.malloc ≡ j.memory.malloc)
      × ((f : ℕ) → count f m.pfn_list ≡ owns f p + count f j.memory.pfn_list)
unfolding exit_leave
exit_leave-departs j n p next idle u rest a1 a2 a3 a4 a5 a6 a7 a8 a9 a10 room =
    let (m, freed, same, counts) = free_addr_space-Freed j j.active_pcb p a1 a5 room in
    let left : m.malloc m.mallocs ≢ null = rw same (room m.mallocs) in
    let switch =
      swap_process-switch (record j { memory = m }) n defunct p next idle u rest a1 a2 a3 a4 a5 a6
        a7 a8 a9 a10 left in
    (m, ground (arith, freed, switch), same, counts)
