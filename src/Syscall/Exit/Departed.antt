-- ===== src/Syscall/Exit/Departed.antt =====
-- KernelExit as a whole.
use mathlib.Core.Path.{subst}
use yalnix_implementation.Base.{
  ℕ, ◌+◌, ◌≡◌, ◌≢◌, refl, sym, ap, ◌∙◌, true, ◌||◌, some, List, [], ◌∷◌, ◌++◌, ℤ, arith, inl, inr,
  ==-refl, is_pos, not, ◌==◌,
}
use yalnix_implementation.Hardware.{Ptr, UserContext}
use yalnix_implementation.Kernel.{
  Kernel, Pcb, ready, blocked, defunct, Run, ok, Ends, ends, Outcome, sleeps, in_exit,
}
use yalnix_implementation.Frames.{Memory}
use yalnix_implementation.Frames.Conservation.{count}
use yalnix_implementation.Census.{Present}
use yalnix_implementation.Process.Freeing.{owns}
use yalnix_implementation.Process.SwitchLaws.{after_switch}
use yalnix_implementation.Syscall.Exit.{notify, exit_leave, kernel_exit}
use yalnix_implementation.Syscall.Exit.Queued.{AllThere}
use yalnix_implementation.Syscall.Exit.ReadyPass.{orphan}
use yalnix_implementation.Syscall.Exit.BlockedRound.{woken}
use yalnix_implementation.Syscall.Exit.Apart.{
  SameOn-woken, SameOn-asleep, SameOn-survivors, AllThere-active,
}
use yalnix_implementation.Syscall.Exit.BlockedRound.{asleep}
use yalnix_implementation.Syscall.Exit.Hearing.{Heard-told}
use yalnix_implementation.Syscall.Exit.Scanning.{Scanned}
use yalnix_implementation.Syscall.Exit.Departure.{
  coded, with_code, same_there, kernel_exit-scanned, exit_leave-departs,
}
use yalnix_implementation.Syscall.Exit.Leaving.{Leaving, Departed, exit_scan-flag}

pub AllThere-ne :
    (k : Kernel) (x : Ptr) (xs : List Ptr) → AllThere k xs → Present x xs → x ≢ k.active_pcb
AllThere-ne k x [] there at = elim at [ ]
AllThere-ne k x (y ∷ ys) (live, other, pcb, there) (inl here) = λ same. other (here ∙ same)
AllThere-ne k x (y ∷ ys) (live, other, pcb, there) (inr (ne, later)) =
    AllThere-ne k x ys there later

module _ (k : Kernel) (me next : Pcb) (c : ℤ) (n : Ptr) (rest : List Ptr) (u : UserContext)
    (l : Leaving k me next n rest u) where
  abbrev p : Pcb
  p = coded c me

  abbrev j : Kernel
  j = with_code k c me

  coded_other : (x : Ptr) → x ≢ k.active_pcb → j.pcbs x ≡ k.pcbs x
  coded_other x other = ground arith

  idle_other_pcb : k.idle_pcb ≢ k.active_pcb
  idle_other_pcb same =
      let e = l.exiting.holds in
      let at : some me ≡ some l.idle = sym e ∙ ap k.pcbs (sym same) ∙ l.idle_at in
      l.idle_other (ground arith)

  front_there : AllThere k (n ∷ rest)
  front_there = subst (AllThere k) l.front l.exiting.ready_there

  front_ready : Present n (k.queues ready)
  front_ready = rw l.front (inl refl)

  module _ (k1 : Kernel) (s : Scanned p j true k1) where
    -- the same state, written over `j`
    abbrev behind : Kernel
    behind = record j {
      queues = k1.queues;
      pcbs = k1.pcbs;
      memory = record j.memory { mallocs = k1.memory.mallocs };
    }

    abbrev then_ready : List Ptr
    then_ready = rest ++ woken p (k.queues blocked) k.pcbs

    same_blocked : woken p (k.queues blocked) j.pcbs ≡ woken p (k.queues blocked) k.pcbs
    same_blocked =
        SameOn-woken p j.pcbs k.pcbs (k.queues blocked)
          (same_there k me c l.exiting (k.queues blocked) l.exiting.blocked_there)

    behind_ready : k1.queues ready ≡ n ∷ then_ready
    behind_ready =
        s.left_ready
        ∙ ap (λ w. k.queues ready ++ w) same_blocked
        ∙ ap (λ q. q ++ woken p (k.queues blocked) k.pcbs) l.front

    leaves :
        (m : Memory) × (exit_leave true k1
          ≡ ok (sleeps in_exit) (
              after_switch
                (record behind { memory = m })
                k.active_pcb
                n
                defunct
                p
                (orphan p next)
                u
                then_ready))
        × (m.malloc ≡ k.memory.malloc)
        × ((f : ℕ) → count f m.pfn_list ≡ owns f p + count f k.memory.pfn_list)
    leaves =
        let e = l.exiting in
        let (n-live, n-other, _, _) = front_there in
        let parts =
          exit_leave-departs behind n p (orphan p next) l.idle u then_ready e.live n-live n-other
            l.idle_live
            (s.others k.active_pcb (AllThere-active k (k.queues ready) e.ready_there)
                (AllThere-active k (k.queues blocked) e.blocked_there)
              ∙ rw (==-refl k.active_pcb) refl)
            (s.orphaned n next front_ready (coded_other n n-other ∙ l.next_at))
            (s.others k.idle_pcb l.idle_ready l.idle_blocked
              ∙ coded_other k.idle_pcb idle_other_pcb
              ∙ l.idle_at)
            l.idle_other l.context behind_ready e.room in
        (parts.0, ap (exit_leave true) s.rest_same ∙ parts.1, parts.2, parts.3)

    module _ (m : Memory) (same : m.malloc ≡ k.memory.malloc)
        (counts : (f : ℕ) → count f m.pfn_list ≡ owns f p + count f k.memory.pfn_list) where
      abbrev left : Kernel
      left =
          after_switch (record behind { memory = m }) k.active_pcb n defunct p (orphan p next) u
            then_ready

      left_other : (x : Ptr) → x ≢ k.active_pcb → left.pcbs x ≡ k1.pcbs x
      left_other x other = ground arith

      still_blocked : left.queues blocked ≡ asleep p (k.queues blocked) k.pcbs
      still_blocked =
          s.left_blocked
          ∙ SameOn-asleep p j.pcbs k.pcbs (k.queues blocked)
              (same_there k me c l.exiting (k.queues blocked) l.exiting.blocked_there)

      told_all :
          (x : Ptr) (q : Pcb)
          → Present x (k.queues blocked)
          → k.pcbs x ≡ some q
          → left.pcbs x ≡ some (notify p q)
      told_all x q there at =
          let other = AllThere-ne k x (k.queues blocked) l.exiting.blocked_there there in
          left_other x other ∙ s.told x q there (coded_other x other ∙ at)

      departed : Departed k p next n rest u left
      departed =
          let e = l.exiting in
          record {
            runs = refl;
            own_table = refl;
            own_context = refl;
            zombie = rw (==-refl k.active_pcb) refl;
            is_ready = refl;
            is_blocked = still_blocked;
            is_defunct =
                ap (λ q. q ++ k.active_pcb ∷ [])
                  (s.left_defunct
                    ∙ SameOn-survivors p j.pcbs k.pcbs (k.queues defunct)
                        (same_there k me c e (k.queues defunct) e.defunct_there));
            orphaned = λ x q there at.
                let other = AllThere-ne k x (k.queues ready) e.ready_there there in
                left_other x other ∙ s.orphaned x q there (coded_other x other ∙ at);
            heard = Heard-told p k left rest refl still_blocked told_all;
            others = λ x other no_r no_b.
                left_other x other ∙ s.others x no_r no_b ∙ coded_other x other;
            frames = counts;
            nothing_handed = refl;
            same_malloc = same;
            same_contexts = refl;
          }

-- Where the exiting process has a user context and a parent id other than 0, every queued process
-- has a PCB, none is queued twice or is the exiting one, no allocation fails, the parent of the
-- exiting process is on the ready queue and not its child, or on the blocked queue and not waiting
-- in KernelWait, another process is ready, and the idle process is a different one and not queued,
-- KernelExit switches away: the exiting process keeps its PCB with the exit code, its registers
-- and kernel context, and stands last on the defunct queue, which its own children have left; each
-- frame that it had is free once more for each entry that mapped it; its children on the ready
-- queue are orphans; a blocked process that has the id of the exiting one's parent becomes ready,
-- with the exit code as its blocked code and a child less, if it is blocked in KernelWait, and
-- stays blocked and as it is if not; any other blocked process stays blocked, as an orphan if it
-- is a child of the exiting one, and as it is if not; no other PCB has changed; and the oldest
-- ready process runs on its own page table and kernel context.
pub kernel_exit-Departed :
    (k : Kernel) (me next : Pcb) (exit_code : ℤ) (n : Ptr) (rest : List Ptr) (u : UserContext)
    → Leaving k me next n rest u
    → Ends
        (λ o k'. (o ≡ sleeps in_exit) × Departed k (coded exit_code me) next n rest u k')
        (kernel_exit exit_code k)
kernel_exit-Departed k me next c n rest u l =
    let (z, k1, scan, s, flag) = exit_scan-flag k me c l.exiting in
    let on : z ≡ true = flag ∙ l.parent in
    let s1 : Scanned (coded c me) (with_code k c me) true k1 = rw on at s in
    let (m, gone, same, counts) = leaves k me next c n rest u l k1 s1 in
    let scanned =
      kernel_exit-scanned k me c l.exiting u l.context true k1 (is_related me l.child)
        (scan ∙ ap (λ b. ok (some b) k1) on) in
    let Left : Run Outcome → Type 0 =
      Ends (λ o k'. (o ≡ sleeps in_exit) × Departed k (coded c me) next n rest u k') in
    subst Left (sym scanned)
      (subst Left (sym gone) (ends (refl, departed k me next c n rest u l k1 s1 m same counts)))
  where
    is_related : (q : Pcb) → q.ppid ≢ 0 → not (q.ppid == 0) || is_pos q.num_children ≡ true
    is_related q child = ground arith
