-- ===== src/Syscall/Exit/Scan.antt =====
-- KernelExit: its three passes over the queues, one behind the other.
use mathlib.Core.Path.{subst}
use yalnix_implementation.Base.{
  ◌≡◌, refl, sym, ap, ◌∙◌, Bool, false, Option, none, some, List, [], ◌++◌, length, arith,
}
use yalnix_implementation.Hardware.{Ptr}
use yalnix_implementation.Kernel.{Kernel, Pcb, ready, blocked, defunct, ok, Ends, ends, Ends-bind}
use yalnix_implementation.Census.{Missing, Present, AllDifferent}
use yalnix_implementation.Syscall.Exit.{
  notify, exit_ready, exit_blocked, exit_defunct, scan_defunct, scan_blocked, exit_scan,
}
use yalnix_implementation.Syscall.Exit.Queued.{AllThere, OnlyQueued}
use yalnix_implementation.Syscall.Exit.ReadyPass.{PassedOver, exit_ready-Passes}
use yalnix_implementation.Syscall.Exit.BlockedRound.{woken, asleep, Notified, Notifies}
use yalnix_implementation.Syscall.Exit.BlockedPass.{exit_blocked-Notifies}
use yalnix_implementation.Syscall.Exit.DefunctPass.{Cleared, Clears, exit_defunct-Clears}
use yalnix_implementation.Syscall.Exit.Apart.{
  SameOn, SameOn-woken, SameOn-asleep, SameOn-survivors, SameOn-has_busy_parent, Missing-SameOn,
  SameOn-there, AllThere-active, AllMissing, AllMissing-left, AllMissing-right, AllMissing-both,
  AllMissing-sym, AllMissing-Present, AllDifferent-left, AllDifferent-right, AllDifferent-apart,
  Missing-append_left, Missing-append_right,
}
use yalnix_implementation.Syscall.Exit.Hearing.{Heard-told}
use yalnix_implementation.Syscall.Exit.Scanning.{
  Exiting, Scanned, Scans, OnlyQueued-trans, OnlyQueued-active, OnlyQueued-room, OnlyQueued-holds,
}

module _ (k : Kernel) (me : Pcb) (e : Exiting k me) where
  abbrev on_ready : List Ptr
  on_ready = k.queues ready

  abbrev on_blocked : List Ptr
  on_blocked = k.queues blocked

  abbrev on_defunct : List Ptr
  on_defunct = k.queues defunct

  behind_ready : AllMissing (on_blocked ++ on_defunct) on_ready
  behind_ready = AllDifferent-apart on_ready (on_blocked ++ on_defunct) e.apart

  blocked_defunct : AllDifferent (on_blocked ++ on_defunct)
  blocked_defunct = AllDifferent-right on_ready (on_blocked ++ on_defunct) e.apart

  module _ (z1 : Bool) (k1 : Kernel) (p1 : PassedOver me k on_ready [] false z1 k1) where
    active1 : k1.active_pcb ≡ k.active_pcb
    active1 = OnlyQueued-active k k1 p1.rest_same

    same_blocked : SameOn on_blocked k1.pcbs k.pcbs
    same_blocked =
        Missing-SameOn on_ready on_blocked k1.pcbs k.pcbs p1.others
          (AllMissing-left on_blocked on_defunct on_ready behind_ready)

    holds1 : k1.pcbs k1.active_pcb ≡ some me
    holds1 =
        OnlyQueued-holds k k1 me p1.rest_same
          (p1.others k.active_pcb (AllThere-active k on_ready e.ready_there) ∙ e.holds)

    second_pass :
        Ends (Notifies me k1 on_blocked [] z1) (exit_blocked (length (k1.queues blocked)) z1 k1)
    second_pass =
        let q : k1.queues blocked ≡ on_blocked = p1.other_queues blocked refl in
        subst
          (λ xs. Ends (Notifies me k1 xs [] z1) (exit_blocked (length (k1.queues blocked)) z1 k1)) q
          (exit_blocked-Notifies k1 z1 me (λ dead. e.live (sym active1 ∙ dead)) holds1
            (subst (AllThere k1) (sym q)
              (SameOn-there on_blocked k k1 active1 same_blocked e.blocked_there))
            (subst AllDifferent (sym q) (AllDifferent-left on_blocked on_defunct blocked_defunct))
            (OnlyQueued-room k k1 p1.rest_same e.room))

    module _ (z2 : Bool) (k2 : Kernel) (p2 : Notified me k1 on_blocked [] z1 z2 k2) where
      together : OnlyQueued k k2
      together = OnlyQueued-trans k k1 k2 p1.rest_same p2.rest_same

      active2 : k2.active_pcb ≡ k.active_pcb
      active2 = OnlyQueued-active k k2 together

      untouched : (b : Ptr) → Missing b on_ready → Missing b on_blocked → k2.pcbs b ≡ k.pcbs b
      untouched b no_r no_b = p2.others b no_b ∙ p1.others b no_r

      same_defunct : SameOn on_defunct k2.pcbs k.pcbs
      same_defunct =
          Missing-SameOn (on_ready ++ on_blocked) on_defunct k2.pcbs k.pcbs
            (λ b out.
              untouched b (Missing-append_left b on_ready on_blocked out)
                (Missing-append_right b on_ready on_blocked out))
            (AllMissing-both on_defunct on_ready on_blocked
              (AllMissing-right on_blocked on_defunct on_ready behind_ready)
              (AllDifferent-apart on_blocked on_defunct blocked_defunct))

      queue2 : k2.queues defunct ≡ on_defunct
      queue2 = p2.other_queues defunct refl refl ∙ p1.other_queues defunct refl

      third_pass : Ends (Clears me k2 on_defunct []) (exit_defunct (length (k2.queues defunct)) k2)
      third_pass =
          subst (λ xs. Ends (Clears me k2 xs []) (exit_defunct (length (k2.queues defunct)) k2))
            queue2
            (exit_defunct-Clears k2 me (λ dead. e.live (sym active2 ∙ dead))
              (OnlyQueued-holds k k2 me together (
                untouched k.active_pcb (AllThere-active k on_ready e.ready_there)
                  (AllThere-active k on_blocked e.blocked_there)
                ∙ e.holds))
              (subst (AllThere k2) (sym queue2)
                (SameOn-there on_defunct k k2 active2 same_defunct e.defunct_there))
              (OnlyQueued-room k k2 together e.room))

      module _ (k3 : Kernel) (p3 : Cleared me k2 on_defunct [] k3) where
        ready3 : k3.queues ready ≡ on_ready ++ woken me on_blocked k.pcbs
        ready3 =
            p3.other_queues ready refl
            ∙ p2.readied
            ∙ ground (arith, p1.queue, SameOn-woken me k1.pcbs k.pcbs on_blocked same_blocked)

        blocked3 : k3.queues blocked ≡ asleep me on_blocked k.pcbs
        blocked3 =
            p3.other_queues blocked refl
            ∙ p2.left
            ∙ SameOn-asleep me k1.pcbs k.pcbs on_blocked same_blocked

        told3 :
            (x : Ptr) (p : Pcb)
            → Present x on_blocked
            → k.pcbs x ≡ some p
            → k3.pcbs x ≡ some (notify me p)
        told3 x p there at =
            ap (λ (f : Ptr → Option Pcb). f x) p3.same_pcbs
            ∙ p2.told x p there (
                p1.others x (
                  AllMissing-Present x on_blocked on_ready
                    (AllMissing-left on_blocked on_defunct on_ready behind_ready) there)
                ∙ at)

      scanned : (k3 : Kernel) → Cleared me k2 on_defunct [] k3 → Scanned me k z2 k3
      scanned k3 p3 = record {
        rest_same = OnlyQueued-trans k k2 k3 together p3.rest_same;
        left_ready = ready3 k3 p3;
        left_blocked = blocked3 k3 p3;
        left_defunct = p3.left ∙ SameOn-survivors me k2.pcbs k.pcbs on_defunct same_defunct;
        orphaned = λ x p there at.
            ap (λ (f : Ptr → Option Pcb). f x) p3.same_pcbs
            ∙ p2.others x (
                AllMissing-Present x on_ready on_blocked
                  (AllMissing-sym on_blocked on_ready
                    (AllMissing-left on_blocked on_defunct on_ready behind_ready))
                  there)
            ∙ p1.orphaned x p there at;
        told = told3 k3 p3;
        heard = Heard-told me k k3 on_ready (ready3 k3 p3) (blocked3 k3 p3) (told3 k3 p3);
        others =
            λ b no_r no_b. ap (λ (f : Ptr → Option Pcb). f b) p3.same_pcbs ∙ untouched b no_r no_b;
        zombie =
            p2.zombie
            ∙ ground (
              arith,
              p1.zombie,
              SameOn-has_busy_parent me k1.pcbs k.pcbs on_blocked same_blocked,
            );
      }

      scan_defunct-Scans : Ends (Scans me k) (scan_defunct z2 k2)
      unfolding scan_defunct
      scan_defunct-Scans =
          Ends-bind (exit_defunct (length (k2.queues defunct)))
            (λ d k3. ok (elim d [ none ↦ none | some _ ↦ some z2 ]) k3) k2 third_pass
            (λ d k3 (ended, p3). rw ended (ends (z2, refl, scanned k3 p3)))

    scan_blocked-Scans : Ends (Scans me k) (scan_blocked z1 k1)
    unfolding scan_blocked
    scan_blocked-Scans =
        Ends-bind (exit_blocked (length (k1.queues blocked)) z1)
          (λ b. elim b [ none ↦ (λ k2. ok none k2) | some z2 ↦ scan_defunct z2 ]) k1 second_pass
          (λ b k2 (z2, ended, p2). rw ended (scan_defunct-Scans z2 k2 p2))

  -- Where every queued process has a PCB, none is queued twice or is the exiting one, and no
  -- allocation fails, the three passes of KernelExit over the queues succeed: a blocked process
  -- that has the id of the exiting one's parent becomes ready, with the exit code as its blocked
  -- code and a child less, if it is blocked in KernelWait, and stays blocked and as it is if not;
  -- any other blocked process stays blocked, as an orphan if it is a child of the exiting one, and
  -- as it is if not; those that become ready stand behind the ready ones, and the other processes
  -- stay on their queues in their order, but for the defunct children of the exiting process,
  -- which are dropped; its ready children become orphans; no other PCB changes; and the flag says
  -- exactly whether its parent is on the ready queue and not its child, or on the blocked queue
  -- and not waiting.
  pub exit_scan-Scans : Ends (Scans me k) (exit_scan k)
  unfolding exit_scan
  exit_scan-Scans =
      Ends-bind (exit_ready (length on_ready) false)
        (λ r. elim r [ none ↦ (λ k1. ok none k1) | some z1 ↦ scan_blocked z1 ]) k
        (exit_ready-Passes k false me e.live e.holds e.ready_there
          (AllDifferent-left on_ready (on_blocked ++ on_defunct) e.apart) e.room)
        (λ r k1 (z1, ended, p1). rw ended (scan_blocked-Scans z1 k1 p1))
