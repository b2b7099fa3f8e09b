-- ===== src/Syscall/Exit/BlockedPass.antt =====
-- KernelExit: its pass over the blocked queue.
use mathlib.Core.Path.{subst}
use yalnix_implementation.Base.{
  ℕ, ◌≡◌, ◌≢◌, refl, sym, ap, ◌∙◌, Bool, true, false, ◌||◌, Option, none, some, List, [], ◌∷◌, ◌++◌,
  length, arith, inl, inr, ==-refl, ==-ne, Bool-cases,
}
use yalnix_implementation.Hardware.{Ptr, null}
use yalnix_implementation.Kernel.{Kernel, Pcb, ready, blocked, Ends, ends, Ends-mono}
use yalnix_implementation.Census.{Missing, Present, AllDifferent}
use yalnix_implementation.Syscall.Exit.Queued.{
  AllThere, Missing-there, Present-ne, append_snoc, snoc_append, append_nil,
}
use yalnix_implementation.Syscall.Exit.{waits_for, notify, exit_blocked}
use yalnix_implementation.Syscall.Exit.BlockedRound.{
  is_busy_parent, notified, exit_blocked-notified, woken, asleep, has_busy_parent, Notified,
  Notifies, Missing-woken, Missing-asleep, Missing-has_busy_parent,
}

notify_same : (me p q : Pcb) → some p ≡ some q → some (notify me p) ≡ some (notify me q)
notify_same me p q same = ap (λ o. elim o [ none ↦ none | some r ↦ some (notify me r) ]) same

module _ (k : Kernel) (x : Ptr) (xs ys : List Ptr) (z : Bool) (me p : Pcb) (out : Missing x xs)
    (at : k.pcbs x ≡ some p) (r : Option Bool) (k' : Kernel) where
  abbrev k1 : Kernel
  k1 = notified k x me p (xs ++ ys)

  told_cons :
      (ys' : List Ptr) (z1 z' : Bool)
      → Notified me k1 xs ys' z1 z' k'
      → (y : Ptr) (q : Pcb) → Present y (x ∷ xs)
      → k.pcbs y ≡ some q
      → k'.pcbs y ≡ some (notify me q)
  told_cons ys' z1 z' pass y q (inl here) y-at =
      let same : some p ≡ some q = sym at ∙ ap k.pcbs here ∙ y-at in
      ap k'.pcbs (sym here) ∙ pass.others x out ∙ rw (==-refl x) (notify_same me p q same)
  told_cons ys' z1 z' pass y q (inr (ne, there)) y-at =
      pass.told y q there (rw (==-ne y x (Present-ne x y xs out there)) y-at)

  zombie_cons :
      (z' : Bool)
      → z' ≡ (z || is_busy_parent me p) || has_busy_parent me xs k1.pcbs
      → z' ≡ z || has_busy_parent me (x ∷ xs) k.pcbs
  zombie_cons z' h =
      h ∙ ground (arith, at, Missing-has_busy_parent me k.pcbs x (some (notify me p)) xs out)

  notified_awake :
      waits_for p me ≡ true
      → Notifies me k1 xs ys (z || is_busy_parent me p) r k'
      → Notifies me k (x ∷ xs) ys z r k'
  notified_awake waits (z', ended, pass) = (
    z',
    ended,
    record {
      rest_same = pass.rest_same;
      other_queues = λ q nr nb. pass.other_queues q nr nb ∙ ground arith;
      left = pass.left ∙ ground (arith, at, Missing-asleep me k.pcbs x (some (notify me p)) xs out);
      readied =
          pass.readied
          ∙ ground (
            arith,
            at,
            Missing-woken me k.pcbs x (some (notify me p)) xs out,
            append_snoc (k.queues ready) (woken me xs k.pcbs) x,
          );
      told = told_cons ys (z || is_busy_parent me p) z' pass;
      others = λ b (ne, gone). pass.others b gone ∙ ground arith;
      zombie = zombie_cons z' pass.zombie;
    },
  )

  notified_asleep :
      waits_for p me ≡ false
      → Notifies me k1 xs (ys ++ x ∷ []) (z || is_busy_parent me p) r k'
      → Notifies me k (x ∷ xs) ys z r k'
  notified_asleep waits (z', ended, pass) = (
    z',
    ended,
    record {
      rest_same = pass.rest_same;
      other_queues = λ q nr nb. pass.other_queues q nr nb ∙ ground arith;
      left =
          pass.left
          ∙ ground (
            arith,
            at,
            Missing-asleep me k.pcbs x (some (notify me p)) xs out,
            append_snoc ys (asleep me xs k.pcbs) x,
          );
      readied =
          pass.readied ∙ ground (arith, at, Missing-woken me k.pcbs x (some (notify me p)) xs out);
      told = told_cons (ys ++ x ∷ []) (z || is_busy_parent me p) z' pass;
      others = λ b (ne, gone). pass.others b gone ∙ ground arith;
      zombie = zombie_cons z' pass.zombie;
    },
  )

exit_blocked-front :
    (xs ys : List Ptr) (k : Kernel) (z : Bool) (me : Pcb)
    → k.active_pcb ≢ null
    → k.pcbs k.active_pcb ≡ some me
    → AllThere k xs
    → AllDifferent xs
    → k.queues blocked ≡ xs ++ ys
    → ((c : ℕ) → k.memory.malloc c ≢ null)
    → Ends (Notifies me k xs ys z) (exit_blocked (length xs) z k)
unfolding exit_blocked
exit_blocked-front [] ys k z me live me-at there apart waiting room = ends (
  z,
  refl,
  record {
    rest_same = refl;
    other_queues = λ q nr nb. refl;
    left = waiting ∙ append_nil ys;
    readied = append_nil (k.queues ready);
    told = λ x p h at. elim h [ ];
    others = λ b out. refl;
    zombie = ground arith;
  },
)
exit_blocked-front (x ∷ xs) ys k z me live me-at (x-live, x-other, (p, at), there) (out, apart)
      waiting room =
    let next = notified k x me p (xs ++ ys) in
    let me-next : next.pcbs next.active_pcb ≡ some me =
      rw (==-ne k.active_pcb x (λ same. x-other (sym same))) me-at in
    let there-next = Missing-there k x (some (notify me p)) xs out there in
    let z' = z || is_busy_parent me p in
    subst (Ends (Notifies me k (x ∷ xs) ys z))
      (sym (
        exit_blocked-notified k (length xs) z x me p (xs ++ ys) live me-at x-live x-other at waiting
          (room _)))
      (elim (Bool-cases (waits_for p me)) [
        | inl waits ↦
            Ends-mono
              (exit_blocked-front xs ys next z' me live me-next there-next apart (ground arith)
                room)
              (λ r k'. notified_awake k x xs ys z me p out at r k' waits)
        | inr sleeps ↦
            Ends-mono
              (exit_blocked-front xs (ys ++ x ∷ []) next z' me live me-next there-next apart
                (ground (arith, snoc_append xs ys x)) room)
              (λ r k'. notified_asleep k x xs ys z me p out at r k' sleeps)
      ])

-- Where every process on the blocked queue is there once, none is the exiting one, and no
-- allocation fails, KernelExit's pass over that queue moves the parent that waits for the exiting
-- process behind the ready ones, with the exit code as its blocked code and a child less, leaves
-- the others on the queue in their order, makes an orphan of each child that is not the parent,
-- changes no other process, and marks the exiting process as a zombie exactly if it was one or a
-- parent is on the queue that does not wait.
pub exit_blocked-Notifies :
    (k : Kernel) (z : Bool) (me : Pcb)
    → k.active_pcb ≢ null
    → k.pcbs k.active_pcb ≡ some me
    → AllThere k (k.queues blocked)
    → AllDifferent (k.queues blocked)
    → ((c : ℕ) → k.memory.malloc c ≢ null)
    → Ends (Notifies me k (k.queues blocked) [] z) (exit_blocked (length (k.queues blocked)) z k)
exit_blocked-Notifies k z me live me-at there apart room =
    exit_blocked-front (k.queues blocked) [] k z me live me-at there apart
      (append_nil (k.queues blocked)) room
