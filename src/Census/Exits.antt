-- ===== src/Census/Exits.antt =====
-- What KernelExit does to the frames of all processes: the exiting one is counted no more.
use yalnix_implementation.Base.{
  ℕ, ◌+◌, ◌≡◌, ◌≢◌, sym, ap, ◌∙◌, ◌==◌, if◌then◌else◌, Option, some, List, [], ◌∷◌, arith, ◌⊎◌, inl,
  inr, Bool-cases, ==→eq, ℤ, eq_int, eq_int→eq, false,
}
use yalnix_implementation.Hardware.{Ptr, UserContext}
use yalnix_implementation.Kernel.{Kernel, Pcb, ready, blocked, blocked_wait}
use yalnix_implementation.Process.Freeing.{owns}
use yalnix_implementation.Syscall.Exit.Queued.{AllThere}
use yalnix_implementation.Syscall.Exit.Hearing.{Heard}
use yalnix_implementation.Syscall.Exit.Leaving.{Leaving, Departed}
use yalnix_implementation.Census.{
  owned_by, owned, census, Missing, Present, AllDifferent, owned-same,
}

-- the processes but one
abbrev pub without : Ptr → List Ptr → List Ptr
without a [] = []
without a (b ∷ bs) = if b == a then bs else b ∷ without a bs

Missing-without : (a b : Ptr) (ps : List Ptr) → Missing b ps → Missing b (without a ps)
Missing-without a b [] out = tt
Missing-without a b (x ∷ ps) (ne, out) = elim (Bool-cases (x == a)) [
  | inl here ↦ rw here out
  | inr there ↦ rw there (ne, Missing-without a b ps out)
]

pub AllDifferent-without :
    (a : Ptr) (ps : List Ptr)
    → AllDifferent ps
    → AllDifferent (without a ps) × Missing a (without a ps)
AllDifferent-without a [] apart = (tt, tt)
AllDifferent-without a (x ∷ ps) (out, apart) = elim (Bool-cases (x == a)) [
  | inl here ↦ rw here (apart, rw (← ==→eq x a here) out)
  | inr there ↦
      let (different, gone) = AllDifferent-without a ps apart in
      rw there ((Missing-without a x ps out, different), ((λ same. ground arith), gone))
]

owned-without :
    (f : ℕ) (a : Ptr) (ps : List Ptr) (pcbs : Ptr → Option Pcb)
    → Present a ps
    → owned f (without a ps) pcbs + owned_by f (pcbs a) ≡ owned f ps pcbs
owned-without f a [] pcbs there = elim there [ ]
owned-without f a (x ∷ ps) pcbs (inl here) =
    let same : owned_by f (pcbs x) ≡ owned_by f (pcbs a) = ap (λ b. owned_by f (pcbs b)) here in
    ground arith
owned-without f a (x ∷ ps) pcbs (inr (ne, there)) = ground (arith, owned-without f a ps pcbs there)

Present-cases : (x : Ptr) (xs : List Ptr) → Present x xs ⊎ Missing x xs
Present-cases x [] = inr tt
Present-cases x (y ∷ ys) = elim (Bool-cases (y == x)) [
  | inl here ↦ inl (inl (==→eq y x here))
  | inr there ↦ elim (Present-cases x ys) [
    | inl later ↦ inl (inr ((λ same. ground arith), later))
    | inr out ↦ inr ((λ same. ground arith), out)
  ]
]

AllThere-at :
    (k : Kernel) (x : Ptr) (xs : List Ptr)
    → AllThere k xs
    → Present x xs
    → (p : Pcb) × (k.pcbs x ≡ some p)
AllThere-at k x [] there at = elim at [ ]
AllThere-at k x (y ∷ ys) (live, other, (p, at), there) (inl here) = (p, ap k.pcbs (sym here) ∙ at)
AllThere-at k x (y ∷ ys) (live, other, pcb, there) (inr (ne, later)) =
    AllThere-at k x ys there later

-- a process that hears of the exit keeps its frames
Heard-owned_by :
    (f : ℕ) (k k' : Kernel) (me q : Pcb) (x : Ptr)
    → Heard me k k'
    → Present x (k.queues blocked)
    → k.pcbs x ≡ some q
    → owned_by f (k'.pcbs x) ≡ owned_by f (k.pcbs x)
Heard-owned_by f k k' me q x h there at = elim (Bool-cases (q.pid == me.ppid)) [
  | inl parent ↦
      let same = ==→eq q.pid me.ppid parent in
      elim (Bool-cases (eq_int q.blocked_code blocked_wait)) [
        | inl waits ↦
            ap (owned_by f)
              ((h.waiting x q there at same (eq_int→eq q.blocked_code blocked_wait waits)).1)
            ∙ sym (ap (owned_by f) at)
        | inr busy ↦
            ap (owned_by f)
              ((h.busy x q there at same (λ code. not_waiting q.blocked_code code busy)).1)
            ∙ sym (ap (owned_by f) at)
      ]
  | inr other ↦ elim (Bool-cases (q.ppid == me.pid)) [
    | inl child ↦
        ap (owned_by f)
          ((h.child x q there at (λ same. ground arith) (==→eq q.ppid me.pid child)).1)
        ∙ sym (ap (owned_by f) at)
    | inr apart ↦
        ap (owned_by f) ((h.stranger x q there at (λ same. ground arith) (λ same. ground arith)).1)
        ∙ sym (ap (owned_by f) at)
  ]
]
  where
    not_waiting : (i : ℤ) → i ≡ blocked_wait → eq_int i blocked_wait ≡ false → ⊥
    not_waiting i code busy = cc (code, busy)

module _ (f : ℕ) (k k' : Kernel) (me p next : Pcb) (n : Ptr) (rest : List Ptr) (u : UserContext)
    (l : Leaving k me next n rest u) (d : Departed k p next n rest u k') where
  Departed-owned_by : (b : Ptr) → b ≢ k.active_pcb → owned_by f (k'.pcbs b) ≡ owned_by f (k.pcbs b)
  Departed-owned_by b ne = elim (Present-cases b (k.queues ready)) [
    | inl on_ready ↦
        let (q, at) = AllThere-at k b (k.queues ready) l.exiting.ready_there on_ready in
        ap (owned_by f) (d.orphaned b q on_ready at) ∙ sym (ap (owned_by f) at)
    | inr not_ready ↦ elim (Present-cases b (k.queues blocked)) [
      | inl on_blocked ↦
          let (q, at) = AllThere-at k b (k.queues blocked) l.exiting.blocked_there on_blocked in
          Heard-owned_by f k k' p q b d.heard on_blocked at
      | inr not_blocked ↦ ap (owned_by f) (d.others b ne not_ready not_blocked)
    ]
  ]

  pub Departed-census :
      (ps : List Ptr)
      → AllDifferent ps
      → Present k.active_pcb ps
      → owns f p ≡ owns f me
      → census f (without k.active_pcb ps) k' ≡ census f ps k
  Departed-census ps apart there same =
      let a = k.active_pcb in
      let gone = (AllDifferent-without a ps apart).1 in
      let held : owned_by f (k.pcbs a) ≡ owns f me = ap (owned_by f) l.exiting.holds in
      omega (
        arith,
        d.frames f,
        same,
        held,
        owned-without f a ps k.pcbs there,
        owned-same f (without a ps) k.pcbs k'.pcbs a gone Departed-owned_by,
      )
