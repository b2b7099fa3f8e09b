-- ===== src/Trap/Clock/Round.antt =====
-- TrapClockHandler's loop: which blocked processes it makes ready.
use mathlib.Core.Path.{subst}
use mathlib.Core.List.{append-nil, append_assoc}
use yalnix_implementation.Base.{
  ℕ, zero, suc, ◌≡◌, ◌≢◌, refl, sym, ap, ◌∙◌, ◌==◌, Option, none, some, Bool, true, false, ◌||◌,
  List, [], ◌∷◌, ◌++◌, pos, arith, length, ◌⊎◌, inl, inr,
}
use yalnix_implementation.Hardware.{Ptr, null}
use yalnix_implementation.Kernel.{
  Kernel, Pcb, QueueId, eq_queue, returns, ready, blocked, Run, ok, Ends, ends, Ends-mono, put,
  put_queue, terminal_open, load_pcb, update_pcb, queue_add, queue_pop,
}
use yalnix_implementation.Trap.Clock.{check_pcb, check_blocked, clock_loop, clock_rest}

-- is the process's terminal open?
abbrev pub open_for : (ℕ → ℕ) → Pcb → Bool
open_for trackers p = trackers p.tty_terminal == terminal_open

abbrev pub among : Ptr → List Ptr → Bool
among x [] = false
among x (y ∷ ys) = (x == y) || among x ys

abbrev pub addresses : List (Ptr × Pcb) → List Ptr
addresses [] = []
addresses ((x, _) ∷ xs) = x ∷ addresses xs

-- The processes of the queue are distinct and there, with the given contents.
abbrev pub Holds : (Ptr → Option Pcb) → List (Ptr × Pcb) → Type 0
Holds pcbs [] = Unit
Holds pcbs ((x, p) ∷ xs) =
    (x ≢ null) × (pcbs x ≡ some p) × (among x (addresses xs) ≡ false) × Holds pcbs xs

abbrev pub sent : Option QueueId → Bool → Ptr → List Ptr → List Ptr
sent (some ready) true x xs = x ∷ xs
sent (some blocked) false x xs = x ∷ xs
sent _ _ x xs = xs

-- the processes that CheckBlocked sends to the ready queue (`woken` is true) or the blocked queue, in
-- their order
abbrev pub chosen : Bool → (ℕ → ℕ) → List (Ptr × Pcb) → List Ptr
chosen woken trackers [] = []
chosen woken trackers ((x, p) ∷ xs) =
    sent (check_pcb (open_for trackers p) p).0 woken x (chosen woken trackers xs)

-- the state behind one round: `q` is where the process at the head goes
abbrev pub looked : Kernel → Ptr → List Ptr → Pcb → Option QueueId → Kernel
looked k x rest p none = record k {
  queues = put_queue k.queues blocked rest;
  pcbs = put k.pcbs x (some p);
}
looked k x rest p (some q) = record k {
  queues =
      put_queue (put_queue k.queues blocked rest) q ((put_queue k.queues blocked rest) q ++ x ∷ []);
  pcbs = put k.pcbs x (some p);
  memory = record k.memory { mallocs = suc k.memory.mallocs };
}

pub check_pcb-cases :
    (b : Bool) (p : Pcb)
    → ((check_pcb b p).0 ≡ some blocked)
      ⊎ ((check_pcb b p).0 ≡ some ready)
      ⊎ ((check_pcb b p).0 ≡ none)
unfolding check_pcb
check_pcb-cases b p = ground arith

module _ (n : ℕ) (k : Kernel) (x : Ptr) (p : Pcb) (rest : List Ptr)
    (line : k.queues blocked ≡ x ∷ rest) (real : x ≢ null) (at : k.pcbs x ≡ some p) where
  pub clock_loop-none :
      (check_pcb (open_for k.tty_write_trackers p) p).0 ≡ none
      → clock_loop (suc n) k
        ≡ clock_loop n (looked k x rest (check_pcb (open_for k.tty_write_trackers p) p).1 none)
  unfolding clock_loop check_blocked load_pcb update_pcb queue_pop queue_add
  clock_loop-none to = ground arith

  pub clock_loop-some :
      (q : QueueId)
      → k.memory.malloc k.memory.mallocs ≢ null
      → (check_pcb (open_for k.tty_write_trackers p) p).0 ≡ some q
      → clock_loop (suc n) k
        ≡ clock_loop n (looked k x rest (check_pcb (open_for k.tty_write_trackers p) p).1 (some q))
  unfolding clock_loop check_blocked load_pcb update_pcb queue_pop queue_add
  clock_loop-some q room to = ground arith

-- a change at another address
Holds-put :
    (pcbs : Ptr → Option Pcb) (x : Ptr) (c : Option Pcb) (xs : List (Ptr × Pcb))
    → among x (addresses xs) ≡ false
    → Holds pcbs xs
    → Holds (put pcbs x c) xs
Holds-put pcbs x c [] out h = tt
Holds-put pcbs x c ((y, p) ∷ xs) out (real, at, apart, rest) =
    (real, ground arith, apart, Holds-put pcbs x c xs (ground arith) rest)

-- what the clock's round leaves of the queues
pub record Round (k : Kernel) (xs : List (Ptr × Pcb)) (stay wake : List Ptr) (k' : Kernel)
    : Type 0 where
  pub still_blocked : k'.queues blocked ≡ stay ++ chosen false k.tty_write_trackers xs
  pub readied : k'.queues ready ≡ wake ++ chosen true k.tty_write_trackers xs
  pub others :
      (q : QueueId)
      → eq_queue q blocked ≡ false
      → eq_queue q ready ≡ false
      → k'.queues q ≡ k.queues q

pub clock_loop-zero : (k : Kernel) → clock_loop zero k ≡ ok tt k
unfolding clock_loop
clock_loop-zero k = refl

round :
    (k : Kernel) (xs : List (Ptr × Pcb)) (stay wake : List Ptr)
    → k.queues blocked ≡ addresses xs ++ stay
    → k.queues ready ≡ wake
    → Holds k.pcbs xs
    → ((i : ℕ) → k.memory.malloc i ≢ null)
    → Ends (λ _ k'. Round k xs stay wake k') (clock_loop (length xs) k)
round k [] stay wake line run h room = rw (clock_loop-zero k) (
    ends (record {
      still_blocked = line ∙ sym (append-nil stay);
      readied = run ∙ sym (append-nil wake);
      others = λ q a b. refl;
    }))
round k ((x, p) ∷ xs) stay wake line run (real, at, apart, rest) room =
    let to_where = check_pcb (open_for k.tty_write_trackers p) p in
    let after = addresses xs ++ stay in
    let kept : Holds (put k.pcbs x (some to_where.1)) xs =
      Holds-put k.pcbs x (some to_where.1) xs apart rest in
    elim (check_pcb-cases (open_for k.tty_write_trackers p) p) [
      | inl to ↦
          rw
            (clock_loop-some (length xs) k x p after line real at blocked (room k.memory.mallocs)
              to)
            (Ends-mono
              (round (looked k x after to_where.1 (some blocked)) xs (stay ++ x ∷ []) wake
                (append_assoc (addresses xs) stay (x ∷ [])) run kept room)
              λ _ k' r. record {
                still_blocked = r.still_blocked ∙ append_assoc stay (x ∷ []) _ ∙ rw to refl;
                readied = r.readied ∙ rw to refl;
                others = λ q a b. r.others q a b ∙ ground arith;
              })
      | inr (inl to) ↦
          rw (clock_loop-some (length xs) k x p after line real at ready (room k.memory.mallocs) to)
            (Ends-mono
              (round (looked k x after to_where.1 (some ready)) xs stay (wake ++ x ∷ []) refl
                (ap (λ zs. zs ++ x ∷ []) run) kept room)
              λ _ k' r. record {
                still_blocked = r.still_blocked ∙ rw to refl;
                readied = r.readied ∙ append_assoc wake (x ∷ []) _ ∙ rw to refl;
                others = λ q a b. r.others q a b ∙ ground arith;
              })
      | inr (inr to) ↦ rw (clock_loop-none (length xs) k x p after line real at to) (
          Ends-mono (round (looked k x after to_where.1 none) xs stay wake refl run kept room)
            λ _ k' r. record {
              still_blocked = r.still_blocked ∙ rw to refl;
              readied = r.readied ∙ rw to refl;
              others = λ q a b. r.others q a b ∙ ground arith;
            })
    ]

length-addresses : (xs : List (Ptr × Pcb)) → length (addresses xs) ≡ length xs
length-addresses [] = refl
length-addresses (x ∷ xs) = ap suc (length-addresses xs)

clock_rest-loop :
    (k k' : Kernel) (n : ℕ)
    → length (k.queues blocked) ≡ n
    → clock_loop n k ≡ ok tt k'
    → ok (returns (pos 0)) k' ≡ clock_rest k
unfolding clock_rest
clock_rest-loop k k' n size run = ground arith

Ends-cases :
    {A : Type 0} {P : A → Kernel → Type 0} {r : Run A}
    → Ends P r
    → (a : A) × (k : Kernel) × (r ≡ ok a k) × P a k
Ends-cases (ends {a} {k} p) = (a, k, refl, p)

-- Behind its switch, where the blocked processes are distinct and there, and no allocation fails,
-- the clock handler returns with the processes that CheckBlocked finds ready behind those on the
-- ready queue, in the order in which they were blocked, those that it finds blocked on the blocked
-- queue in their order, and every other queue as it was.
pub clock_rest-Round :
    (k : Kernel) (xs : List (Ptr × Pcb))
    → k.queues blocked ≡ addresses xs
    → Holds k.pcbs xs
    → ((i : ℕ) → k.memory.malloc i ≢ null)
    → Ends (λ o k'. (o ≡ returns (pos 0)) × Round k xs [] (k.queues ready) k') (clock_rest k)
clock_rest-Round k xs line h room =
    let (_, k', run, r) =
      Ends-cases
        (round k xs [] (k.queues ready) (line ∙ sym (append-nil (addresses xs))) refl h room) in
    subst (Ends (λ o k'. (o ≡ returns (pos 0)) × Round k xs [] (k.queues ready) k'))
      (clock_rest-loop k k' (length xs) (ap length line ∙ length-addresses xs) run) (ends (refl, r))
