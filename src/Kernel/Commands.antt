-- ===== src/Kernel/Commands.antt =====
-- Commands: state and undefined behaviour, the memory accesses, and the queues as the kernel uses
-- them.
use yalnix_implementation.Base.{
  ℕ, suc, ◌==◌, if◌then◌else◌, Option, none, some, List, [], ◌∷◌, ◌++◌, ℤ, pos,
}
use yalnix_implementation.Hardware.{Ptr, null, UserContext}
use yalnix_implementation.Frames.{malloc_fails}
use yalnix_implementation.Kernel.State.{Kernel, Pcb, QueueId, Output, put, put_queue, error_code}

pub data Run (A : Type 0) : Type 0 where
  ok : A → Kernel → Run A
  fault : Run A

abbrev pub M : Type 0 → Type 0
M A = Kernel → Run A

abbrev pub pure : {A : Type 0} → A → M A
pure a k = ok a k

infixl 5 ◌>>=◌ ◌>>◌
abbrev pub ◌>>=◌ : {A B : Type 0} → M A → (A → M B) → M B
◌>>=◌ m f k = elim (m k) [ ok a k' ↦ f a k' | fault ↦ fault ]

abbrev pub ◌>>◌ : {B : Type 0} → M (Unit {0}) → M B → M B
m >> n = m >>= λ _. n

abbrev pub gets : {A : Type 0} → (Kernel → A) → M A
gets f k = ok (f k) k

abbrev pub modify : (Kernel → Kernel) → M (Unit {0})
modify f k = ok tt (f k)

abbrev pub undefined_behaviour : {A : Type 0} → M A
undefined_behaviour k = fault

-- `*p` for a `pcb_t *`
abbrev pub find_pcb : Kernel → Ptr → Option Pcb
find_pcb k p = if p == null then none else k.pcbs p

unfoldable pub load_pcb : Ptr → M Pcb
load_pcb p k = elim (find_pcb k p) [ none ↦ fault | some c ↦ ok c k ]

unfoldable pub update_pcb : Ptr → (Pcb → Pcb) → M (Unit {0})
update_pcb p f k = elim (find_pcb k p) [
  | none ↦ fault
  | some c ↦ ok tt (record k { pcbs = put k.pcbs p (some (f c)) })
]

abbrev pub set_queue : QueueId → List Ptr → Kernel → Kernel
set_queue q xs k = record k { queues = put_queue k.queues q xs }

-- one call of `malloc` for a queue's node: does it fail?
abbrev pub count_malloc : Kernel → Kernel
count_malloc k = record k { memory = record k.memory { mallocs = suc k.memory.mallocs } }

-- `queue_add`; `none` is the `NULL` queue
unfoldable pub queue_add : Option QueueId → Ptr → M ℤ
queue_add none p k = ok error_code k
queue_add (some q) p k =
    if p == null
    then ok error_code k
    else if malloc_fails k.memory
    then ok error_code (count_malloc k)
    else ok (pos 0) (set_queue q (k.queues q ++ p ∷ []) (count_malloc k))

-- `queue_pop`; the result is `NULL` where the queue is empty
unfoldable pub queue_pop : QueueId → M Ptr
queue_pop q k = elim (k.queues q) [ [] ↦ ok null k | p ∷ ps ↦ ok p (set_queue q ps k) ]

-- `queue_peek`
unfoldable pub queue_peek : QueueId → M Ptr
queue_peek q k = elim (k.queues q) [ [] ↦ ok null k | p ∷ _ ↦ ok p k ]

-- a write through a user's pointer, or to a terminal
abbrev pub emit : Output → M (Unit {0})
emit o = modify λ k. record k { outputs = o ∷ k.outputs }

-- The command ends without undefined behaviour, in a value and a state with `P`.
pub data Ends {A : Type 0} (P : A → Kernel → Type 0) : Run A → Type 0 where
  ends : {a : A} {k : Kernel} → P a k → Ends P (ok a k)

-- a weaker postcondition
pub Ends-mono :
    {A : Type 0} {P Q : A → Kernel → Type 0} {r : Run A}
    → Ends P r
    → ((a : A) (k : Kernel) → P a k → Q a k)
    → Ends Q r
Ends-mono (ends p) weaken = ends (weaken _ _ p)

-- Where a system call or trap goes on after a switch, with the locals that it still needs.
pub data Point : Type 0 where
  in_fork : Ptr → Point
  in_wait : Ptr → ℕ → Point
  in_delay : Point
  in_exit : Point
  in_acquire : ℤ → Point
  in_cvar_wait : ℤ → Point
  in_pipe_read : Ptr → Ptr → ℕ → Point
  in_pipe_write : Ptr → List ℕ → Point
  in_tty_read : ℕ → Ptr → ℕ → Point
  in_tty_write : ℕ → List ℕ → ℕ → Point
  in_clock : Point
  in_kill : Point

-- The value that a system call returns; or the process is switched away and goes on at a point when
-- it runs again; or control is at a point, with no switch.
pub data Outcome : Type 0 where
  returns : ℤ → Outcome
  sleeps : Point → Outcome
  goes : Point → Outcome

abbrev pub refuse : M Outcome
refuse = pure (returns error_code)

abbrev pub active_process : M Pcb
active_process k = load_pcb k.active_pcb k

abbrev pub update_active : (Pcb → Pcb) → M (Unit {0})
update_active f k = update_pcb k.active_pcb f k

-- the user context that the trap handler was given; `none` is `NULL`
abbrev pub trap_context : M (Option UserContext)
trap_context k = ok (k.uctxt k.active_pcb) k

-- a postcondition of the first command is a precondition of the second
pub Ends-bind :
    {A B : Type 0} {P : A → Kernel → Type 0} {Q : B → Kernel → Type 0} (m : M A) (f : A → M B)
    (k : Kernel)
    → Ends P (m k)
    → ((a : A) (k' : Kernel) → P a k' → Ends Q (f a k'))
    → Ends Q ((m >>= f) k)
Ends-bind {A} {P = P} {Q = Q} m f k r next = split (m k) r
  where
    split : (r : Run A) → Ends P r → Ends Q (elim r [ ok a k' ↦ f a k' | fault ↦ fault ])
    split r (ends {a} {k = k'} p) = next a k' p
