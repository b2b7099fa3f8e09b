-- ===== src/Memory.antt =====
-- The C memory that list.c and queue.c work on: nodes at addresses, and commands that read, write
-- and free them. `malloc` is not code of the kernel: the address that it returns is an argument.
use yalnix_implementation.Base.{ℕ, ◌≡◌, ◌≢◌, Option, none, some, ◌==◌, if◌then◌else◌, ==-ne}

abbrev pub Ptr : Type 0
Ptr = ℕ

abbrev pub null : Ptr
null = 0

module _ (N : Type 0) where
  abbrev pub Heap : Type 0
  Heap = Ptr → Option N

module _ {N : Type 0} where
  abbrev pub write : Heap N → Ptr → Option N → Heap N
  write h p c a = if a == p then c else h a

-- The outcome of a command: a value and the memory, or undefined behaviour.
pub data Run (N A : Type 0) : Type 0 where
  ok : A → Heap N → Run N A
  fault : Run N A

module _ {N : Type 0} where
  abbrev pub pure : {A : Type 0} → A → Heap N → Run N A
  pure a h = ok a h

  infixl 5 ◌>>=◌ ◌>>◌
  abbrev pub ◌>>=◌ : {A B : Type 0} → (Heap N → Run N A) → (A → Heap N → Run N B) → Heap N → Run N B
  ◌>>=◌ m f h = elim (m h) [ ok a h' ↦ f a h' | fault ↦ fault ]

  abbrev pub ◌>>◌ :
      {B : Type 0} → (Heap N → Run N (Unit {0})) → (Heap N → Run N B) → Heap N → Run N B
  m >> k = m >>= λ _. k

  -- `*p`: undefined at `NULL` and at an address that holds no node
  unfoldable pub load : Ptr → Heap N → Run N N
  load p h = if p == null then fault else elim (h p) [ none ↦ fault | some n ↦ ok n h ]

  -- `*p = n`
  unfoldable pub store : Ptr → N → Heap N → Run N (Unit {0})
  store p n h =
      if p == null then fault else elim (h p) [ none ↦ fault | some _ ↦ ok tt (write h p (some n)) ]

  -- the node that `malloc` placed at `p` and the caller filled in
  unfoldable pub place : Ptr → N → Heap N → Run N (Unit {0})
  place p n h = ok tt (write h p (some n))

  unfoldable pub free : Ptr → Heap N → Run N (Unit {0})
  free p h =
      if p == null then ok tt h else elim (h p) [ none ↦ fault | some _ ↦ ok tt (write h p none) ]

  module _ (h : Heap N) {p : Ptr} {n : N} (live : p ≢ null) (holds : h p ≡ some n) where
    pub load-live : load p h ≡ ok n h
    unfolding load
    load-live = rw (==-ne p null live, holds)

    pub store-live : (m : N) → store p m h ≡ ok tt (write h p (some m))
    unfolding store
    store-live m = rw (==-ne p null live, holds)

    pub free-live : free p h ≡ ok tt (write h p none)
    unfolding free
    free-live = rw (==-ne p null live, holds)

-- The command ends without undefined behaviour, in a value and a memory with `P`.
pub data Returns {N A : Type 0} (P : A → Heap N → Type 0) : Run N A → Type 0 where
  returns : {a : A} {h : Heap N} → P a h → Returns P (ok a h)

module _ {N A B : Type 0} {P : A → Heap N → Type 0} {Q : B → Heap N → Type 0} where
  -- a postcondition of the first command is a precondition of the second
  pub Returns-bind :
      (m : Heap N → Run N A) (k : A → Heap N → Run N B) (h : Heap N)
      → Returns P (m h)
      → ((a : A) (g : Heap N) → P a g → Returns Q (k a g))
      → Returns Q ((m >>= k) h)
  Returns-bind m k h r next = split (m h) r
    where
      split : (r : Run N A) → Returns P r → Returns Q (elim r [ ok a h' ↦ k a h' | fault ↦ fault ])
      split r (returns {a} {h = g} p) = next a g p

module _ {N A : Type 0} {P Q : A → Heap N → Type 0} where
  pub Returns-mono :
      {r : Run N A} → Returns P r → ((a : A) (g : Heap N) → P a g → Q a g) → Returns Q r
  Returns-mono (returns p) weaken = returns (weaken _ _ p)
