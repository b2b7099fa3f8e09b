-- ===== src/Queue/Fifo.antt =====
-- queue.c as a first-in first-out queue of process pointers.
use mathlib.Core.Path.{subst}
use yalnix_implementation.Base.{
  ◌≡◌, ◌≢◌, refl, sym, ◌∙◌, ap, none, some, ◌⊎◌, [], ◌∷◌, ◌++◌, arith, ◌==◌, if◌then◌else◌, length,
  length-append, ℤ, pos, inc, dec, Option,
}
use yalnix_implementation.Memory.{
  Ptr, null, Heap, ok, write, load, store, place, free, Returns, returns,
}
use yalnix_implementation.Queue.{QNode, qnode, QueueT, error_code, queue_add, queue_pop, queue_peek}
use yalnix_implementation.Queue.Chain.{
  Nodes, last, Chain, write-other, Chain-write, Chain-fresh, last-live, last-append, ne-last,
  Chain-append,
}

-- The queue holds `xs`, oldest first.
pub record IsFifo (h : Heap QNode) (q : QueueT) (xs : Nodes) : Type 0 where
  pub chain : Chain h q.head xs
  pub size : q.size ≡ pos (length xs)
  pub ends : q.tail ≡ last xs

module _ (h : Heap QNode) (q : QueueT) (fresh d : Ptr) (i : ℤ) (live : fresh ≢ null)
    (real : d ≢ null) where
  queue_add-empty :
      q.head ≡ null
      → queue_add fresh (some q) d i h
        ≡ ok
            (pos 0, some (record q { head = fresh; tail = fresh; size = inc q.size }))
            (write h fresh (some (qnode i d null)))
  unfolding queue_add place
  queue_add-empty e = ground arith

  queue_add-link :
      (n : QNode)
      → q.head ≢ null
      → q.tail ≢ null
      → q.tail ≢ fresh
      → h q.tail ≡ some n
      → queue_add fresh (some q) d i h
        ≡ ok
            (pos 0, some (record q { tail = fresh; size = inc q.size }))
            (write
              (write h fresh (some (qnode i d null)))
              q.tail
              (some (record n { next = fresh })))
  unfolding queue_add place load store
  queue_add-link n head tail other e = ground arith

-- what `queue_add` leaves: success, and the process behind the others
abbrev pub Added : Nodes → Ptr → Ptr → ℤ × Option QueueT → Heap QNode → Type 0
Added xs fresh d (code, none) g = ⊥
Added xs fresh d (code, some q) g = (code ≡ pos 0) × IsFifo g q (xs ++ (fresh, d) ∷ [])

-- queue_add with a new node and a process, on a queue that is well linked, succeeds without
-- undefined behaviour, and the queue then holds the process behind all that it held.
pub queue_add-append :
    (h : Heap QNode) (q : QueueT) (xs : Nodes) (fresh d : Ptr) (i : ℤ)
    → fresh ≢ null
    → d ≢ null
    → h fresh ≡ none
    → IsFifo h q xs
    → Returns (Added xs fresh d) (queue_add fresh (some q) d i h)
queue_add-append h q [] fresh d i live real unused s =
    rw (queue_add-empty h q fresh d i live real s.chain) (
      returns (
        refl,
        record {
          chain = (qnode i d null, refl, live, refl, ground arith, refl, refl);
          size = rw s.size;
          ends = refl;
        },
      ))
queue_add-append h q ((a, v) ∷ xs) fresh d i live real unused s =
    let (m, e, there, apart, holds, item, rest) = s.chain in
    let (n, tail_live, at) = last-live h q.head (a, v) xs s.chain in
    let outside = Chain-fresh h q.head ((a, v) ∷ xs) fresh unused s.chain in
    let apart_of = ne-last fresh (a, v) xs outside in
    rw
      (queue_add-link h q fresh d i live real n (ground arith) (ground (arith, s.ends))
        (λ e'. apart_of (sym e' ∙ s.ends)) (rw s.ends at))
      (returns (
        refl,
        record {
          chain =
              subst
                (λ t.
                  Chain
                    (write (write h fresh (some (qnode i d null))) t
                      (some (record n { next = fresh })))
                    q.head (((a, v) ∷ xs) ++ (fresh, d) ∷ []))
                (sym s.ends)
                (Chain-append _ q.head (a, v) xs fresh d i n live (ground arith) outside
                  (write-other h _ fresh _ n (λ e'. apart_of (sym e')) at)
                  (Chain-write h q.head ((a, v) ∷ xs) fresh _ outside s.chain));
          size = rw (s.size, length-append xs ((fresh, d) ∷ [])) (ap pos (omega arith));
          ends = sym (last-append fresh d ((a, v) ∷ xs));
        },
      ))

-- A `NULL` queue, a `NULL` process and a failing `malloc` are errors that change nothing.
pub queue_add-error_code :
    (h : Heap QNode) (q : Option QueueT) (fresh d : Ptr) (i : ℤ)
    → (q ≡ none) ⊎ (d ≡ null) ⊎ (fresh ≡ null)
    → queue_add fresh q d i h ≡ ok (error_code, q) h
unfolding queue_add
queue_add-error_code h none fresh d i bad = refl
queue_add-error_code h (some q) fresh d i bad = ground arith

queue_pop-live :
    (h : Heap QNode) (q : QueueT) (n : QNode)
    → q.head ≢ null
    → h q.head ≡ some n
    → queue_pop (some q) h
      ≡ ok
          (
            n.pcb,
            some (record q {
              head = n.next;
              tail = if n.next == null then null else q.tail;
              size = dec q.size;
            }),
          )
          (write h q.head none)
unfolding queue_pop load free
queue_pop-live h q n live holds = ground arith

-- what `queue_pop` leaves: the oldest process is returned, and the others stay in order
abbrev pub Popped : Ptr → Nodes → Ptr × Option QueueT → Heap QNode → Type 0
Popped d xs (p, none) g = ⊥
Popped d xs (p, some q) g = (p ≡ d) × IsFifo g q xs

pop-ends :
    (h : Heap QNode) (p a : Ptr) (v : Ptr) (xs : Nodes)
    → Chain h p xs
    → (if p == null then null else last ((a, v) ∷ xs)) ≡ last xs
pop-ends h p a v [] c = ground arith
pop-ends h p a v (x ∷ xs) c = ground arith

-- queue_pop on a queue that holds processes returns the oldest, frees its node alone, and leaves
-- the others in their order.
pub queue_pop-cons :
    (h : Heap QNode) (q : QueueT) (a d : Ptr) (xs : Nodes)
    → IsFifo h q ((a, d) ∷ xs)
    → Returns (λ r g. Popped d xs r g × (g ≡ write h a none)) (queue_pop (some q) h)
queue_pop-cons h q a d xs s =
    let (n, e, there, apart, holds, item, rest) = s.chain in
    rw (queue_pop-live h q n (ground arith) (ground arith)) (
      returns (
        (
          item,
          record {
            chain = Chain-write h n.next xs q.head none (ground arith) rest;
            size = rw s.size;
            ends = rw s.ends (pop-ends h n.next a d xs rest);
          },
        ),
        rw e,
      ))

-- Popping from an empty queue, and from none, returns `NULL` and changes nothing.
pub queue_pop-empty :
    (h : Heap QNode) (q : QueueT) → IsFifo h q [] → queue_pop (some q) h ≡ ok (null, some q) h
unfolding queue_pop
queue_pop-empty h q s = ground (arith, s.chain)

-- Peeking returns the oldest process and changes nothing.
pub queue_peek-cons :
    (h : Heap QNode) (q : QueueT) (a d : Ptr) (xs : Nodes)
    → IsFifo h q ((a, d) ∷ xs)
    → queue_peek (some q) h ≡ ok d h
unfolding queue_peek load
queue_peek-cons h q a d xs s =
    let (n, e, there, apart, holds, item, rest) = s.chain in rw s.size (ground arith)
