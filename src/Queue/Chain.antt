-- ===== src/Queue/Chain.antt =====
-- The chain of nodes that queue.c's `next` pointers lead through.
use yalnix_implementation.Base.{
  ◌≡◌, ◌≢◌, refl, ap, Bool, true, false, ◌||◌, none, some, List, [], ◌∷◌, ◌++◌, arith, ◌==◌, ℤ,
  Option,
}
use yalnix_implementation.Memory.{Ptr, null, Heap, write}
use yalnix_implementation.Queue.{QNode, qnode}

-- a node's address and its process pointer
abbrev pub Nodes : Type 0
Nodes = List (Ptr × Ptr)

-- does the chain pass the address?
abbrev pub visits : Ptr → Nodes → Bool
visits a [] = false
visits p (node ∷ nodes) = (p == node.0) || visits p nodes

-- the address of the last node
abbrev pub last : Nodes → Ptr
last [] = null
last ((a, _) ∷ []) = a
last (_ ∷ c ∷ xs) = last (c ∷ xs)

-- From `p` the `next` pointers lead through the distinct nodes of `xs` to `NULL`.
abbrev pub Chain : Heap QNode → Ptr → Nodes → Type 0
Chain h p [] = p ≡ null
Chain h p ((a, d) ∷ xs) =
    (n : QNode) × (p ≡ a)
    × (a ≢ null)
    × (visits a xs ≡ false)
    × (h a ≡ some n)
    × (n.pcb ≡ d)
    × Chain h n.next xs

pub write-other :
    (h : Heap QNode) (a b : Ptr) (c : Option QNode) (n : QNode)
    → a ≢ b
    → h a ≡ some n
    → write h b c a ≡ some n
write-other h a b c n apart holds = ground arith

pub Chain-write :
    (h : Heap QNode) (p : Ptr) (xs : Nodes) (a : Ptr) (c : Option QNode)
    → visits a xs ≡ false
    → Chain h p xs
    → Chain (write h a c) p xs
Chain-write h p [] a c out b = b
Chain-write h p ((q, v) ∷ xs) a c out (n, e, live, apart, holds, item, rest) =
    (n, e, live, apart, ground arith, item, Chain-write h n.next xs a c (ground arith) rest)

pub Chain-fresh :
    (h : Heap QNode) (p : Ptr) (xs : Nodes) (a : Ptr)
    → h a ≡ none
    → Chain h p xs
    → visits a xs ≡ false
Chain-fresh h p [] a unused b = refl
Chain-fresh h p ((q, v) ∷ xs) a unused (n, e, live, apart, holds, item, rest) =
    ground (arith, Chain-fresh h n.next xs a unused rest)

-- the cell at the end of a chain is live
pub last-live :
    (h : Heap QNode) (p : Ptr) (c : Ptr × Ptr) (xs : Nodes)
    → Chain h p (c ∷ xs)
    → (n : QNode) × (last (c ∷ xs) ≢ null) × (h (last (c ∷ xs)) ≡ some n)
last-live h p (a, d) [] (n, e, live, apart, holds, item, rest) = (n, live, holds)
last-live h p (a, d) (c ∷ xs) (n, e, live, apart, holds, item, rest) = last-live h n.next c xs rest

visits-append-last :
    (a b d : Ptr) (xs : Nodes) → visits a (xs ++ (b, d) ∷ []) ≡ (visits a xs || (a == b))
visits-append-last a b d [] = ground arith
visits-append-last a b d ((q, v) ∷ xs) = ground (arith, visits-append-last a b d xs)

pub last-append : (a d : Ptr) (xs : Nodes) → last (xs ++ (a, d) ∷ []) ≡ a
last-append a d [] = refl
last-append a d (c ∷ []) = refl
last-append a d (c ∷ c' ∷ xs) = last-append a d (c' ∷ xs)

visits-last : (c : Ptr × Ptr) (xs : Nodes) → visits (last (c ∷ xs)) (c ∷ xs) ≡ true
visits-last (a, d) [] = ground arith
visits-last (a, d) (c ∷ xs) = ground (arith, visits-last c xs)

pub ne-last : (a : Ptr) (c : Ptr × Ptr) (xs : Nodes) → visits a (c ∷ xs) ≡ false → a ≢ last (c ∷ xs)
ne-last a c xs out e = cc (out, ap (λ b. visits b (c ∷ xs)) e, visits-last c xs)

-- linking a new node behind the last one extends the chain
pub Chain-append :
    (h : Heap QNode) (p : Ptr) (c : Ptr × Ptr) (xs : Nodes) (fresh d : Ptr) (i : ℤ) (n : QNode)
    → fresh ≢ null
    → h fresh ≡ some (qnode i d null)
    → visits fresh (c ∷ xs) ≡ false
    → h (last (c ∷ xs)) ≡ some n
    → Chain h p (c ∷ xs)
    → Chain
        (write h (last (c ∷ xs)) (some (record n { next = fresh })))
        p
        ((c ∷ xs) ++ (fresh, d) ∷ [])
Chain-append h p (a, v) [] fresh d i n live new out at (m, e, there, apart, holds, item, rest) = (
  record n { next = fresh },
  e,
  there,
  ground arith,
  ground arith,
  ground arith,
  (qnode i d null, refl, live, refl, ground arith, refl, refl),
)
Chain-append h p (a, v) (c ∷ xs) fresh d i n live new out at
      (m, e, there, apart, holds, item, rest) =
    (
      m,
      e,
      there,
      ground (arith, visits-append-last a fresh d (c ∷ xs)),
      write-other h a _ _ m (ne-last a c xs apart) holds,
      item,
      Chain-append h m.next c xs fresh d i n live new (ground arith) at rest,
    )
