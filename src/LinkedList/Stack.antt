-- ===== src/LinkedList/Stack.antt =====
-- list.c as a stack, whatever the nodes' addresses are.
use yalnix_implementation.Base.{
  ℕ, suc, ◌≡◌, ◌≢◌, refl, Bool, false, ◌||◌, none, some, List, [], ◌∷◌, arith, ◌==◌, if◌then◌else◌,
  length, pos, Option, inc, dec,
}
use yalnix_implementation.Memory.{
  Ptr, null, Heap, ok, write, load, store, place, free, Returns, returns, Returns-bind,
  Returns-mono, ◌>>=◌,
}
use yalnix_implementation.LinkedList.{LNode, lnode, LList, list_add, list_pop}

-- a node's address and item
abbrev pub Nodes : Type 0
Nodes = List (Ptr × ℕ)

-- does the chain pass the address?
abbrev pub visits : Ptr → Nodes → Bool
visits a [] = false
visits p (node ∷ nodes) = (p == node.0) || visits p nodes

-- From `p` the `prev` pointers lead through the distinct nodes of `xs` to `NULL`.
abbrev pub Back : Heap LNode → Ptr → Nodes → Type 0
Back h p [] = p ≡ null
Back h p ((a, v) ∷ xs) =
    (n : LNode) × (p ≡ a)
    × (a ≢ null)
    × (visits a xs ≡ false)
    × (h a ≡ some n)
    × (n.item ≡ v)
    × Back h n.prev xs

-- The list holds `xs`, last added first.
pub record IsStack (h : Heap LNode) (l : LList) (xs : Nodes) : Type 0 where
  pub chain : Back h l.tail xs
  pub size : l.size ≡ pos (length xs)
  pub ends : (l.head == null) ≡ (l.tail == null)

-- a chain survives a write outside its nodes
Back-write :
    (h : Heap LNode) (p : Ptr) (xs : Nodes) (a : Ptr) (c : Option LNode)
    → visits a xs ≡ false
    → Back h p xs
    → Back (write h a c) p xs
Back-write h p [] a c out b = b
Back-write h p ((q, v) ∷ xs) a c out (n, e, live, apart, holds, item, rest) =
    (n, e, live, apart, ground arith, item, Back-write h n.prev xs a c (ground arith) rest)

-- an address that holds no node is not on the chain
Back-fresh :
    (h : Heap LNode) (p : Ptr) (xs : Nodes) (a : Ptr)
    → h a ≡ none
    → Back h p xs
    → visits a xs ≡ false
Back-fresh h p [] a unused b = refl
Back-fresh h p ((q, v) ∷ xs) a unused (n, e, live, apart, holds, item, rest) =
    ground (arith, Back-fresh h n.prev xs a unused rest)

module _ (h : Heap LNode) (l : LList) (fresh : Ptr) (item : ℕ) (live : fresh ≢ null) where
  list_add-empty :
      l.head ≡ null
      → list_add fresh l item h
        ≡ ok
            (inc l.size, record { head = fresh; tail = fresh; size = inc l.size })
            (write h fresh (some (lnode item null null)))
  unfolding list_add place
  list_add-empty e = ground arith

  list_add-link :
      (n : LNode)
      → l.head ≢ null
      → l.tail ≢ null
      → l.tail ≢ fresh
      → h l.tail ≡ some n
      → list_add fresh l item h
        ≡ ok
            (inc l.size, record l { tail = fresh; size = inc l.size })
            (write
              (write
                (write h fresh (some (lnode item null null)))
                fresh
                (some (lnode item null l.tail)))
              l.tail
              (some (record n { next = fresh })))
  unfolding list_add place load store
  list_add-link n head tail other e = ground arith

-- list_add with a new node, on a list that is well linked, returns the new size, and the list then
-- holds the item in front of all that it held.
pub list_add-push :
    (h : Heap LNode) (l : LList) (xs : Nodes) (fresh : Ptr) (item : ℕ)
    → fresh ≢ null
    → h fresh ≡ none
    → IsStack h l xs
    → Returns
        (λ (code, l') g. (code ≡ pos (suc (length xs))) × IsStack g l' ((fresh, item) ∷ xs))
        (list_add fresh l item h)
list_add-push h l [] fresh item live unused s =
    rw (list_add-empty h l fresh item live (ground (arith, s.chain, s.ends))) (
      returns (
        rw s.size refl,
        record {
          chain = (lnode item null null, refl, live, refl, ground arith, refl, refl);
          size = rw s.size;
          ends = refl;
        },
      ))
list_add-push h l ((q, v) ∷ xs) fresh item live unused s =
    let (n, e, there, apart, holds, item_of, rest) = s.chain in
    let outside = Back-fresh h l.tail ((q, v) ∷ xs) fresh unused s.chain in
    rw
      (list_add-link h l fresh item live n (ground (arith, s.ends)) (ground arith) (ground arith)
        (ground arith))
      (returns (
        rw s.size refl,
        record {
          chain = (
            lnode item null l.tail,
            refl,
            live,
            outside,
            ground arith,
            refl,
            (
              record n { next = fresh },
              e,
              there,
              apart,
              ground arith,
              item_of,
              Back-write _ n.prev xs l.tail _ (ground arith) (
                  Back-write _ n.prev xs fresh _ (ground arith)
                    (Back-write h n.prev xs fresh _ (ground arith) rest)),
            ),
          );
          size = rw s.size;
          ends = ground arith;
        },
      ))

-- the address of the node that the next pop removes
abbrev first : Nodes → Ptr
first [] = null
first ((a, _) ∷ _) = a

list_pop-live :
    (h : Heap LNode) (l : LList) (n : LNode)
    → l.tail ≢ null
    → h l.tail ≡ some n
    → list_pop l h
      ≡ ok
          (
            n.item,
            record {
              head = if n.prev == null then null else l.head;
              tail = n.prev;
              size = dec l.size;
            },
          )
          (write h l.tail none)
unfolding list_pop load free
list_pop-live h l n live holds = ground arith

-- list_pop on a list that holds items returns the one added last, frees its node alone, and leaves
-- the others in their order.
pub list_pop-cons :
    (h : Heap LNode) (l : LList) (a : Ptr) (v : ℕ) (xs : Nodes)
    → IsStack h l ((a, v) ∷ xs)
    → Returns (λ (item, l') g. (item ≡ v) × (g ≡ write h a none) × IsStack g l' xs) (list_pop l h)
list_pop-cons h l a v xs s =
    let (n, e, there, apart, holds, item_of, rest) = s.chain in
    rw (list_pop-live h l n (ground arith) (ground arith)) (
      returns (
        item_of,
        rw e,
        record {
          chain = Back-write h n.prev xs l.tail none (ground arith) rest;
          size = rw s.size;
          ends = ground (arith, s.ends);
        },
      ))

-- Popping from the empty list returns `NULL` and changes nothing.
pub list_pop-empty : (h : Heap LNode) (l : LList) → IsStack h l [] → list_pop l h ≡ ok (null, l) h
unfolding list_pop
list_pop-empty h l s = ground (arith, s.chain)

-- After an addition a pop gives the item back and leaves the list with the items that it had.
pub list_pop-list_add :
    (h : Heap LNode) (l : LList) (xs : Nodes) (fresh : Ptr) (item : ℕ)
    → fresh ≢ null
    → h fresh ≡ none
    → IsStack h l xs
    → Returns
        (λ (v, l') g. (v ≡ item) × IsStack g l' xs)
        ((list_add fresh l item >>= λ (code, l'). list_pop l') h)
list_pop-list_add h l xs fresh item live unused s =
    Returns-bind (list_add fresh l item) (λ r. list_pop r.1) h
      (list_add-push h l xs fresh item live unused s)
      λ r g done.
        Returns-mono (list_pop-cons g r.1 fresh item xs done.1)
          λ p g' (got, freed, left). (got, left)
