-- ===== src/LinkedList.antt =====
-- list.c: the doubly linked list behind the free lists of frames, locks and condition variables.
-- A `list_t` is a record outside the node memory; `fresh` is what `malloc` returns.
pub mod Stack
use yalnix_implementation.Base.{ℕ, ◌==◌, if◌then◌else◌, ℤ, pos, negsuc, inc, dec}
use yalnix_implementation.Memory.{Ptr, null, Heap, Run, pure, ◌>>=◌, ◌>>◌, load, store, place, free}

pub record LNode : Type 0 where
  pub item : ℕ
  pub next : Ptr
  pub prev : Ptr

pub record LList : Type 0 where
  pub head : Ptr
  pub tail : Ptr
  pub size : ℤ

abbrev pub Cmd : Type 0 → Type 0
Cmd A = Heap LNode → Run LNode A

abbrev pub lnode : ℕ → Ptr → Ptr → LNode
lnode v n p = record { item = v; next = n; prev = p }

-- `list_init`; the C function has no return statement, its callers take the new list
unfoldable pub list_init : LList
list_init = record { head = null; tail = null; size = pos 0 }

-- `lnode_init`: the new node's address, `NULL` where `malloc` fails
unfoldable pub lnode_init : Ptr → ℕ → Cmd Ptr
lnode_init fresh item =
    if fresh == null then pure null else do place fresh (lnode item null null); pure fresh

-- `lnode_delete` with no destructor
unfoldable pub lnode_delete : Ptr → Cmd (Unit {0})
lnode_delete node = if node == null then pure tt else free node

abbrev pub error_code : ℤ
error_code = negsuc 0

-- the branch of `list_add` that links a node behind the tail
unfoldable pub link_tail : LList → Ptr → Cmd LList
link_tail list node = do
  n ← load node
  store node (record n { prev = list.tail })
  t ← load list.tail
  store list.tail (record t { next = node })
  t' ← load list.tail
  pure (record list { tail = t'.next })

unfoldable pub list_add : Ptr → LList → ℕ → Cmd (ℤ × LList)
unfolding lnode_init link_tail
list_add fresh list item = do
  node ← lnode_init fresh item
  if node == null then pure (error_code, list) else do
    list' ←
        (if list.head == null
          then pure (record list { head = node; tail = node })
          else link_tail list node)
    pure (inc list'.size, record list' { size = inc list'.size })

-- the item of the last node; `NULL` if there is none, which is also what item 0 reads as
unfoldable pub list_pop : LList → Cmd (ℕ × LList)
unfolding lnode_delete
list_pop list = if list.tail == null then pure (null, list) else do
  node ← load list.tail
  lnode_delete list.tail
  pure (
    node.item,
    record list {
      head = if node.prev == null then null else list.head;
      tail = node.prev;
      size = dec list.size;
    },
  )
