-- ===== src/Queue.antt =====
-- queue.c: the linked queues of processes. A `queue_t` is a record outside the node memory, `none`
-- stands for the `NULL` queue, and `fresh` is what `malloc` returns.
pub mod Chain
pub mod Fifo
use yalnix_implementation.Base.{
  ℕ, ◌==◌, if◌then◌else◌, ℤ, pos, negsuc, inc, dec, eq_int, Option, none, some, ◌||◌,
}
use yalnix_implementation.Memory.{Ptr, null, Heap, Run, pure, ◌>>=◌, ◌>>◌, load, store, place, free}

pub record QNode : Type 0 where
  pub id : ℤ
  pub pcb : Ptr
  pub next : Ptr

-- `struct queue`
pub record QueueT : Type 0 where
  pub id : ℤ
  pub size : ℤ
  pub head : Ptr
  pub tail : Ptr

abbrev pub Cmd : Type 0 → Type 0
Cmd A = Heap QNode → Run QNode A

abbrev pub error_code : ℤ
error_code = negsuc 0

abbrev pub qnode : ℤ → Ptr → Ptr → QNode
qnode i d n = record { id = i; pcb = d; next = n }

-- `fresh` is the address of the new `queue_t`; only whether it is `NULL` matters
unfoldable pub queue_init : Ptr → Option QueueT
queue_init fresh =
    if fresh == null
    then none
    else some (record { id = pos 0; size = pos 0; head = null; tail = null })

unfoldable pub qnode_init : Ptr → ℤ → Ptr → Cmd Ptr
qnode_init fresh id pcb =
    if (pcb == null) || (fresh == null)
    then pure null
    else do place fresh (qnode id pcb null); pure fresh

-- `qnode_delete` with no destructor
unfoldable pub qnode_delete : Ptr → Cmd (Unit {0})
qnode_delete node = if node == null then pure tt else free node

-- the branch of `queue_add` that links the node behind the tail
unfoldable pub enqueue : QueueT → Ptr → Cmd QueueT
enqueue queue node = do
  t ← load queue.tail
  store queue.tail (record t { next = node })
  t' ← load queue.tail
  pure (record queue { tail = t'.next })

unfoldable pub queue_add : Ptr → Option QueueT → Ptr → ℤ → Cmd (ℤ × Option QueueT)
unfolding qnode_init enqueue
queue_add fresh none pcb id = pure (error_code, none)
queue_add fresh (some queue) pcb id = if pcb == null then pure (error_code, some queue) else do
  node ← qnode_init fresh id pcb
  if node == null then pure (error_code, some queue) else do
    q ←
        (if queue.head == null
          then pure (record queue { head = node; tail = node })
          else enqueue queue node)
    pure (pos 0, some (record q { size = inc q.size }))

-- the process pointer at the front, `NULL` where there is none
unfoldable pub queue_pop : Option QueueT → Cmd (Ptr × Option QueueT)
unfolding qnode_delete
queue_pop none = pure (null, none)
queue_pop (some queue) = if queue.head == null then pure (null, some queue) else do
  node ← load queue.head
  qnode_delete queue.head
  pure (
    node.pcb,
    some (record queue {
      head = node.next;
      tail = if node.next == null then null else queue.tail;
      size = dec queue.size;
    }),
  )

unfoldable pub queue_peek : Option QueueT → Cmd Ptr
queue_peek none = pure null
queue_peek (some queue) =
    if eq_int queue.size (pos 0) then pure null else do node ← load queue.head; pure node.pcb

unfoldable pub queue_size : Option QueueT → ℤ
queue_size none = error_code
queue_size (some queue) = queue.size
