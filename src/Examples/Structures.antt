-- ===== src/Examples/Structures.antt =====
-- Queues, lists and pipes.
use yalnix_implementation.Base.{◌≡◌, refl, arith, none, some, [], ◌∷◌, pos, if◌then◌else◌, ◌==◌}
use yalnix_implementation.Memory.{Heap, null, write, Returns}
use yalnix_implementation.Queue
use yalnix_implementation.Queue.{QNode, QueueT, qnode}
use yalnix_implementation.Queue.Fifo.{IsFifo, Added, Popped, queue_add-append, queue_pop-cons}
use yalnix_implementation.LinkedList
use yalnix_implementation.LinkedList.{LNode, LList, lnode}
use yalnix_implementation.LinkedList.Stack.{IsStack, list_add-push, list_pop-cons}
use yalnix_implementation.Kernel.{Ends}
use yalnix_implementation.PipeList.{add_pipe, remove_pipe, get_pipe}
use yalnix_implementation.PipeList.Ids.{
  IsPipeList, Made, Removed, add_pipe-Made, remove_pipe-Removed,
}
use yalnix_implementation.Examples.Data.{machine, pipe}

-- a queue of the processes 30 and 40, with nodes at 1 and 2
abbrev nodes : Heap QNode
nodes a =
    if a == 1
    then some (qnode (pos 0) 30 2)
    else if a == 2
    then some (qnode (pos 0) 40 null)
    else none

abbrev two : QueueT
two = record { id = pos 0; size = pos 2; head = 1; tail = 2 }

two-IsFifo : IsFifo nodes two ((1, 30) ∷ (2, 40) ∷ [])
two-IsFifo = record {
  chain = (
    qnode (pos 0) 30 2,
    refl,
    ground arith,
    refl,
    refl,
    refl,
    (qnode (pos 0) 40 null, refl, ground arith, refl, refl, refl, refl),
  );
  size = refl;
  ends = refl;
}

queue_add-append_example :
    Returns (Added ((1, 30) ∷ (2, 40) ∷ []) 3 20) (Queue.queue_add 3 (some two) 20 (pos 0) nodes)
queue_add-append_example =
    queue_add-append nodes two ((1, 30) ∷ (2, 40) ∷ []) 3 20 (pos 0) (ground arith) (ground arith)
      refl two-IsFifo

queue_pop-cons_example :
    Returns
      (λ r g. Popped 30 ((2, 40) ∷ []) r g × (g ≡ write nodes 1 none))
      (Queue.queue_pop (some two) nodes)
queue_pop-cons_example = queue_pop-cons nodes two 1 30 ((2, 40) ∷ []) two-IsFifo

-- a list of the items 6 and 5, last added first
abbrev lnodes : Heap LNode
lnodes a = if a == 1 then some (lnode 5 2 null) else if a == 2 then some (lnode 6 null 1) else none

abbrev pair : LList
pair = record { head = 1; tail = 2; size = pos 2 }

pair-IsStack : IsStack lnodes pair ((2, 6) ∷ (1, 5) ∷ [])
pair-IsStack = record {
  chain = (
    lnode 6 null 1,
    refl,
    ground arith,
    refl,
    refl,
    refl,
    (lnode 5 2 null, refl, ground arith, refl, refl, refl, refl),
  );
  size = refl;
  ends = refl;
}

list_add-push_example :
    Returns
      (λ (code, l') g. (code ≡ pos 3) × IsStack g l' ((3, 7) ∷ (2, 6) ∷ (1, 5) ∷ []))
      (LinkedList.list_add 3 pair 7 lnodes)
list_add-push_example =
    list_add-push lnodes pair ((2, 6) ∷ (1, 5) ∷ []) 3 7 (ground arith) refl pair-IsStack

list_pop-cons_example :
    Returns
      (λ (item, l') g. (item ≡ 6) × (g ≡ write lnodes 2 none) × IsStack g l' ((1, 5) ∷ []))
      (LinkedList.list_pop pair lnodes)
list_pop-cons_example = list_pop-cons lnodes pair 2 6 ((1, 5) ∷ []) pair-IsStack

abbrev machine-IsPipeList : IsPipeList machine
machine-IsPipeList = record {
  head = pipe (pos 5101) [] 0;
  rest = pipe (pos 5102) [] 0 ∷ [];
  pipes = refl;
  ids = (5101, refl, omega arith, (5102, refl, omega arith, tt));
}

add_pipe-Made_example : Ends (λ id k'. Made machine id k') (add_pipe machine)
add_pipe-Made_example = add_pipe-Made machine (ground arith) machine-IsPipeList

remove_pipe-Removed_example : Ends (Removed machine (pos 5102)) (remove_pipe (pos 5102) machine)
unfolding get_pipe
remove_pipe-Removed_example =
    remove_pipe-Removed machine 5102 (pipe (pos 5102) [] 0) machine-IsPipeList (ground arith) refl
