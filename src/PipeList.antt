-- ===== src/PipeList.antt =====
-- pipe.c: the linked list of pipes behind the head pipe.
pub mod Ids
pub mod Rising
use yalnix_implementation.Base.{
  ◌+◌, ◌==◌, if◌then◌else◌, Option, none, some, List, [], ◌∷◌, ◌++◌, ℤ, pos, inc, eq_int, replicate,
}
use yalnix_implementation.Hardware.{Ptr, null, max_locks, max_cvars, pipe_buffer_len}
use yalnix_implementation.Kernel.{
  Pipe, PipeQueue, unset, set_to, pipe_wait, M, pure, ◌>>=◌, ◌>>◌, gets, modify,
  undefined_behaviour, error_code, pipe_free, count_malloc,
}

abbrev pub empty_pipe : Ptr → ℤ → PipeQueue → Pipe
empty_pipe a i q = record {
  addr = a;
  id = i;
  buf = replicate pipe_buffer_len 0;
  plen = 0;
  being_used = pipe_free;
  queue = q;
}

-- The head pipe; its `queue` is not initialised. `none` is `NULL`.
unfoldable pub init_head_pipe : M (Option Pipe)
init_head_pipe = do
  a ← gets λ k. k.memory.malloc k.memory.mallocs
  modify count_malloc
  pure (if a == null then none else some (empty_pipe a (pos (max_locks + max_cvars + 1)) unset))

-- the id of the last pipe behind `p`
abbrev pub last_id : Pipe → List Pipe → ℤ
last_id p [] = p.id
last_id p (q ∷ ps) = last_id q ps

-- The new pipe goes to the end, with the id after the last one's. `error_code` where there is no
-- memory or no head pipe.
unfoldable pub add_pipe : M ℤ
add_pipe = do
  a ← gets λ k. k.memory.malloc k.memory.mallocs
  modify count_malloc
  pipes ← gets λ k. k.pipes
  if a == null then pure error_code else elim pipes [
    | [] ↦ pure error_code
    | head ∷ rest ↦ do
      q ← gets λ k. k.memory.malloc k.memory.mallocs
      modify count_malloc
      let id = inc (last_id head rest)
      let queue = if q == null then none else some (pipe_wait a)
      modify λ k. record k { pipes = head ∷ rest ++ empty_pipe a id (set_to queue) ∷ [] }
      pure id
  ]

-- the first pipe with the id
unfoldable pub get_pipe : List Pipe → ℤ → Option Pipe
get_pipe [] id = none
get_pipe (p ∷ ps) id = if eq_int p.id id then some p else get_pipe ps id

-- the pipes without the first one that has the id; `none` if no pipe has it
unfoldable pub unlink : List Pipe → ℤ → Option (List Pipe)
unlink [] id = none
unlink (p ∷ ps) id =
    if eq_int p.id id
    then some ps
    else elim (unlink ps id) [ none ↦ none | some qs ↦ some (p ∷ qs) ]

-- Removing the head pipe writes through a pointer that was never set.
unfoldable pub remove_pipe : ℤ → M ℤ
unfolding unlink
remove_pipe id = do
  pipes ← gets λ k. k.pipes
  elim pipes [
    | [] ↦ undefined_behaviour
    | head ∷ rest ↦ if eq_int head.id id then undefined_behaviour else elim (unlink rest id) [
      | none ↦ pure error_code
      | some rest' ↦ do modify λ k. record k { pipes = head ∷ rest' }; pure (pos 0)
    ]
  ]
