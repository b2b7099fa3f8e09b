-- ===== src/PipeList/Ids.antt =====
-- pipe.c: the ids of the kernel's pipes, as add_pipe and remove_pipe leave them.
use mathlib.Core.Path.{subst}
use yalnix_implementation.Hardware.{null}
use yalnix_implementation.Base.{
  ℕ, suc, ◌≡◌, ◌≢◌, refl, ◌∙◌, ◌==◌, if◌then◌else◌, none, some, List, [], ◌∷◌, ◌++◌, ℤ, pos, arith,
  Option-cases, inl, inr,
}
use yalnix_implementation.Kernel.{Kernel, Pipe, ok, Ends, ends, pipe_free, pipe_wait, set_to}
use yalnix_implementation.PipeList.{get_pipe, unlink, add_pipe, remove_pipe, empty_pipe}
use yalnix_implementation.PipeList.Rising.{
  Rising, next_id, Rising-append, get_pipe-append_new, get_pipe-append_other, Rising-unlink,
  get_pipe-unlink, get_pipe-fresh, get_pipe-unlink_other, unlink-found, other_id,
}

-- the pipes of the kernel: a head, and ids that rise from its id on
pub record IsPipeList (k : Kernel) : Type 0 where
  pub head : Pipe
  pub rest : List Pipe
  pub pipes : k.pipes ≡ head ∷ rest
  pub ids : Rising 0 (head ∷ rest)

-- what removing a pipe promises: the id leads to none, every other id leads where it did, and the
-- ids stay in order
pub record Removed (k : Kernel) (id code : ℤ) (k' : Kernel) : Type 0 where
  pub succeeded : code ≡ pos 0
  pub gone : get_pipe k'.pipes id ≡ none
  pub others : (i : ℤ) → id ≢ i → get_pipe k'.pipes i ≡ get_pipe k.pipes i
  pub valid : IsPipeList k'

-- what making a pipe promises: the id returned led to no pipe and leads to one that is empty and
-- free, every other id leads where it did, and the ids stay in order
pub record Made (k : Kernel) (id : ℤ) (k' : Kernel) : Type 0 where
  pub found :
      (p : Pipe) × (get_pipe k'.pipes id ≡ some p) × (p.plen ≡ 0) × (p.being_used ≡ pipe_free)
  pub unused : get_pipe k.pipes id ≡ none
  pub others : (i : ℤ) → id ≢ i → get_pipe k'.pipes i ≡ get_pipe k.pipes i
  pub valid : IsPipeList k'

-- the list after the new pipe's id is known, whatever its queue
Made-append :
    (k k' : Kernel) (head : Pipe) (rest : List Pipe) (q : Pipe)
    → k.pipes ≡ head ∷ rest
    → Rising 0 (head ∷ rest)
    → q.id ≡ next_id head rest
    → q.plen ≡ 0
    → q.being_used ≡ pipe_free
    → k'.pipes ≡ (head ∷ rest) ++ q ∷ []
    → Made k q.id k'
Made-append k k' head rest q at rises same empty free at' = record {
  found = (q, rw at' (get_pipe-append_new 0 head q rest rises same), empty, free);
  unused = rw (at, same) (get_pipe-fresh 0 head rest rises);
  others = λ i other. rw (at', at) (get_pipe-append_other q (head ∷ rest) i other);
  valid = record {
    head = head;
    rest = rest ++ q ∷ [];
    pipes = at';
    ids = Rising-append 0 head q rest rises same;
  };
}

-- the new pipe, and the state with it
abbrev made_pipe : Kernel → Pipe → List Pipe → Pipe
made_pipe k head rest =
    let a = k.memory.malloc k.memory.mallocs in
    let q = k.memory.malloc (suc k.memory.mallocs) in
    empty_pipe a (next_id head rest) (set_to (if q == null then none else some (pipe_wait a)))

abbrev with_pipe : Kernel → Pipe → List Pipe → Kernel
with_pipe k head rest = record k {
  pipes = (head ∷ rest) ++ made_pipe k head rest ∷ [];
  memory = record k.memory { mallocs = suc (suc k.memory.mallocs) };
}

add_pipe-with_pipe :
    (k : Kernel) (head : Pipe) (rest : List Pipe)
    → k.memory.malloc k.memory.mallocs ≢ null
    → k.pipes ≡ head ∷ rest
    → ok (next_id head rest) (with_pipe k head rest) ≡ add_pipe k
unfolding add_pipe
add_pipe-with_pipe k head rest room at = ground arith

-- If there is memory for the pipe, add_pipe returns an id that led to no pipe and now leads to an
-- empty and free one, every other id leads to the pipe that it did, or to none as before, and the
-- ids still rise along the list.
pub add_pipe-Made :
    (k : Kernel)
    → k.memory.malloc k.memory.mallocs ≢ null
    → IsPipeList k
    → Ends (λ id k'. Made k id k') (add_pipe k)
add_pipe-Made k room v =
    subst (Ends (λ id k'. Made k id k')) (add_pipe-with_pipe k v.head v.rest room v.pipes) (
      ends (
        Made-append k (with_pipe k v.head v.rest) v.head v.rest (made_pipe k v.head v.rest) v.pipes
          v.ids refl refl refl refl))

remove_pipe-unlink :
    (k : Kernel) (i : ℕ) (head : Pipe) (rest qs : List Pipe)
    → head.id ≢ pos i
    → k.pipes ≡ head ∷ rest
    → unlink rest (pos i) ≡ some qs
    → ok (pos 0) (record k { pipes = head ∷ qs }) ≡ remove_pipe (pos i) k
unfolding remove_pipe
remove_pipe-unlink k i head rest qs other at e = ground (arith, other_id head.id (pos i) other)

get_pipe-tail :
    (p : Pipe) (ps : List Pipe) (id : ℤ) → p.id ≢ id → get_pipe ps id ≡ get_pipe (p ∷ ps) id
unfolding get_pipe
get_pipe-tail p ps id other = ground (arith, other_id p.id id other)

get_pipe-same_head :
    (p : Pipe) (ps qs : List Pipe) (id : ℤ)
    → get_pipe ps id ≡ get_pipe qs id
    → get_pipe (p ∷ ps) id ≡ get_pipe (p ∷ qs) id
unfolding get_pipe
get_pipe-same_head p ps qs id same = rw same refl

-- the list behind the head without the pipe
removed_lem :
    (k : Kernel) (i : ℕ) (v : IsPipeList k) (qs : List Pipe)
    → v.head.id ≢ pos i
    → unlink v.rest (pos i) ≡ some qs
    → Removed k (pos i) (pos 0) (record k { pipes = v.head ∷ qs })
removed_lem k i v qs other e =
    let (n, same, lo, r) = v.ids in
    record {
      succeeded = refl;
      gone = cc (get_pipe-tail v.head qs (pos i) other, get_pipe-unlink (suc n) i v.rest qs r e);
      others = λ j apart. rw v.pipes (
          get_pipe-same_head v.head qs v.rest j
            (get_pipe-unlink_other v.rest qs (pos i) j e apart));
      valid = record {
        head = v.head;
        rest = qs;
        pipes = refl;
        ids = (n, same, lo, Rising-unlink (suc n) v.rest qs (pos i) e r);
      };
    }

-- remove_pipe with the id of a pipe that can be found and is not the head returns 0, the pipe is
-- not found any more, every other id leads to the pipe that it did, or to none as before, and the
-- ids still rise along the list.
pub remove_pipe-Removed :
    (k : Kernel) (i : ℕ) (p : Pipe) (v : IsPipeList k)
    → v.head.id ≢ pos i
    → get_pipe k.pipes (pos i) ≡ some p
    → Ends (Removed k (pos i)) (remove_pipe (pos i) k)
remove_pipe-Removed k i p v other found = elim (Option-cases (unlink v.rest (pos i))) [
  | inl e ↦ absurd (
      unlink-found v.rest (pos i) p
        (get_pipe-tail v.head v.rest (pos i) other ∙ cc (v.pipes, found)) e)
  | inr (qs, e) ↦
      subst (Ends (Removed k (pos i))) (remove_pipe-unlink k i v.head v.rest qs other v.pipes e)
        (ends (removed_lem k i v qs other e))
]
