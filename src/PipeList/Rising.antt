-- ===== src/PipeList/Rising.antt =====
-- pipe.c: the ids that rise along the linked list of pipes.
use mathlib.Core.Path.{subst}
use yalnix_implementation.Base.{
  ℕ, suc, ◌≤◌, ◌<◌, ◌≡◌, ◌≢◌, refl, sym, ap, ◌∙◌, none, some, false, List, [], ◌∷◌, ◌++◌, ℤ, pos,
  inc, arith, eq_int, eq_int→eq, Bool-cases, Option-cases, ◌⊎◌, inl, inr,
}
use yalnix_implementation.Kernel.{Pipe}
use yalnix_implementation.PipeList.{last_id, get_pipe, unlink}

-- the ids rise along the list, from `n` on
abbrev pub Rising : ℕ → List Pipe → Type 0
Rising n [] = Unit
Rising n (p ∷ ps) = (i : ℕ) × (p.id ≡ pos i) × (n ≤ i) × Rising (suc i) ps

-- the id that the next pipe gets
abbrev pub next_id : Pipe → List Pipe → ℤ
next_id p ps = inc (last_id p ps)

-- the next id lies above all ids, and the list with the new pipe rises again
pub Rising-append :
    (n : ℕ) (p q : Pipe) (ps : List Pipe)
    → Rising n (p ∷ ps)
    → q.id ≡ next_id p ps
    → Rising n ((p ∷ ps) ++ q ∷ [])
Rising-append n p q [] (i, e, lo, r) same = (i, e, lo, (suc i, same ∙ ap inc e, omega arith, tt))
Rising-append n p q (p' ∷ ps) (i, e, lo, r) same = (i, e, lo, Rising-append (suc i) p' q ps r same)

-- an id below the bound is not in the list
get_pipe-none : (n i : ℕ) (ps : List Pipe) → Rising n ps → i < n → get_pipe ps (pos i) ≡ none
unfolding get_pipe
get_pipe-none n i [] r h = refl
get_pipe-none n i (p ∷ ps) (j, e, lo, r) h = rw e (ground (arith, get_pipe-none (suc j) i ps r))

-- the last id is a number, at least `n`
last_id-pos :
    (n : ℕ) (p : Pipe) (ps : List Pipe)
    → Rising n (p ∷ ps)
    → (i : ℕ) × (last_id p ps ≡ pos i) × (n ≤ i)
last_id-pos n p [] (i, e, lo, r) = (i, e, lo)
last_id-pos n p (q ∷ ps) (i, e, lo, r) =
    let (j, f, hi) = last_id-pos (suc i) q ps r in (j, f, omega arith)

pub get_pipe-append_new :
    (n : ℕ) (p q : Pipe) (ps : List Pipe)
    → Rising n (p ∷ ps)
    → q.id ≡ next_id p ps
    → get_pipe ((p ∷ ps) ++ q ∷ []) q.id ≡ some q
unfolding get_pipe
get_pipe-append_new n p q [] (i, e, lo, r) same = rw (same, e) (ground arith)
get_pipe-append_new n p q (p' ∷ ps) (i, e, lo, r) same =
    let (j, f, hi) = last_id-pos (suc i) p' ps r in
    ground (arith, get_pipe-append_new (suc i) p' q ps r same)

Rising-mono : (m n : ℕ) (ps : List Pipe) → m ≤ n → Rising n ps → Rising m ps
Rising-mono m n [] h r = tt
Rising-mono m n (p ∷ ps) h (i, e, lo, r) = (i, e, omega arith, r)

-- The two ways in which a pipe is unlinked: it is the first one, or it is behind that.
unlink_cases :
    (p : Pipe) (ps qs : List Pipe) (id : ℤ)
    → unlink (p ∷ ps) id ≡ some qs
    → ((p.id ≡ id) × (ps ≡ qs))
      ⊎ ((eq_int p.id id ≡ false) × (rs : List Pipe) × (unlink ps id ≡ some rs) × (p ∷ rs ≡ qs))
unfolding unlink
unlink_cases p ps qs id e = elim (Bool-cases (eq_int p.id id)) [
  | inl hit ↦ inl (eq_int→eq p.id id hit, ground arith)
  | inr miss ↦ elim (Option-cases (unlink ps id)) [
    | inl f ↦ ground arith
    | inr (rs, f) ↦ inr (miss, rs, f, ground arith)
  ]
]

-- Removing a pipe leaves the ids of the others in their order.
pub Rising-unlink :
    (n : ℕ) (ps qs : List Pipe) (id : ℤ) → unlink ps id ≡ some qs → Rising n ps → Rising n qs
unfolding unlink
Rising-unlink n [] qs id e r = cc
Rising-unlink n (p ∷ ps) qs id e (i, at, lo, r) = elim (unlink_cases p ps qs id e) [
  | inl (hit, same) ↦ subst (Rising n) same (Rising-mono n (suc i) ps (omega arith) r)
  | inr (miss, rs, f, same) ↦ subst (Rising n) same (i, at, lo, Rising-unlink (suc i) ps rs id f r)
]

-- A pipe that was removed is not found again.
pub get_pipe-unlink :
    (n i : ℕ) (ps qs : List Pipe)
    → Rising n ps
    → unlink ps (pos i) ≡ some qs
    → get_pipe qs (pos i) ≡ none
unfolding unlink get_pipe
get_pipe-unlink n i [] qs r e = cc
get_pipe-unlink n i (p ∷ ps) qs (j, at, lo, r) e = elim (unlink_cases p ps qs (pos i) e) [
  | inl (hit, same) ↦
      subst (λ xs. get_pipe xs (pos i) ≡ none) same (get_pipe-none (suc j) i ps r (ground arith))
  | inr (miss, rs, f, same) ↦
      subst (λ xs. get_pipe xs (pos i) ≡ none) same
        (ground (arith, get_pipe-unlink (suc j) i ps rs r f))
]

-- a pipe that can be found can be unlinked
pub unlink-found :
    (ps : List Pipe) (id : ℤ) (p : Pipe) → get_pipe ps id ≡ some p → unlink ps id ≢ none
unfolding get_pipe unlink
unlink-found [] id p h = cc
unlink-found (x ∷ ps) id p h = ground (arith, unlink-found ps id p)

pub other_id : (a b : ℤ) → a ≢ b → eq_int a b ≡ false
other_id a b h = elim (Bool-cases (eq_int a b)) [
  | inl e ↦ ground (arith, eq_int→eq a b e)
  | inr e ↦ e
]

-- the next id is not in the list
pub get_pipe-fresh :
    (n : ℕ) (p : Pipe) (ps : List Pipe)
    → Rising n (p ∷ ps)
    → get_pipe (p ∷ ps) (next_id p ps) ≡ none
unfolding get_pipe
get_pipe-fresh n p [] (i, e, lo, r) = rw e (ground arith)
get_pipe-fresh n p (q ∷ ps) (i, e, lo, r) =
    let (j, f, hi) = last_id-pos (suc i) q ps r in ground (arith, get_pipe-fresh (suc i) q ps r)

-- a new pipe at the end hides no other
pub get_pipe-append_other :
    (q : Pipe) (ps : List Pipe) (id : ℤ) → q.id ≢ id → get_pipe (ps ++ q ∷ []) id ≡ get_pipe ps id
unfolding get_pipe
get_pipe-append_other q [] id other = ground (arith, other_id q.id id other)
get_pipe-append_other q (p ∷ ps) id other = ground (arith, get_pipe-append_other q ps id other)

-- unlinking a pipe leaves the ones with other ids
pub get_pipe-unlink_other :
    (ps qs : List Pipe) (id other : ℤ)
    → unlink ps id ≡ some qs
    → id ≢ other
    → get_pipe qs other ≡ get_pipe ps other
unfolding get_pipe
get_pipe-unlink_other [] qs id other e apart = unfold unlink in cc
get_pipe-unlink_other (p ∷ ps) qs id other e apart = elim (unlink_cases p ps qs id e) [
  | inl (hit, same) ↦
      subst (λ xs. get_pipe xs other ≡ get_pipe (p ∷ ps) other) same
        (ground (arith, other_id p.id other (λ e'. apart (sym hit ∙ e'))))
  | inr (miss, rs, f, same) ↦
      subst (λ xs. get_pipe xs other ≡ get_pipe (p ∷ ps) other) same
        (ground (arith, get_pipe-unlink_other ps rs id other f apart))
]
