-- ===== src/Syscall/Answering.antt =====
-- Calls one after the other against an abstract state that answers them: where each call keeps to its
-- answer, so does a sequence of calls.
use yalnix_implementation.Base.{◌≡◌, refl, ap, ◌∙◌, Option, none, some, List, [], ◌∷◌}
use yalnix_implementation.Kernel.{
  Kernel, Run, M, pure, ◌>>=◌, ok, Ends, ends, Ends-bind, Output, Outcome,
}

-- What answers calls: `none` is a call that waits. The caller sees the value that a call returns and
-- what is handed to it.
pub record Service (Op Answer State : Type 0) : Type 0 where
  pub answer : State → Op → Option (Answer × State)
  pub call : Op → M Outcome
  pub value : Answer → Outcome
  pub handed : Answer → List Output → List Output

module _ {Op Answer State : Type 0} (s : Service Op Answer State) where
  -- the answers to the calls in their order, and the last state; `none` if one of them waits
  abbrev pub answers : State → List Op → Option (List Answer × State)
  answers q [] = some ([], q)
  answers q (c ∷ cs) = elim (s.answer q c) [
    | none ↦ none
    | some (a, q') ↦ elim (answers q' cs) [ none ↦ none | some (as', r) ↦ some (a ∷ as', r) ]
  ]

  abbrev pub calls : List Op → M (List Outcome)
  calls [] k = ok [] k
  calls (c ∷ cs) k = (do o ← s.call c; os ← calls cs; pure (o ∷ os)) k

  abbrev pub values : List Answer → List Outcome
  values [] = []
  values (a ∷ as') = s.value a ∷ values as'

  abbrev pub all_handed : List Answer → List Output → List Output
  all_handed [] outs = outs
  all_handed (a ∷ as') outs = all_handed as' (s.handed a outs)

  module _ (Holding : List Output → State → Kernel → Type 0) where
    -- a call that is answered
    abbrev pub Promise : List Output → Option (Answer × State) → Run Outcome → Type 0
    Promise outs none r = Unit
    Promise outs (some (a, q)) r = Ends (λ o k. (o ≡ s.value a) × Holding (s.handed a outs) q k) r

    abbrev pub Promises : List Output → Option (List Answer × State) → Run (List Outcome) → Type 0
    Promises outs none r = Unit
    Promises outs (some (as', q)) r =
        Ends (λ os k. (os ≡ values as') × Holding (all_handed as' outs) q k) r

    -- one call, and then the others
    then_calls :
        (outs : List Output) (cl : Op) (cs : List Op) (k : Kernel) (a : Answer) (q : State)
        → Promise outs (some (a, q)) (s.call cl k)
        → (r : Option (List Answer × State))
        → ((k' : Kernel)
            → Holding (s.handed a outs) q k'
            → Promises (s.handed a outs) r (calls cs k'))
        → Promises outs
            (elim r [ none ↦ none | some (as', q') ↦ some (a ∷ as', q') ])
            (calls (cl ∷ cs) k)
    then_calls outs cl cs k a q one none more = tt
    then_calls outs cl cs k a q one (some (as', q')) more =
        Ends-bind (s.call cl) _ k one λ o k1 (is, h).
          Ends-bind (calls cs) _ k1 (more k1 h)
            λ os k2 (are, h'). ends (ap (λ x. x ∷ os) is ∙ ap (λ xs. s.value a ∷ xs) are, h')

    pub calls-answers :
        ((outs : List Output) (q : State) (k : Kernel) (cl : Op)
          → Holding outs q k
          → Promise outs (s.answer q cl) (s.call cl k))
        → (cs : List Op) (outs : List Output) (q : State) (k : Kernel) → Holding outs q k
        → Promises outs (answers q cs) (calls cs k)
    calls-answers step [] outs q k h = ends (refl, h)
    calls-answers step (cl ∷ cs) outs q k h =
        split (s.answer q cl) (step outs q k cl h)
          (λ outs' q' k' h'. calls-answers step cs outs' q' k' h')
      where
        split :
            (o : Option (Answer × State))
            → Promise outs o (s.call cl k)
            → ((outs' : List Output) (q' : State) (k' : Kernel)
                → Holding outs' q' k'
                → Promises outs' (answers q' cs) (calls cs k'))
            → Promises outs
                (elim o [
                  | none ↦ none
                  | some (a, q') ↦ elim (answers q' cs) [
                    | none ↦ none
                    | some (as', r) ↦ some (a ∷ as', r)
                  ]
                ])
                (calls (cl ∷ cs) k)
        split none waits more = tt
        split (some (a, q')) one more =
            then_calls outs cl cs k a q' one (answers q' cs) (more (s.handed a outs) q')
