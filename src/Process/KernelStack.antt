-- ===== src/Process/KernelStack.antt =====
-- contextswitch.c: the kernel stack that KCSwitch maps in region 0.
use yalnix_implementation.Base.{
  ℕ, zero, suc, ◌+◌, ◌≡◌, ◌<◌, ◌≤◌, ◌⊎◌, inl, inr, refl, ap, ◌∙◌, some, List, [], ◌∷◌, arith,
  length, get_elem?, set, length-set, get_elem?-lt, get_elem?-set_self, get_elem?-set_ne,
}
use yalnix_implementation.Hardware.{Pte, kernel_stack_page}
use yalnix_implementation.ContextSwitch.{map_stack}

-- Each entry of the stack is at its place in the table.
abbrev pub IsOnStack : List Pte → List Pte → Type 0
IsOnStack stack k_pt =
    (j : ℕ) (e : Pte) → get_elem? stack j ≡ some e → get_elem? k_pt (kernel_stack_page + j) ≡ some e

-- The tables agree off the pages that `n` entries of a kernel stack have.
abbrev pub SameOffStack : ℕ → List Pte → List Pte → Type 0
SameOffStack n before after =
    (j : ℕ)
    → (j < kernel_stack_page) ⊎ (kernel_stack_page + n ≤ j)
    → get_elem? after j ≡ get_elem? before j

pub length-map_stack : (i : ℕ) (es pt : List Pte) → length (map_stack i es pt) ≡ length pt
unfolding map_stack
length-map_stack i [] pt = refl
length-map_stack i (e ∷ es) pt = length-map_stack (suc i) es (set pt i e) ∙ length-set pt i e

map_stack_outside :
    (i : ℕ) (es pt : List Pte) (j : ℕ)
    → (j < i) ⊎ (i + length es ≤ j)
    → get_elem? (map_stack i es pt) j ≡ get_elem? pt j
unfolding map_stack
map_stack_outside i [] pt j out = refl
map_stack_outside i (e ∷ es) pt j (inl below) =
    map_stack_outside (suc i) es (set pt i e) j (inl (omega arith))
    ∙ get_elem?-set_ne pt i j e (omega arith)
map_stack_outside i (e ∷ es) pt j (inr above) =
    map_stack_outside (suc i) es (set pt i e) j (inr (omega arith))
    ∙ get_elem?-set_ne pt i j e (omega arith)

map_stack_inside :
    (i : ℕ) (es pt : List Pte) (j : ℕ) (e : Pte)
    → i + length es ≤ length pt
    → get_elem? es j ≡ some e
    → get_elem? (map_stack i es pt) (i + j) ≡ some e
unfolding map_stack
map_stack_inside i [] pt j e room at = cc at
map_stack_inside i (d ∷ es) pt zero e room at =
    let index : i + 0 ≡ i = omega arith in
    let (old, there) = get_elem?-lt pt i (omega arith) in
    ap (get_elem? (map_stack (suc i) es (set pt i d))) index
    ∙ map_stack_outside (suc i) es (set pt i d) i (inl (omega arith))
    ∙ get_elem?-set_self pt i old d there
    ∙ at
map_stack_inside i (d ∷ es) pt (suc j) e room at =
    let index : i + suc j ≡ suc i + j = omega arith in
    ap (get_elem? (map_stack (suc i) es (set pt i d))) index
    ∙ map_stack_inside (suc i) es (set pt i d) j e (omega (arith, length-set pt i d)) at

pub map_stack-IsOnStack :
    (es pt : List Pte)
    → kernel_stack_page + length es ≤ length pt
    → IsOnStack es (map_stack kernel_stack_page es pt)
map_stack-IsOnStack es pt room j e at = map_stack_inside kernel_stack_page es pt j e room at

pub map_stack-SameOffStack :
    (es pt : List Pte) → SameOffStack (length es) pt (map_stack kernel_stack_page es pt)
map_stack-SameOffStack es pt j out = map_stack_outside kernel_stack_page es pt j out

-- what a switch away and one back leave of the table
pub map_stack-SameOffStack_twice :
    (es ds pt : List Pte)
    → length ds ≡ length es
    → SameOffStack
        (length es)
        pt
        (map_stack kernel_stack_page es (map_stack kernel_stack_page ds pt))
map_stack-SameOffStack_twice es ds pt same j out =
    map_stack-SameOffStack es (map_stack kernel_stack_page ds pt) j out
    ∙ map_stack-SameOffStack ds pt j (rw same out)
