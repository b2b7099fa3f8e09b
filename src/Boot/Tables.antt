-- ===== src/Boot/Tables.antt =====
-- KernelStart: region 0's table when virtual memory is enabled.
use yalnix_implementation.Base.{
  ℕ, zero, suc, ◌+◌, ◌-◌, ◌≤◌, ◌<◌, ◌≡◌, refl, ◌==◌, ◌∙◌, arith, some, List, get_elem?, set, inl,
  inr, get_elem?-set_ne, get_elem?-set_self, list_ext, Bool-cases,
}
use yalnix_implementation.Hardware.{
  Pte, pte, valid_frame, invalid_frame, no_x_w_r, max_pt_len, kernel_stack_page,
}
use yalnix_implementation.Boot.{region0_entry, set_region0_pt}
use yalnix_implementation.Boot.Region0.{get_elem?-set_region0_pt}
use yalnix_implementation.Boot.Start.{clean_up}

set_same : (pt : List Pte) (i : ℕ) (e : Pte) → get_elem? pt i ≡ some e → set pt i e ≡ pt
set_same pt i e at = list_ext (set pt i e) pt λ j. elim (Bool-cases (i == j)) [
  | inl here ↦ ground (arith, get_elem?-set_self pt i e e at)
  | inr other ↦ get_elem?-set_ne pt i j e (ground arith)
]

clean_up-same :
    (n i : ℕ) (pt : List Pte)
    → ((j : ℕ) → i ≤ j → j < i + n → get_elem? pt j ≡ some (pte valid_frame no_x_w_r j))
    → clean_up n i pt ≡ pt
unfolding clean_up
clean_up-same zero i pt same = refl
clean_up-same (suc n) i pt same =
    let here = set_same pt i (pte valid_frame no_x_w_r i) (same i (omega arith) (omega arith)) in
    rw here (clean_up-same n (suc i) pt (λ j lo hi. same j (omega arith) (omega arith)))

pub region0_at :
    (ds de brk i : ℕ)
    → i < max_pt_len
    → get_elem? (set_region0_pt ds de brk max_pt_len 0) i ≡ some (region0_entry ds de brk i)
region0_at ds de brk i h = ground (arith, get_elem?-set_region0_pt ds de brk max_pt_len 0 i)

heap_entry :
    (ds de brk j : ℕ)
    → ds ≤ de
    → de ≤ j
    → j < brk
    → some (region0_entry ds de brk j) ≡ some (pte valid_frame no_x_w_r j)
unfolding region0_entry
heap_entry ds de brk j a b c = ground arith

-- The loop before virtual memory is enabled finds its entries as it would leave them.
pub clean_up-set_region0_pt :
    (ds de brk : ℕ)
    → ds ≤ de
    → de ≤ brk
    → brk ≤ kernel_stack_page
    → clean_up (brk - de) de (set_region0_pt ds de brk max_pt_len 0)
      ≡ set_region0_pt ds de brk max_pt_len 0
clean_up-set_region0_pt ds de brk h1 h2 h3 =
    clean_up-same (brk - de) de (set_region0_pt ds de brk max_pt_len 0)
      λ j lo hi. region0_at ds de brk j (omega arith) ∙ heap_entry ds de brk j h1 lo (omega arith)

-- the kernel's stack, and the page below it
pub stack_entry :
    (ds de brk i : ℕ)
    → ds ≤ de
    → de ≤ brk
    → brk ≤ kernel_stack_page
    → kernel_stack_page ≤ i
    → i < max_pt_len
    → get_elem? (set_region0_pt ds de brk max_pt_len 0) i ≡ some (pte valid_frame no_x_w_r i)
unfolding region0_entry
stack_entry ds de brk i h1 h2 h3 lo hi = region0_at ds de brk i hi ∙ ground arith

pub free_entry :
    (ds de brk i : ℕ)
    → ds ≤ de
    → de ≤ brk
    → brk ≤ i
    → i < kernel_stack_page
    → get_elem? (set_region0_pt ds de brk max_pt_len 0) i ≡ some (pte invalid_frame 0 i)
unfolding region0_entry
free_entry ds de brk i h1 h2 lo hi = region0_at ds de brk i (omega arith) ∙ ground arith
