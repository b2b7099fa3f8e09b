-- ===== src/Boot/Region0.antt =====
-- The page table of region 0.
use yalnix_implementation.Base.{
  ℕ, zero, suc, ◌+◌, ◌-◌, ◌/◌, ◌≤◌, ◌<◌, ◌≡◌, ◌⊎◌, inl, inr, refl, ap, ◌==◌, ltb, if◌then◌else◌,
  Option, none, some, List, arith, get_elem?, set, get_elem?-set_self, get_elem?-set_ne, Bool-cases,
}
use yalnix_implementation.Hardware.{
  Pte, pte, valid_frame, invalid_frame, no_x_w_r, x_no_w_r, max_pt_len, kernel_stack_page,
  page_size,
}
use yalnix_implementation.Boot.{
  region0_entry, set_region0_pt, KernelSpace, validate, validate_entry, set_kernel_brk,
}

-- every entry of the table has the number of its page
abbrev pub IsIdentity : List Pte → Type 0
IsIdentity pt = (i : ℕ) (e : Pte) → get_elem? pt i ≡ some e → e.pfn ≡ i

entry_at : (ds de brk i j : ℕ) → i ≡ j → region0_entry ds de brk i ≡ region0_entry ds de brk j
entry_at ds de brk i j e = ap (region0_entry ds de brk) e

pub get_elem?-set_region0_pt :
    (ds de brk n i j : ℕ)
    → get_elem? (set_region0_pt ds de brk n i) j
      ≡ (if ltb j n then some (region0_entry ds de brk (i + j)) else none)
unfolding set_region0_pt
get_elem?-set_region0_pt ds de brk zero i j = ground arith
get_elem?-set_region0_pt ds de brk (suc n) i zero =
    ground (arith, entry_at ds de brk i (i + 0) (omega arith))
get_elem?-set_region0_pt ds de brk (suc n) i (suc j) = ground (
  arith,
  get_elem?-set_region0_pt ds de brk n (suc i) j,
  entry_at ds de brk (suc i + j) (i + suc j) (omega arith),
)

-- what the entry of page `i` of the kernel is to be
pub record Region0 (ds de brk i : ℕ) (e : Pte) : Type 0 where
  pub own_frame : e.pfn ≡ i
  pub text : i < ds → (e.valid ≡ valid_frame) × (e.prot ≡ x_no_w_r)
  pub written :
      ds ≤ i → (i < brk) ⊎ (kernel_stack_page ≤ i) → (e.valid ≡ valid_frame) × (e.prot ≡ no_x_w_r)
  pub unmapped : brk ≤ i → i < kernel_stack_page → e.valid ≡ invalid_frame

pub set_region0_pt-IsIdentity : (ds de brk : ℕ) → IsIdentity (set_region0_pt ds de brk max_pt_len 0)
unfolding region0_entry
set_region0_pt-IsIdentity ds de brk i e at =
    ground (arith, get_elem?-set_region0_pt ds de brk max_pt_len 0 i)

set-IsIdentity :
    (i : ℕ) (pt : List Pte) (old new : Pte)
    → get_elem? pt i ≡ some old
    → new.pfn ≡ old.pfn
    → IsIdentity pt
    → IsIdentity (set pt i new)
set-IsIdentity i pt old new at same h j e got = elim (Bool-cases (i == j)) [
  | inl here ↦ ground (arith, get_elem?-set_self pt i old new at, h i old at)
  | inr other ↦ h j e (ground (arith, get_elem?-set_ne pt i j new))
]

validate_entry-IsIdentity :
    (o : Option Pte) (i : ℕ) (pt : List Pte)
    → get_elem? pt i ≡ o
    → IsIdentity pt
    → IsIdentity (validate_entry o i pt)
unfolding validate_entry
validate_entry-IsIdentity none i pt at h j e' got = h j e' got
validate_entry-IsIdentity (some e) i pt at h j e' got =
    ground (arith, h j e', set-IsIdentity i pt e (pte valid_frame no_x_w_r e.pfn) at refl h j e')

validate-IsIdentity : (n i : ℕ) (pt : List Pte) → IsIdentity pt → IsIdentity (validate n i pt)
unfolding validate
validate-IsIdentity zero i pt h = h
validate-IsIdentity (suc n) i pt h =
    validate-IsIdentity n (suc i) _ (validate_entry-IsIdentity (get_elem? pt i) i pt refl h)

-- Whatever address SetKernelBrk is given, a page table of region 0 that maps each page to the
-- frame of its number still does.
pub set_kernel_brk-IsIdentity :
    (addr : ℕ) (s : KernelSpace) → IsIdentity s.k_pt → IsIdentity (set_kernel_brk addr s).1.k_pt
unfolding set_kernel_brk
set_kernel_brk-IsIdentity addr s h i e at = ground (
  arith,
  h i e,
  validate-IsIdentity (addr / page_size - s.kernel_brk / page_size) (s.kernel_brk / page_size)
      s.k_pt h i e,
)
