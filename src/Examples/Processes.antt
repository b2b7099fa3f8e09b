-- ===== src/Examples/Processes.antt =====
-- A fork, and a switch there and back.
use yalnix_implementation.Base.{◌≡◌, refl, arith, inl, some, [], ◌∷◌, replicate, set}
use yalnix_implementation.Hardware.{pte, max_pt_len}
use yalnix_implementation.Kernel.{
  Kernel, Pcb, Run, ok, fault, put, load_pcb, update_pcb, queue_add, Ends,
}
use yalnix_implementation.ContextSwitch.{
  find_reserved, invalid_at, mark_valid, kc_copy, kernel_context_copy,
}
use yalnix_implementation.Process.RoundTrip.{Pair, Back, there_and_back, there_and_back-Back}
use yalnix_implementation.Syscall.Fork.{fork_child, copy_tables, start_child, kernel_fork}
use yalnix_implementation.Census.{AllDifferent, census}
use yalnix_implementation.Census.Steps.{Steps, start, next, fork, Steps-census}
use yalnix_implementation.Frames.{allocate_pfn, pop_frame}
use yalnix_implementation.Process.{init_process, adopt, new_stack, allocate_stack, copy_upt}
use yalnix_implementation.Syscall.Fork.Forked.{Forkable, Forked, kernel_fork-Forked}
use yalnix_implementation.Syscall.Fork.RunOut.{Short, Stranded, kernel_fork-Stranded}
use yalnix_implementation.Examples.Data.{machine, paged, process, context, memory}

-- one page of text, and one of stack
abbrev parent : Pcb
parent = record (process 1 0) {
  user_page_table = pte 1 5 31 ∷ set (replicate 127 (pte 0 0 0)) 126 (pte 1 3 33);
}

abbrev family : Kernel
family = record machine {
  pcbs = put machine.pcbs 20 (some parent);
  memory = record memory { pfn_list = 50 ∷ 51 ∷ 52 ∷ 53 ∷ [] };
  k_pt = replicate max_pt_len (pte 0 0 0);
}

family-Forkable : Forkable family parent context 50 51 (52 ∷ 53 ∷ []) 126
unfolding find_reserved invalid_at
family-Forkable = record {
  live = ground arith;
  holds = refl;
  context = refl;
  room = λ c. ground arith;
  apart = ground arith;
  later = ground arith;
  other_id = ground arith;
  frames = refl;
  real1 = ground arith;
  real2 = ground arith;
  real = (ground arith, (ground arith, tt));
  table = refl;
  enough = omega arith;
  reserved = refl;
}

kernel_fork-Forked_example : Ends (Forked family parent context) (kernel_fork family)
kernel_fork-Forked_example =
    kernel_fork-Forked family parent context 50 51 (52 ∷ 53 ∷ []) 126 family-Forkable

-- 20 runs, and 30 is ready
paged-Pair : Pair paged 30 (process 1 0) (process 2 1) (process 0 0) context context
paged-Pair = record {
  live = ground arith;
  next_live = ground arith;
  idle_live = ground arith;
  apart = ground arith;
  idle_apart = ground arith;
  idle_other = ground arith;
  holds = refl;
  next_holds = refl;
  idle_holds = refl;
  not_idle = ground arith;
  next_not_idle = ground arith;
  context = refl;
  next_context = refl;
  only = refl;
  room = λ c. ground arith;
  table = omega arith;
  same_size = refl;
}

there_and_back-Back_example :
    Ends (λ _ k'. Back paged 30 (process 1 0) (process 2 1) context k') (there_and_back paged)
there_and_back-Back_example =
    there_and_back-Back paged 30 (process 1 0) (process 2 1) (process 0 0) context context
      paged-Pair

-- the state in which a command ends
abbrev end_of : {A : Type 0} → Run A → Kernel
end_of (ok a k) = k
end_of fault = machine

abbrev after_fork : Kernel
after_fork = end_of (kernel_fork family)

family-AllDifferent : AllDifferent (20 ∷ 10 ∷ [])
family-AllDifferent = ((ground arith, tt), (tt, tt))

forked_once : Steps (20 ∷ 10 ∷ []) family (1000 ∷ 20 ∷ 10 ∷ []) after_fork
unfolding kernel_fork init_process adopt new_stack allocate_stack allocate_pfn pop_frame load_pcb
    update_pcb fork_child find_reserved invalid_at copy_tables copy_upt start_child queue_add
    kernel_context_copy kc_copy mark_valid
forked_once = next start (inl refl) (
    fork parent context 50 51 (52 ∷ 53 ∷ []) 126 family-Forkable (ground arith, (ground arith, tt))
      refl)

Steps-census_example :
    AllDifferent (1000 ∷ 20 ∷ 10 ∷ [])
    × (census 52 (1000 ∷ 20 ∷ 10 ∷ []) after_fork ≡ census 52 (20 ∷ 10 ∷ []) family)
Steps-census_example =
    Steps-census 52 (20 ∷ 10 ∷ []) family (1000 ∷ 20 ∷ 10 ∷ []) after_fork (ground arith)
      family-AllDifferent forked_once

-- one frame less
abbrev crowded : Kernel
crowded = record family { memory = record memory { pfn_list = 50 ∷ 51 ∷ 52 ∷ [] } }

crowded-Short : Short crowded parent context 50 51 (52 ∷ []) 126
unfolding find_reserved invalid_at
crowded-Short = record {
  live = ground arith;
  holds = refl;
  context = refl;
  room = ground arith;
  apart = ground arith;
  later = ground arith;
  frames = refl;
  real1 = ground arith;
  real2 = ground arith;
  real = (ground arith, tt);
  table = refl;
  short = omega arith;
  reserved = refl;
}

kernel_fork-Stranded_example : Ends (Stranded crowded parent (52 ∷ []) 126) (kernel_fork crowded)
kernel_fork-Stranded_example =
    kernel_fork-Stranded crowded parent context 50 51 (52 ∷ []) 126 crowded-Short
