-- ===== src/Examples/Pages.antt =====
-- Frames, page tables, the heap break and region 0.
use yalnix_implementation.Base.{ℕ, zero, suc, ◌*◌, refl, arith, some, [], ◌∷◌}
use yalnix_implementation.Hardware.{pte, page_of, up_to_page, region1_index, max_pt_len}
use yalnix_implementation.Frames.Loops.{some_entry}
use yalnix_implementation.Frames.Mapping.{AllLive}
use yalnix_implementation.Kernel.{Kernel, Pcb, put, Ends}
use yalnix_implementation.Syscall.Brk.{kernel_brk}
use yalnix_implementation.Syscall.Brk.Heap.{Grown, kernel_brk-Grown}
use yalnix_implementation.Syscall.Brk.RunningOut.{AllClear}
use yalnix_implementation.Syscall.Brk.HalfGrown.{HalfGrown, kernel_brk-HalfGrown}
use yalnix_implementation.Syscall.Brk.Shrink.{Shrunk, kernel_brk-Shrunk}
use yalnix_implementation.Boot.{set_region0_pt, KernelSpace}
use yalnix_implementation.Boot.Region0.{Region0}
use yalnix_implementation.Examples.Data.{memory, table, process, machine}

memory-AllLive : AllLive memory.pfn_list
memory-AllLive = (ground arith, (ground arith, (ground arith, tt)))

-- page 4 of region 1, and one in the stack
abbrev page_4 : ℕ
page_4 = 132 * 8192

abbrev page_7 : ℕ
page_7 = 135 * 8192

kernel_brk-Grown_example : Grown machine (process 1 0) 4 (kernel_brk page_4 machine)
unfolding page_of up_to_page region1_index some_entry
kernel_brk-Grown_example =
    kernel_brk-Grown machine page_4 4 (process 1 0) (ground arith) (ground arith) refl refl
      (omega arith) (omega arith) (omega arith) (omega arith) refl (omega arith) memory-AllLive

abbrev space : KernelSpace
space = record {
  vm_enable = 1;
  kernel_brk = 30 * 8192;
  k_pt = set_region0_pt 10 20 30 max_pt_len 0;
}

-- the process with a heap of two pages, which it gives back
abbrev grown : Pcb
grown = record (process 1 0) {
  user_page_table =
      pte 1 5 31
      ∷ pte 1 3 32
      ∷ pte 1 3 34
      ∷ pte 1 3 35
      ∷ pte 0 0 0
      ∷ pte 0 0 0
      ∷ pte 0 0 0
      ∷ pte 1 3 33
      ∷ [];
  user_heap_pt_index = 4;
}

abbrev full : Kernel
full = record machine { pcbs = put machine.pcbs 20 (some grown) }

kernel_brk-Shrunk_example : Shrunk full grown 2 (kernel_brk (130 * 8192) full)
unfolding page_of up_to_page region1_index some_entry
kernel_brk-Shrunk_example =
    kernel_brk-Shrunk full (130 * 8192) 2 grown (ground arith) (ground arith) refl refl
      (omega arith) (omega arith) (omega arith) (omega arith) refl (λ i. ground arith)

-- one frame for the two pages up to page 4
abbrev crowded : Kernel
crowded = record machine { memory = record memory { pfn_list = 50 ∷ [] } }

table-AllClear : AllClear table 2 2
table-AllClear zero lo hi = absurd (omega arith)
table-AllClear (suc zero) lo hi = absurd (omega arith)
table-AllClear (suc (suc zero)) lo hi = (pte 0 0 0, refl, refl)
table-AllClear (suc (suc (suc zero))) lo hi = (pte 0 0 0, refl, refl)
table-AllClear (suc (suc (suc (suc j)))) lo hi = absurd (omega arith)

kernel_brk-HalfGrown_example : Ends (HalfGrown crowded (process 1 0)) (kernel_brk page_4 crowded)
unfolding page_of up_to_page region1_index
kernel_brk-HalfGrown_example =
    kernel_brk-HalfGrown crowded page_4 4 (process 1 0) (ground arith) (ground arith) refl refl
      (omega arith) (omega arith) (omega arith) table-AllClear (omega arith) (ground arith, tt)
