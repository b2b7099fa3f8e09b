-- ===== src/Hardware.antt =====
-- The machine of include/hardware.h and the kernel's constants of include.h and kernel.h: pages,
-- page table entries, user contexts, and the arithmetic of page numbers.
use yalnix_implementation.Base.{
  ℕ, ◌+◌, ◌-◌, ◌*◌, ◌/◌, ◌%◌, ◌^◌, ltb, if◌then◌else◌, ℤ, pos, negsuc, sub_ℕ,
}

-- `NULL`, and the address of an object
abbrev pub Ptr : Type 0
Ptr = ℕ

abbrev pub null : Ptr
null = 0

abbrev pub page_size : ℕ
page_size = 0x2000

-- `VMEM_REGION_SIZE`: the size of each of the two regions, and the base of region 1
abbrev pub vmem_region_size : ℕ
vmem_region_size = 0x100000

-- `MAX_PT_LEN`, which is also `USER_PT_SIZE` and `KERNEL_PT_SIZE`
abbrev pub max_pt_len : ℕ
max_pt_len = 128

-- `KERNEL_STACK_SIZE`, in pages, and the page of `KERNEL_STACK_BASE`
abbrev pub kernel_stack_size : ℕ
kernel_stack_size = 2

abbrev pub kernel_stack_page : ℕ
kernel_stack_page = 126

-- `VMEM_1_LIMIT`
abbrev pub vmem_1_limit : ℕ
vmem_1_limit = 0x200000

-- `INITIAL_STACK_FRAME_SIZE` and `POST_ARGV_NULL_SPACE`
abbrev pub initial_stack_frame_size : ℕ
initial_stack_frame_size = 0

abbrev pub post_argv_null_space : ℕ
post_argv_null_space = 0x20

abbrev pub num_terminals : ℕ
num_terminals = 4

abbrev pub terminal_max_line : ℕ
terminal_max_line = 1024

abbrev pub pipe_buffer_len : ℕ
pipe_buffer_len = 256

abbrev pub max_locks : ℕ
max_locks = 100

abbrev pub max_cvars : ℕ
max_cvars = 5000

-- `VALID_FRAME` and `INVALID_FRAME`, the valid bit of an entry
abbrev pub valid_frame : ℕ
valid_frame = 1

abbrev pub invalid_frame : ℕ
invalid_frame = 0

-- protections, in the order X W R
abbrev pub no_x_w_r : ℕ
no_x_w_r = 3

abbrev pub x_no_w_r : ℕ
x_no_w_r = 5

abbrev pub no_x_no_w_no_r : ℕ
no_x_no_w_no_r = 0

-- a page table entry
pub record Pte : Type 0 where
  pub valid : ℕ
  pub prot : ℕ
  pub pfn : ℕ

abbrev pub pte : ℕ → ℕ → ℕ → Pte
pte v p f = record { valid = v; prot = p; pfn = f }

-- `UserContext`
pub record UserContext : Type 0 where
  pub addr : ℕ
  pub code : ℕ
  pub sp : ℕ
  pub pc : ℕ

-- `n >> PAGESHIFT` of the 32-bit pattern of a signed `long`
unfoldable pub page_of : ℕ → ℤ
page_of w = if ltb w (2 ^ 31) then pos (w / page_size) else negsuc ((2 ^ 32 - 1 - w) / page_size)

-- `UP_TO_PAGE` and `DOWN_TO_PAGE`, as 32-bit patterns
unfoldable pub up_to_page : ℕ → ℕ
up_to_page w = (w + (page_size - 1)) % 2 ^ 32 / page_size * page_size

unfoldable pub down_to_page : ℕ → ℕ
down_to_page w = w / page_size * page_size

-- a page number of the address space as an index into region 1's page table
unfoldable pub region1_index : ℤ → ℤ
region1_index (pos n) = sub_ℕ n (vmem_region_size / page_size)
region1_index (negsuc n) = negsuc (n + vmem_region_size / page_size)
