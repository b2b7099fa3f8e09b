-- ===== src/Load/Image.antt =====
-- What LoadProgram knows of an executable file, and the page and address arithmetic that it does
-- before it commits. `open`, LoadInfo and `read` are not code of the kernel: a `File` says how they
-- end. The page counts of a file and the sizes of arguments are taken to be small enough for an int.
use yalnix_implementation.Base.{ℕ, ◌+◌, ◌-◌, ◌*◌, ◌/◌, ◌%◌, ◌^◌, Bool, List, [], ◌∷◌, length}
use yalnix_implementation.Hardware.{
  page_size, vmem_region_size, vmem_1_limit, initial_stack_frame_size, post_argv_null_space,
  down_to_page,
}

-- `struct load_info`
pub record LoadInfo : Type 0 where
  pub entry : ℕ
  pub t_faddr : ℕ
  pub t_vaddr : ℕ
  pub t_npg : ℕ
  pub t_end : ℕ
  pub id_faddr : ℕ
  pub id_vaddr : ℕ
  pub id_npg : ℕ
  pub id_end : ℕ
  pub ud_vaddr : ℕ
  pub ud_npg : ℕ
  pub ud_end : ℕ

-- `open` fails; LoadInfo fails; or LoadInfo fills its structure, and the two calls of `read` get a
-- whole segment or not.
pub data File : Type 0 where
  cannot_open not_yalnix : File
  executable : LoadInfo → Bool → Bool → File

-- `(vaddr - VMEM_1_BASE) >> PAGESHIFT` of 32-bit words
unfoldable pub region1_page : ℕ → ℕ
region1_page vaddr = (vaddr + 2 ^ 32 - vmem_region_size) % 2 ^ 32 / page_size

abbrev pub text_page : LoadInfo → ℕ
text_page li = region1_page li.t_vaddr

abbrev pub data_page : LoadInfo → ℕ
data_page li = region1_page li.id_vaddr

abbrev pub data_pages : LoadInfo → ℕ
data_pages li = li.id_npg + li.ud_npg

-- the bytes that the arguments take, each with its NUL
abbrev pub args_size : List (List ℕ) → ℕ
args_size [] = 0
args_size (s ∷ ss) = length s + 1 + args_size ss

-- `cp`: where the arguments go
unfoldable pub strings_start : List (List ℕ) → ℕ
strings_start args = vmem_1_limit - args_size args

-- `cpp`: where argc and the argv pointers go, on a double-word boundary
unfoldable pub argc_address : List (List ℕ) → ℕ
unfolding strings_start
argc_address args = (strings_start args - (length args + 3 + post_argv_null_space) * 4) / 8 * 8

-- `cp2`: the new stack pointer
unfoldable pub stack_pointer : List (List ℕ) → ℕ
unfolding argc_address
stack_pointer args = argc_address args - initial_stack_frame_size

-- Arguments that do not fit below the limit have a negative `cpp` in C and 0 here; the stack then
-- has at least as many pages as the table, both times.
unfoldable pub stack_pages : List (List ℕ) → ℕ
unfolding stack_pointer down_to_page
stack_pages args = (vmem_1_limit - down_to_page (stack_pointer args)) / page_size
