-- ===== src/Load/ArgumentBlock.antt =====
-- LoadProgram's argument block, read back the way that the new program's start code reads it.
use yalnix_implementation.Base.{
  ℕ, zero, suc, ◌+◌, ◌-◌, ◌*◌, ◌%◌, ◌≤◌, ◌<◌, ◌≡◌, ◌≢◌, refl, ap, ◌∙◌, ◌==◌, true, false, List, [],
  ◌∷◌, length, arith, ◌⊎◌,
}
use yalnix_implementation.Hardware.{
  vmem_1_limit, vmem_region_size, max_pt_len, down_to_page, page_size,
}
use yalnix_implementation.Load.Image.{
  args_size, strings_start, argc_address, stack_pointer, stack_pages,
}
use yalnix_implementation.Load.Arguments.{
  Bytes, store_word, clear_above, copy_args, build_arguments,
}
use yalnix_implementation.Load.ArgumentBytes.{
  load_word, StringAt, ArgsAt, store_word-outside, load_word-store_word, load_word-agree,
  ArgsAt-agree, copy_args-outside, copy_args-ArgsAt,
}

-- the bytes from an address up to a NUL, at most `n`
abbrev pub read_string : ℕ → ℕ → Bytes → List ℕ
read_string zero a m = []
read_string (suc n) a m = elim (m a == 0) [ true ↦ [] | false ↦ m a ∷ read_string n (a + 1) m ]

-- the strings that `n` pointers from `cpp` on lead to, each of `fuel` bytes at most
abbrev pub read_args : ℕ → ℕ → ℕ → Bytes → List (List ℕ)
read_args fuel zero cpp m = []
read_args fuel (suc n) cpp m = read_string fuel (load_word cpp m) m ∷ read_args fuel n (cpp + 4) m

-- no byte of the string is NUL
abbrev pub NoNul : List ℕ → Type 0
NoNul [] = Unit
NoNul (c ∷ s) = (c ≢ 0) × NoNul s

abbrev pub AllNoNul : List (List ℕ) → Type 0
AllNoNul [] = Unit
AllNoNul (s ∷ ss) = NoNul s × AllNoNul ss

read_string-StringAt :
    (fuel a : ℕ) (s : List ℕ) (m : Bytes)
    → length s ≤ fuel
    → NoNul s
    → StringAt s a m
    → read_string fuel a m ≡ s
read_string-StringAt zero a [] m enough clean at = refl
read_string-StringAt zero a (c ∷ s) m enough clean at = absurd (omega arith)
read_string-StringAt (suc n) a [] m enough clean at = rw (at, read_string) refl
read_string-StringAt (suc n) a (c ∷ s) m enough clean (here, rest) =
    ground (arith, read_string-StringAt n (a + 1) s m (omega arith) clean.1 rest)

read_args-ArgsAt :
    (fuel cpp cp : ℕ) (ss : List (List ℕ)) (m : Bytes)
    → args_size ss ≤ fuel
    → AllNoNul ss
    → ArgsAt ss cpp cp m
    → read_args fuel (length ss) cpp m ≡ ss
read_args-ArgsAt fuel cpp cp [] m enough clean at = refl
read_args-ArgsAt fuel cpp cp (s ∷ ss) m enough clean (pointer, string, rest) = rw pointer (
    rw (read_string-StringAt fuel cp s m (omega arith) clean.0 string) (
      ap (λ t. s ∷ t)
        (read_args-ArgsAt fuel (cpp + 4) (cp + (length s + 1)) ss m (omega arith) clean.1 rest)))

-- What a stack of fewer pages than the table means for the block: the stack pointer is aligned and
-- in region 1, argc, the pointers and the zeros behind them end below the strings, and the strings
-- end at the limit.
pub record Fits (args : List (List ℕ)) : Type 0 where
  pub aligned : argc_address args % 8 ≡ 0
  pub in_region : vmem_region_size ≤ stack_pointer args
  pub on_stack : vmem_1_limit - stack_pages args * page_size ≤ stack_pointer args
  pub below : argc_address args + (length args + 3 + 32) * 4 ≤ strings_start args
  pub ends : strings_start args + args_size args ≡ vmem_1_limit

-- If the stack that LoadProgram plans has fewer pages than the page table, the stack pointer is a
-- multiple of eight in region 1 and on the stack's pages, and argc, the argv pointers, two NULL
-- pointers and the space behind them end below the strings, which end at the limit of region 1.
pub stack_pages-Fits : (args : List (List ℕ)) → stack_pages args < max_pt_len → Fits args
unfolding stack_pages stack_pointer argc_address strings_start down_to_page
stack_pages-Fits args few = record {
  aligned = omega arith;
  in_region = omega arith;
  on_stack = omega arith;
  below = omega arith;
  ends = omega arith;
}

-- What the start code finds at the stack pointer `sp`.
pub record Block (args : List (List ℕ)) (sp : ℕ) (m : Bytes) : Type 0 where
  pub argc : load_word sp m ≡ length args
  pub argv : (fuel : ℕ) → args_size args ≤ fuel → read_args fuel (load_word sp m) (sp + 4) m ≡ args
  pub argv_null : load_word (sp + 4 + length args * 4) m ≡ 0
  pub envp_null : load_word (sp + 4 + length args * 4 + 4) m ≡ 0

module _ (args : List (List ℕ)) (m : Bytes) (fits : Fits args) where
  -- the block without the two NULL pointers
  abbrev front : Bytes
  front =
      copy_args (argc_address args + 4) (strings_start args) args
        (store_word (argc_address args) (length args) (clear_above (argc_address args) m))

  front-argc : load_word (argc_address args) front ≡ length args
  front-argc =
      load_word-agree (argc_address args)
        (store_word (argc_address args) (length args) (clear_above (argc_address args) m)) front
        (λ b lo hi.
          copy_args-outside (argc_address args + 4) (strings_start args) b args _ (omega arith)
            (omega (arith, fits.below)))
      ∙ load_word-store_word (argc_address args) (length args) _
          (omega (arith, fits.below, fits.ends))

  front-ArgsAt : ArgsAt args (argc_address args + 4) (strings_start args) front
  front-ArgsAt =
      copy_args-ArgsAt (argc_address args + 4) (strings_start args) args _
        (omega (arith, fits.below)) (omega (arith, fits.ends))

  abbrev behind : ℕ
  behind = argc_address args + 4 + length args * 4

  build_arguments-front :
      (b : ℕ) → (b < behind) ⊎ (behind + 8 ≤ b) → build_arguments args m b ≡ front b
  unfolding build_arguments
  build_arguments-front b out =
      store_word-outside (behind + 4) 0 b (store_word behind 0 front) (omega arith)
      ∙ store_word-outside behind 0 b front (omega arith)

  block-argc : load_word (argc_address args) (build_arguments args m) ≡ length args
  block-argc =
      load_word-agree (argc_address args) front (build_arguments args m)
        (λ b lo hi. build_arguments-front b (omega arith))
      ∙ front-argc

  block-ArgsAt : ArgsAt args (argc_address args + 4) (strings_start args) (build_arguments args m)
  block-ArgsAt =
      ArgsAt-agree args (argc_address args + 4) (strings_start args) front (build_arguments args m)
        (λ b lo hi. build_arguments-front b (omega arith))
        (λ b lo hi. build_arguments-front b (omega (arith, fits.below))) front-ArgsAt

  block-argv_null : load_word behind (build_arguments args m) ≡ 0
  unfolding build_arguments
  block-argv_null =
      load_word-agree behind (store_word behind 0 front) (build_arguments args m)
        (λ b lo hi. store_word-outside (behind + 4) 0 b (store_word behind 0 front) (omega arith))
      ∙ load_word-store_word behind 0 front (omega arith)

  block-envp_null : load_word (behind + 4) (build_arguments args m) ≡ 0
  unfolding build_arguments
  block-envp_null = load_word-store_word (behind + 4) 0 (store_word behind 0 front) (omega arith)

stack_pointer-argc_address : (args : List (List ℕ)) → stack_pointer args ≡ argc_address args
unfolding stack_pointer
stack_pointer-argc_address args = omega arith

-- If the stack that LoadProgram plans has fewer pages than the page table and no byte of an
-- argument is NUL, then in the block that it builds, over any memory, the word at the stack
-- pointer is the number of arguments, the pointers behind it lead to the arguments, in their
-- order, and two NULL pointers follow.
pub build_arguments-Block :
    (args : List (List ℕ)) (m : Bytes)
    → stack_pages args < max_pt_len
    → AllNoNul args
    → Block args (stack_pointer args) (build_arguments args m)
build_arguments-Block args m few clean =
    let fits = stack_pages-Fits args few in
    rw (stack_pointer-argc_address args) record {
      argc = block-argc args m fits;
      argv = λ fuel enough. rw (block-argc args m fits) (
          read_args-ArgsAt fuel (argc_address args + 4) (strings_start args) args _ enough clean
            (block-ArgsAt args m fits));
      argv_null = block-argv_null args m fits;
      envp_null = block-envp_null args m fits;
    }
