-- ===== src/Load/Arguments.antt =====
-- LoadProgram's last part: argc, argv and the strings on the new stack. The memory is a byte for each
-- address; a pointer has four bytes, the lowest first.
use yalnix_implementation.Base.{
  ℕ, zero, suc, ◌+◌, ◌*◌, ◌/◌, ◌%◌, ◌==◌, ltb, leb, if◌then◌else◌, ◌&&◌, List, [], ◌∷◌, length,
}
use yalnix_implementation.Hardware.{vmem_1_limit}
use yalnix_implementation.Load.Image.{strings_start, argc_address}

abbrev pub Bytes : Type 0
Bytes = ℕ → ℕ

abbrev pub poke : Bytes → ℕ → ℕ → Bytes
poke m a v b = if b == a then v else m b

-- `*(char **)a = v`
unfoldable pub store_word : ℕ → ℕ → Bytes → Bytes
store_word a v m =
    poke (poke (poke (poke m a (v % 256)) (a + 1) (v / 256 % 256)) (a + 2) (v / 65536 % 256))
      (a + 3) (v / 16777216 % 256)

-- `strcpy(a, s)`, with the NUL
unfoldable pub store_string : ℕ → List ℕ → Bytes → Bytes
store_string a [] m = poke m a 0
store_string a (b ∷ s) m = store_string (a + 1) s (poke m a b)

-- `memset(a, 0, limit - a)`
unfoldable pub clear_above : ℕ → Bytes → Bytes
clear_above a m b = if leb a b && ltb b vmem_1_limit then 0 else m b

-- The loop: for each argument a pointer at `cpp` and a copy at `cp`, then both move on.
unfoldable pub copy_args : ℕ → ℕ → List (List ℕ) → Bytes → Bytes
copy_args cpp cp [] m = m
copy_args cpp cp (s ∷ ss) m =
    copy_args (cpp + 4) (cp + (length s + 1)) ss (store_string cp s (store_word cpp cp m))

unfoldable pub build_arguments : List (List ℕ) → Bytes → Bytes
unfolding copy_args clear_above store_word
build_arguments args m =
    let cpp = argc_address args in
    let copied =
      copy_args (cpp + 4) (strings_start args) args
        (store_word cpp (length args) (clear_above cpp m)) in
    store_word (cpp + 4 + length args * 4 + 4) 0 (store_word (cpp + 4 + length args * 4) 0 copied)

-- `n` bytes from `a` on
unfoldable pub bytes_from : ℕ → ℕ → Bytes → List ℕ
bytes_from zero a m = []
bytes_from (suc n) a m = m a ∷ bytes_from n (a + 1) m
