-- ===== src/Load/ArgumentBytes.antt =====
-- LoadProgram's argument block: which bytes each write changes, and what can be read behind it.
use yalnix_implementation.Base.{
  ℕ, ◌+◌, ◌*◌, ◌^◌, ◌≤◌, ◌<◌, ◌≡◌, refl, ◌∙◌, ◌⊎◌, List, [], ◌∷◌, length, arith,
}
use yalnix_implementation.Load.Image.{args_size}
use yalnix_implementation.Load.Arguments.{Bytes, store_word, store_string, copy_args}

-- `*(unsigned *)a`
unfoldable pub load_word : ℕ → Bytes → ℕ
load_word a m = m a + 256 * m (a + 1) + 65536 * m (a + 2) + 16777216 * m (a + 3)

pub store_word-outside : (a v b : ℕ) (m : Bytes) → (b < a) ⊎ (a + 4 ≤ b) → store_word a v m b ≡ m b
unfolding store_word
store_word-outside a v b m out = ground arith

pub load_word-store_word : (a v : ℕ) (m : Bytes) → v < 2 ^ 32 → load_word a (store_word a v m) ≡ v
unfolding store_word load_word
load_word-store_word a v m small = ground arith

pub load_word-agree :
    (a : ℕ) (m m' : Bytes)
    → ((b : ℕ) → a ≤ b → b < a + 4 → m' b ≡ m b)
    → load_word a m' ≡ load_word a m
unfolding load_word
load_word-agree a m m' same = ground (
  arith,
  same a (omega arith) (omega arith),
  same (a + 1) (omega arith) (omega arith),
  same (a + 2) (omega arith) (omega arith),
  same (a + 3) (omega arith) (omega arith),
)

pub store_string-outside :
    (a b : ℕ) (s : List ℕ) (m : Bytes) → (b < a) ⊎ (a + length s < b) → store_string a s m b ≡ m b
unfolding store_string
store_string-outside a b [] m out = ground arith
store_string-outside a b (c ∷ s) m out =
    store_string-outside (a + 1) b s _ (omega arith) ∙ ground arith

-- the string, with its NUL, stands at the address
abbrev pub StringAt : List ℕ → ℕ → Bytes → Type 0
StringAt [] a m = m a ≡ 0
StringAt (c ∷ s) a m = (m a ≡ c) × StringAt s (a + 1) m

pub store_string-StringAt : (a : ℕ) (s : List ℕ) (m : Bytes) → StringAt s a (store_string a s m)
unfolding store_string
store_string-StringAt a [] m = ground arith
store_string-StringAt a (c ∷ s) m = (
  store_string-outside (a + 1) a s _ (omega arith) ∙ ground arith,
  store_string-StringAt (a + 1) s _,
)

pub StringAt-agree :
    (s : List ℕ) (a : ℕ) (m m' : Bytes)
    → ((b : ℕ) → a ≤ b → b ≤ a + length s → m' b ≡ m b)
    → StringAt s a m
    → StringAt s a m'
StringAt-agree [] a m m' same at = same a (omega arith) (omega arith) ∙ at
StringAt-agree (c ∷ s) a m m' same (here, rest) = (
  same a (omega arith) (omega arith) ∙ here,
  StringAt-agree s (a + 1) m m' (λ b lo hi. same b (omega arith) (omega arith)) rest,
)

-- the pointers from `cpp` on lead to the strings, which stand one behind the other from `cp` on
abbrev pub ArgsAt : List (List ℕ) → ℕ → ℕ → Bytes → Type 0
ArgsAt [] cpp cp m = Unit
ArgsAt (s ∷ ss) cpp cp m =
    (load_word cpp m ≡ cp) × StringAt s cp m × ArgsAt ss (cpp + 4) (cp + (length s + 1)) m

pub ArgsAt-agree :
    (ss : List (List ℕ)) (cpp cp : ℕ) (m m' : Bytes)
    → ((b : ℕ) → cpp ≤ b → b < cpp + length ss * 4 → m' b ≡ m b)
    → ((b : ℕ) → cp ≤ b → b < cp + args_size ss → m' b ≡ m b)
    → ArgsAt ss cpp cp m
    → ArgsAt ss cpp cp m'
ArgsAt-agree [] cpp cp m m' words bytes at = tt
ArgsAt-agree (s ∷ ss) cpp cp m m' words bytes (pointer, string, rest) = (
  load_word-agree cpp m m' (λ b lo hi. words b lo (omega arith)) ∙ pointer,
  StringAt-agree s cp m m' (λ b lo hi. bytes b lo (omega arith)) string,
  ArgsAt-agree ss (cpp + 4) (cp + (length s + 1)) m m'
      (λ b lo hi. words b (omega arith) (omega arith))
      (λ b lo hi. bytes b (omega arith) (omega arith)) rest,
)

pub copy_args-outside :
    (cpp cp b : ℕ) (ss : List (List ℕ)) (m : Bytes)
    → (b < cpp) ⊎ (cpp + length ss * 4 ≤ b)
    → (b < cp) ⊎ (cp + args_size ss ≤ b)
    → copy_args cpp cp ss m b ≡ m b
unfolding copy_args
copy_args-outside cpp cp b [] m words bytes = refl
copy_args-outside cpp cp b (s ∷ ss) m words bytes =
    copy_args-outside (cpp + 4) (cp + (length s + 1)) b ss _ (omega arith) (omega arith)
    ∙ store_string-outside cp b s _ (omega arith)
    ∙ store_word-outside cpp cp b m (omega arith)

-- Where the pointers end below the strings, the loop leaves each argument where its pointer says.
pub copy_args-ArgsAt :
    (cpp cp : ℕ) (ss : List (List ℕ)) (m : Bytes)
    → cpp + length ss * 4 ≤ cp
    → cp + args_size ss ≤ 2 ^ 32
    → ArgsAt ss cpp cp (copy_args cpp cp ss m)
unfolding copy_args
copy_args-ArgsAt cpp cp [] m below fits = tt
copy_args-ArgsAt cpp cp (s ∷ ss) m below fits =
    let written = store_string cp s (store_word cpp cp m) in
    (
      load_word-agree cpp (store_word cpp cp m) _ (λ b lo hi.
            copy_args-outside (cpp + 4) (cp + (length s + 1)) b ss written (omega arith)
              (omega arith)
            ∙ store_string-outside cp b s _ (omega arith))
          ∙ load_word-store_word cpp cp m (omega arith),
      StringAt-agree s cp written _
          (λ b lo hi.
            copy_args-outside (cpp + 4) (cp + (length s + 1)) b ss written (omega arith)
              (omega arith))
          (store_string-StringAt cp s _),
      copy_args-ArgsAt (cpp + 4) (cp + (length s + 1)) ss written (omega arith) (omega arith),
    )
