-- ===== src/Syscall/Pipe/Bytes.antt =====
-- A pipe is a bounded queue of bytes.
use yalnix_implementation.Base.{
  ℕ, zero, suc, ◌+◌, ◌-◌, ◌≤◌, ◌<◌, ◌≡◌, refl, ap, sym, ◌∙◌, ltb, leb, if◌then◌else◌, Option, some,
  List, [], ◌++◌, length, take, drop, get_elem?, set, arith, get_elem?-set_self, get_elem?-set_ne,
  get_elem?-lt, get_elem?-take, get_elem?-drop, list_ext, length-set, length-append, length-take,
  length-drop, length-replicate, take-append-le, take-append-ge, take-length, drop-length,
  take-take, Bool-cases, Option-cases, ◌⊎◌, inl, inr, replicate,
}
use native.Mathlib.Nat.{add_comm}
use yalnix_implementation.Hardware.{pipe_buffer_len}
use yalnix_implementation.Kernel.{Pipe}
use yalnix_implementation.Syscall.Pipe.Buffer.{shift_loop, clear_front, remove_front, append_bytes}
use yalnix_implementation.Syscall.Pipe.{amount, after_read, room, after_write}

-- the byte at `j` once `n` bytes from `i` on are copied down by `len`
abbrev shifted : ℕ → ℕ → ℕ → ℕ → List ℕ → Option ℕ
shifted n i len j buf =
    if leb i j
    then (if ltb j (i + n) then get_elem? buf (j + len) else get_elem? buf j)
    else get_elem? buf j

trichotomy : (i j : ℕ) → (j < i) ⊎ (i ≡ j) ⊎ (i < j)
trichotomy i j = grind arith

shift_step :
    (n i len j b : ℕ) (buf : List ℕ)
    → i + len + suc n ≤ length buf
    → get_elem? buf (i + len) ≡ some b
    → shifted n (suc i) len j (set buf i b) ≡ shifted (suc n) i len j buf
shift_step n i len j b buf h at = elim (trichotomy i j) [
  | inl lt ↦ ground (arith, get_elem?-set_ne buf i j b)
  | inr (inl e) ↦
      let (c, here) = get_elem?-lt buf i (omega arith) in
      rw (← e) (ground (arith, get_elem?-set_self buf i c b))
  | inr (inr gt) ↦ ground (arith, get_elem?-set_ne buf i j b, get_elem?-set_ne buf i (j + len) b)
]

-- the loop of KernelPipeRead copies a stretch down and leaves every other byte
pub get_elem?-shift_loop :
    (n i len j : ℕ) (buf : List ℕ)
    → i + len + n ≤ length buf
    → get_elem? (shift_loop n i len buf) j ≡ shifted n i len j buf
unfolding shift_loop
get_elem?-shift_loop zero i len j buf h = ground arith
get_elem?-shift_loop (suc n) i len j buf h =
    let (b, at) = get_elem?-lt buf (i + len) (omega arith) in
    rw (at, shift_loop)
      (get_elem?-shift_loop n (suc i) len j (set buf i b) (omega (arith, length-set buf i b))
        ∙ shift_step n i len j b buf h at)

length-shift_loop : (n i len : ℕ) (buf : List ℕ) → length (shift_loop n i len buf) ≡ length buf
unfolding shift_loop
length-shift_loop zero i len buf = refl
length-shift_loop (suc n) i len buf = elim (Option-cases (get_elem? buf (i + len))) [
  | inl e ↦ rw (e, shift_loop)
  | inr (b, e) ↦
      rw (e, shift_loop) (length-shift_loop n (suc i) len (set buf i b) ∙ length-set buf i b)
]

-- what is left of the first `plen` bytes: those behind the first `len`
take-shift_loop :
    (len plen : ℕ) (buf : List ℕ)
    → len ≤ plen
    → plen ≤ length buf
    → take (plen - len) (shift_loop (plen - len) 0 len buf) ≡ drop len (take plen buf)
take-shift_loop len plen buf lo hi = list_ext _ _ λ j. ground (
  arith,
  get_elem?-take (plen - len) j (shift_loop (plen - len) 0 len buf),
  get_elem?-shift_loop (plen - len) 0 len j buf,
  get_elem?-drop len j (take plen buf),
  get_elem?-take plen (len + j) buf,
  ap (get_elem? buf) (add_comm j len),
)

take_none : (n : ℕ) (xs : List ℕ) → n ≡ 0 → take n xs ≡ []
take_none zero xs e = refl
take_none (suc n) xs e = absurd (omega arith)

-- the bytes in the pipe, oldest first
abbrev pub contents : Pipe → List ℕ
contents p = take p.plen p.buf

-- the buffer has its size, and the length of the contents fits
pub record IsPipe (p : Pipe) : Type 0 where
  pub buffer : length p.buf ≡ pipe_buffer_len
  pub fits : p.plen ≤ pipe_buffer_len

pub length-contents : (p : Pipe) → IsPipe p → length (contents p) ≡ p.plen
length-contents p v = omega (arith, length-take p.plen p.buf, v.buffer, v.fits)

-- What a call of KernelPipeRead does to a pipe and hands to the caller.
pub record Reads (len : ℕ) (p : Pipe) : Type 0 where
  pub left : contents (after_read len p) ≡ drop len (contents p)
  pub taken : take (amount len p) p.buf ≡ take len (contents p)
  pub valid : IsPipe (after_read len p)

-- A read from a pipe with a well-formed buffer hands over the oldest bytes, as many as asked for
-- or as there are, leaves the others in their order, and keeps the buffer well-formed.
pub after_read-Reads : (len : ℕ) (p : Pipe) → IsPipe p → Reads len p
unfolding remove_front clear_front
after_read-Reads len p v = elim (Bool-cases (ltb len p.plen)) [
  | inl lt ↦ record {
    left = rw lt (take-shift_loop len p.plen p.buf (ground arith) (omega (arith, v.buffer)));
    taken = rw lt (sym (take-take len p.plen p.buf (ground arith)));
    valid = rw lt (record {
      buffer = length-shift_loop (p.plen - len) 0 len p.buf ∙ v.buffer;
      fits = omega arith;
    });
  }
  | inr ge ↦
      let short : length (contents p) ≤ len = ground (arith, length-contents p v) in
      record {
        left = rw ge (
            take_none (p.plen - p.plen) _ (omega arith) ∙ sym (drop-length len (contents p) short));
        taken = rw ge (sym (take-length len (contents p) short));
        valid = rw ge (record {
          buffer =
              length-append (replicate p.plen 0) (drop p.plen p.buf)
              ∙ omega
                  (arith, length-replicate {A = ℕ} p.plen 0, length-drop p.plen p.buf, v.buffer);
          fits = omega arith;
        });
      }
]

pub length-stored : (bytes : List ℕ) (p : Pipe) → length (take (room bytes p) bytes) ≡ room bytes p
length-stored bytes p = ground (arith, length-take (room bytes p) bytes)

pub take-room :
    (bytes : List ℕ) (p : Pipe) → take (room bytes p) bytes ≡ take (pipe_buffer_len - p.plen) bytes
take-room bytes p = elim (Bool-cases (leb (length bytes) (pipe_buffer_len - p.plen))) [
  | inl fit ↦
      rw fit
        (take-length (length bytes) bytes (omega arith) ∙ sym (take-length _ bytes (ground arith)))
  | inr over ↦ rw over
]

pub take-append_bytes :
    (plen : ℕ) (bytes buf : List ℕ)
    → plen ≤ length buf
    → take (plen + length bytes) (append_bytes plen bytes buf) ≡ take plen buf ++ bytes
unfolding append_bytes
take-append_bytes plen bytes buf h =
    let front : length (take plen buf) ≡ plen = omega (arith, length-take plen buf) in
    take-append-ge (plen + length bytes) (take plen buf) _ (omega arith)
    ∙ ap (λ m. take plen buf ++ take m (bytes ++ drop (plen + length bytes) buf))
        {x = plen + length bytes - length (take plen buf)} {y = length bytes} (omega arith)
    ∙ ap (λ zs. take plen buf ++ zs)
        (take-append-le (length bytes) bytes _ (omega arith)
          ∙ take-length (length bytes) bytes (omega arith))

pub length-append_bytes :
    (plen : ℕ) (bytes buf : List ℕ)
    → plen + length bytes ≤ length buf
    → length (append_bytes plen bytes buf) ≡ length buf
unfolding append_bytes
length-append_bytes plen bytes buf h = omega (
  arith,
  length-append (take plen buf) (bytes ++ drop (plen + length bytes) buf),
  length-append bytes (drop (plen + length bytes) buf),
  length-take plen buf,
  length-drop (plen + length bytes) buf,
)

-- What a call of KernelPipeWrite does to a pipe.
pub record Writes (bytes : List ℕ) (p : Pipe) : Type 0 where
  pub held : contents (after_write bytes p) ≡ take pipe_buffer_len (contents p ++ bytes)
  pub valid : IsPipe (after_write bytes p)

-- A write to a pipe with a well-formed buffer puts its bytes behind those that are there, cut off
-- at the size of the buffer, and keeps the buffer well-formed.
pub after_write-Writes : (bytes : List ℕ) (p : Pipe) → IsPipe p → Writes bytes p
after_write-Writes bytes p v =
    let n : length (take (room bytes p) bytes) ≡ room bytes p = length-stored bytes p in
    let small : p.plen + room bytes p ≤ pipe_buffer_len = ground arith in
    record {
      held =
          ap (λ m. take (p.plen + m) (append_bytes p.plen (take (room bytes p) bytes) p.buf))
            (sym n)
          ∙ take-append_bytes p.plen (take (room bytes p) bytes) p.buf
              (omega (arith, v.buffer, v.fits))
          ∙ ap (λ zs. contents p ++ zs) (take-room bytes p)
          ∙ ap (λ m. contents p ++ take (pipe_buffer_len - m) bytes) (sym (length-contents p v))
          ∙ sym (
              take-append-ge pipe_buffer_len (contents p) bytes
                (omega (arith, length-contents p v, v.fits)));
      valid = record {
        buffer =
            length-append_bytes p.plen (take (room bytes p) bytes) p.buf (omega (arith, v.buffer))
            ∙ v.buffer;
        fits = small;
      };
    }
