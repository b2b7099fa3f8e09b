-- ===== src/Trap/Terminal/Lines.antt =====
-- A terminal's buffer: what TrapTTYReceiveHandler puts into it, and what KernelTtyRead takes out.
use yalnix_implementation.Base.{
  ℕ, zero, suc, ◌+◌, ◌-◌, ◌≤◌, ◌≡◌, refl, ap, sym, ◌∙◌, ltb, if◌then◌else◌, ◌==◌, List, [], ◌∷◌,
  ◌++◌, length, take, drop, replicate, arith, get_elem?-take, get_elem?-drop, list_ext,
  length-append, length-take, length-drop, length-replicate, take-append-le, take-append-ge,
  take-length, take-take, Bool-cases, inl, inr,
}
use yalnix_implementation.Hardware.{terminal_max_line}
use yalnix_implementation.Syscall.Pipe.Buffer.{append_bytes}
use yalnix_implementation.Syscall.Pipe.Bytes.{take-append_bytes, length-append_bytes}
use yalnix_implementation.Syscall.Tty.{line_length, line_amount, move_up}
use yalnix_implementation.Trap.Terminal.{to_copy, fill}

-- the buffer has its size, and what was received fits
pub record IsTerminal (tracked : ℕ) (bs : List ℕ) : Type 0 where
  pub buffer : length bs ≡ terminal_max_line
  pub fits : tracked ≤ terminal_max_line

fill-append_bytes : (t : ℕ) (bytes bs : List ℕ) → fill t bytes bs ≡ append_bytes t bytes bs
unfolding fill append_bytes
fill-append_bytes t bytes bs = refl

-- what the receipt of a line does to a buffer
pub record Receives (bytes : List ℕ) (tracked : ℕ) (bs : List ℕ) : Type 0 where
  pub held :
      take
        (tracked + to_copy tracked (length bytes))
        (fill tracked (take (to_copy tracked (length bytes)) bytes) bs)
      ≡ take terminal_max_line (take tracked bs ++ bytes)
  pub valid :
      IsTerminal
        (tracked + to_copy tracked (length bytes))
        (fill tracked (take (to_copy tracked (length bytes)) bytes) bs)

take-to_copy :
    (t : ℕ) (bytes : List ℕ)
    → take (to_copy t (length bytes)) bytes ≡ take (terminal_max_line - t) bytes
take-to_copy t bytes = elim (Bool-cases (ltb (terminal_max_line - t) (length bytes))) [
  | inl over ↦ rw over
  | inr fit ↦
      rw fit
        (take-length (length bytes) bytes (omega arith) ∙ sym (take-length _ bytes (ground arith)))
]

-- A line that TrapTTYReceiveHandler receives goes, in a well-formed buffer, behind the bytes of
-- the terminal that no process has read, cut off at the size of the buffer, and the buffer stays
-- well-formed.
pub fill-Receives :
    (bytes : List ℕ) (tracked : ℕ) (bs : List ℕ) → IsTerminal tracked bs → Receives bytes tracked bs
fill-Receives bytes t bs v =
    let n = to_copy t (length bytes) in
    let stored : length (take n bytes) ≡ n = ground (arith, length-take n bytes) in
    let small : t + n ≤ terminal_max_line = ground (arith, v.fits) in
    let front : length (take t bs) ≡ t = omega (arith, length-take t bs, v.buffer, v.fits) in
    record {
      held =
          ap (λ m. take (t + m) (fill t (take n bytes) bs)) (sym stored)
          ∙ ap (take (t + length (take n bytes))) (fill-append_bytes t (take n bytes) bs)
          ∙ take-append_bytes t (take n bytes) bs (omega (arith, v.buffer, v.fits))
          ∙ ap (λ zs. take t bs ++ zs) (take-to_copy t bytes)
          ∙ ap (λ m. take t bs ++ take (terminal_max_line - m) bytes) (sym front)
          ∙ sym (take-append-ge terminal_max_line (take t bs) bytes (omega (arith, front, v.fits)));
      valid = record {
        buffer =
            ap length (fill-append_bytes t (take n bytes) bs)
            ∙ length-append_bytes t (take n bytes) bs (omega (arith, stored, small, v.buffer))
            ∙ v.buffer;
        fits = small;
      };
    }

-- the bytes up to the first newline, with it
abbrev pub first_line : List ℕ → List ℕ
first_line [] = []
first_line (b ∷ bs) = if b == 10 then b ∷ [] else b ∷ first_line bs

take-line_length : (t : ℕ) (bs : List ℕ) → take (line_length t bs) bs ≡ first_line (take t bs)
unfolding line_length
take-line_length zero bs = refl
take-line_length (suc t) [] = refl
take-line_length (suc t) (b ∷ bs) = elim (Bool-cases (b == 10)) [
  | inl new ↦ rw new
  | inr other ↦ rw other (ap (λ zs. b ∷ zs) (take-line_length t bs))
]

pub line_length-le : (t : ℕ) (bs : List ℕ) → line_length t bs ≤ t
unfolding line_length
line_length-le zero bs = omega arith
line_length-le (suc t) [] = omega arith
line_length-le (suc t) (b ∷ bs) = ground (arith, line_length-le t bs)

-- what a read of a terminal does to its buffer
pub record TakesLine (len tracked : ℕ) (bs : List ℕ) : Type 0 where
  pub line : take (line_amount len tracked bs) bs ≡ take len (first_line (take tracked bs))
  pub rest :
      take (tracked - line_amount len tracked bs) (move_up (line_amount len tracked bs) tracked bs)
      ≡ drop (line_amount len tracked bs) (take tracked bs)
  pub valid :
      IsTerminal
        (tracked - line_amount len tracked bs)
        (move_up (line_amount len tracked bs) tracked bs)

taken_line :
    (len t : ℕ) (bs : List ℕ) → take (line_amount len t bs) bs ≡ take len (first_line (take t bs))
taken_line len t bs = elim (Bool-cases (ltb len (line_length t bs))) [
  | inl cut ↦ rw cut (
      sym (take-take len (line_length t bs) bs (ground arith))
      ∙ ap (take len) (take-line_length t bs))
  | inr whole ↦ rw whole (
      sym (
        take-length len (take (line_length t bs) bs)
          (ground (arith, length-take (line_length t bs) bs)))
      ∙ ap (take len) (take-line_length t bs))
]

take-drop : (n t : ℕ) (bs : List ℕ) → n ≤ t → take (t - n) (drop n bs) ≡ drop n (take t bs)
take-drop n t bs h = list_ext _ _ λ j. ground (
  arith,
  get_elem?-take (t - n) j (drop n bs),
  get_elem?-drop n j bs,
  get_elem?-drop n j (take t bs),
  get_elem?-take t (n + j) bs,
)

module _ (n t : ℕ) (bs : List ℕ) (lo : n ≤ t) (hi : t ≤ length bs) where
  length-saved : length (take (t - n) (drop n bs)) ≡ t - n
  length-saved = omega (arith, length-take (t - n) (drop n bs), length-drop n bs)

  take-move_up : take (t - n) (move_up n t bs) ≡ drop n (take t bs)
  unfolding move_up
  take-move_up =
      take-append-le (t - n) (take (t - n) (drop n bs)) _ (omega (arith, length-saved))
      ∙ take-length (t - n) (take (t - n) (drop n bs)) (omega (arith, length-saved))
      ∙ take-drop n t bs lo

  length-move_up : length (move_up n t bs) ≡ length bs
  unfolding move_up
  length-move_up =
      let saved = take (t - n) (drop n bs) in
      let cleared = replicate t 0 ++ drop t bs in
      omega (
        arith,
        length-append saved (drop (length saved) cleared),
        length-drop (length saved) cleared,
        length-append (replicate t 0) (drop t bs),
        length-replicate {A = ℕ} t 0,
        length-drop t bs,
        length-saved,
      )

-- A read of a terminal with a well-formed buffer takes the first line of the bytes received, as
-- many bytes of it as asked for at most, leaves the others in their order, and the buffer stays
-- well-formed.
pub move_up-TakesLine :
    (len tracked : ℕ) (bs : List ℕ) → IsTerminal tracked bs → TakesLine len tracked bs
move_up-TakesLine len t bs v =
    let n = line_amount len t bs in
    let lo : n ≤ t = ground (arith, line_length-le t bs) in
    let hi : t ≤ length bs = omega (arith, v.buffer, v.fits) in
    record {
      line = taken_line len t bs;
      rest = take-move_up n t bs lo hi;
      valid = record {
        buffer = length-move_up n t bs lo hi ∙ v.buffer;
        fits = omega (arith, v.fits);
      };
    }
