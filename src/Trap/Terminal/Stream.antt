-- ===== src/Trap/Terminal/Stream.antt =====
-- TrapTTYReceiveHandler and KernelTtyRead on a terminal that no process waits at, against a queue of
-- bytes.
use mathlib.Core.Path.{subst}
use yalnix_implementation.Base.{
  ℕ, zero, suc, ◌+◌, ◌-◌, ◌≤◌, ◌==◌, ◌≡◌, refl, sym, ap, ◌∙◌, ltb, true, false, Bool-cases, some,
  List, ◌∷◌, ◌++◌, pos, length, take, drop, arith, inl, inr, length-take, ==-refl, ==→eq,
}
use yalnix_implementation.Hardware.{Ptr, num_terminals, terminal_max_line}
use yalnix_implementation.Kernel.{Kernel, Ends, ends, Output, bytes_at, returns}
use yalnix_implementation.Syscall.Answering.{
  answers, calls, values, all_handed, Promise, Promises, calls-answers,
}
use yalnix_implementation.Syscall.Tty.{starts_empty, line_amount, move_up}
use yalnix_implementation.Trap.Terminal.{to_copy, fill}
use yalnix_implementation.Trap.Terminal.Lines.{line_length-le, fill-Receives, move_up-TakesLine}
use yalnix_implementation.Trap.Terminal.Quiet.{
  Call, receive, read, Answer, next_line, answer, call, terminal_service, Holding,
  starts_empty-take, fill_none, move_up_all, after_receive, after_line, call-receive,
  kernel_tty_read-quiet, kernel_tty_read-zero,
}

starts_empty-prefix :
    (t : ℕ) (bs q : List ℕ)
    → take t bs ≡ q
    → (t ≡ 0 → starts_empty bs ≡ true)
    → starts_empty bs ≡ starts_empty q
starts_empty-prefix zero bs q e when_none = when_none refl ∙ ap starts_empty e
starts_empty-prefix (suc t) bs q e when_none =
    sym (starts_empty-take (suc t) bs (omega arith)) ∙ ap starts_empty e

taken_of_prefix : (t : ℕ) (bs q : List ℕ) → take t bs ≡ q → t ≡ 0 → starts_empty q ≡ true
taken_of_prefix zero bs q e none_left = ap starts_empty (sym e)
taken_of_prefix (suc t) bs q e none_left = absurd (omega arith)

line_amount-le : (len t : ℕ) (bs : List ℕ) → line_amount len t bs ≤ t
line_amount-le len t bs = ground (arith, line_length-le t bs)

module _ (k0 k : Kernel) (tty : ℕ) (buf : Ptr) (outs : List Output) (q : List ℕ)
    (h : Holding k0 tty outs q k) (real : ltb tty num_terminals ≡ true) where
  abbrev t : ℕ
  t = k.tty_read_trackers tty

  abbrev bs : List ℕ
  bs = k.tty_read_buffers tty

  receive-Holding :
      (bytes : List ℕ)
      → Holding k0 tty outs (take terminal_max_line (q ++ bytes)) (after_receive k tty bytes)
  receive-Holding bytes =
      let n = to_copy t (length bytes) in
      let r = fill-Receives bytes t bs h.valid in
      let held : take (t + n) (fill t (take n bytes) bs) ≡ take terminal_max_line (q ++ bytes) =
        r.held ∙ ap (λ l. take terminal_max_line (l ++ bytes)) h.held in
      let stored : length (take n bytes) ≤ n = omega (arith, length-take n bytes) in
      record {
        valid = rw (==-refl tty) r.valid;
        held = rw (==-refl tty) held;
        clean = rw (==-refl tty) (
            starts_empty-prefix (t + n) (fill t (take n bytes) bs) _ held λ none_left.
              ap starts_empty (fill_none t (take n bytes) bs (omega arith))
              ∙ h.clean
              ∙ taken_of_prefix t bs q h.held (omega arith));
        nobody = h.nobody;
        written = h.written;
        rest_same =
            ap
              (λ (j : Kernel). record j {
                tty_read_buffers = (after_receive k tty bytes).tty_read_buffers;
                tty_read_trackers = (after_receive k tty bytes).tty_read_trackers;
                outputs = (after_receive k tty bytes).outputs;
              })
              h.rest_same;
      }

  line-Holding :
      (len : ℕ)
      → starts_empty q ≡ false
      → Holding k0 tty
          (bytes_at buf (next_line len q) ∷ outs)
          (drop (length (next_line len q)) q)
          (after_line k tty buf len)
  line-Holding len some_there =
      let n = line_amount len t bs in
      let r = move_up-TakesLine len t bs h.valid in
      let line : take n bs ≡ next_line len q = r.line ∙ ap (next_line len) h.held in
      let size : n ≡ length (next_line len q) =
        omega (arith, length-take n bs, line_amount-le len t bs, h.valid.buffer, h.valid.fits)
        ∙ ap length line in
      let held : take (t - n) (move_up n t bs) ≡ drop (length (next_line len q)) q =
        r.rest ∙ ap (drop n) h.held ∙ ap (λ m. drop m q) size in
      record {
        valid = rw (==-refl tty) r.valid;
        held = rw (==-refl tty) held;
        clean = rw (==-refl tty) (
            starts_empty-prefix (t - n) (move_up n t bs) _ held λ none_left.
              move_up_all n t bs none_left (ground (arith, taken_of_prefix t bs q h.held)));
        nobody = h.nobody;
        written =
            ap (λ l. bytes_at buf l ∷ k.outputs) line
            ∙ ap (λ o. bytes_at buf (next_line len q) ∷ o) h.written;
        rest_same =
            ap
              (λ (j : Kernel). record j {
                tty_read_buffers = (after_line k tty buf len).tty_read_buffers;
                tty_read_trackers = (after_line k tty buf len).tty_read_trackers;
                outputs = (after_line k tty buf len).outputs;
              })
              h.rest_same;
      }

  call-Answers :
      (cl : Call)
      → Promise (terminal_service tty buf) (Holding k0 tty) outs (answer q cl) (call tty buf cl k)
  call-Answers (receive bytes) =
      subst
        (Ends λ o k'.
          (o ≡ returns (pos 0)) × Holding k0 tty outs (take terminal_max_line (q ++ bytes)) k')
        (sym (call-receive k tty real h.nobody buf bytes)) (ends (refl, receive-Holding bytes))
  call-Answers (read n) = elim (Bool-cases (n == 0)) [
    | inl none_asked ↦ rw none_asked (
        rw (==→eq n 0 none_asked)
          (rw (kernel_tty_read-zero k tty real h.nobody buf) (ends (refl, h))))
    | inr some_asked ↦ elim (Bool-cases (starts_empty q)) [
      | inl waits ↦ rw some_asked (rw waits tt)
      | inr some_there ↦
          let line = (move_up-TakesLine n t bs h.valid).line ∙ ap (next_line n) h.held in
          let size : line_amount n t bs ≡ length (next_line n q) =
            omega (
              arith,
              length-take (line_amount n t bs) bs,
              line_amount-le n t bs,
              h.valid.buffer,
              h.valid.fits,
            )
            ∙ ap length line in
          rw some_asked (
            rw some_there (
              rw (kernel_tty_read-quiet k tty real h.nobody buf n some_asked (h.clean ∙ some_there))
                (ends (ap (λ m. returns (pos m)) size, line-Holding n some_there))))
    ]
  ]

-- On one of the four terminals, with a well-formed buffer that starts with a NUL if it holds no
-- bytes, and no process waiting to read, whatever interrupts of TrapTTYReceiveHandler and calls of
-- KernelTtyRead follow one another, where no read finds the terminal without bytes or with a NUL
-- first, they answer as a queue of at most 1024 bytes does: a line goes behind the bytes that no
-- process has read, cut off at the size of the buffer, a read takes the first line, as many bytes
-- of it as asked for at most, and hands them over, a read of no bytes changes nothing, and at the
-- end the terminal holds the bytes that the queue does.
pub calls-Received :
    (k : Kernel) (tty : ℕ) (buf : Ptr) (cs : List Call) (as' : List Answer) (q q' : List ℕ)
    → ltb tty num_terminals ≡ true
    → Holding k tty k.outputs q k
    → answers (terminal_service tty buf) q cs ≡ some (as', q')
    → Ends
        (λ os k'.
          (os ≡ values (terminal_service tty buf) as')
          × Holding k tty (all_handed (terminal_service tty buf) as' k.outputs) q' k')
        (calls (terminal_service tty buf) cs k)
calls-Received k tty buf cs as' q q' real h all =
    let s = terminal_service tty buf in
    subst (λ o. Promises s (Holding k tty) k.outputs o (calls s cs k)) all
      (calls-answers s (Holding k tty)
        (λ outs r j cl held. call-Answers k j tty buf outs r held real cl) cs k.outputs q k h)
