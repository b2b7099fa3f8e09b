-- ===== src/Trap/Terminal/Quiet.antt =====
-- A terminal that no process waits at, as a queue of bytes: the calls, and the state behind each.
use yalnix_implementation.Base.{
  ℕ, zero, suc, ◌+◌, ◌-◌, ◌<◌, ◌==◌, ◌≡◌, refl, ltb, if◌then◌else◌, true, false, Option, none, some,
  List, [], ◌∷◌, ◌++◌, pos, length, take, drop, arith,
}
use yalnix_implementation.Hardware.{Ptr, num_terminals, terminal_max_line}
use yalnix_implementation.Kernel.{
  Kernel, tty_read, M, pure, ◌>>=◌, ok, put, Output, bytes_at, Outcome, returns,
}
use yalnix_implementation.Syscall.Answering.{Service}
use yalnix_implementation.Syscall.Tty.{
  starts_empty, line_amount, move_up, tty_take, kernel_tty_read,
}
use yalnix_implementation.Trap.Terminal.{to_copy, fill, trap_tty_receive_handler}
use yalnix_implementation.Trap.Terminal.Lines.{IsTerminal, first_line}

-- the interrupt of a line, and a call of KernelTtyRead
pub data Call : Type 0 where
  receive : List ℕ → Call
  read : ℕ → Call

-- `nothing` is the answer to a read of no bytes
pub data Answer : Type 0 where
  received : Answer
  nothing : Answer
  got : List ℕ → Answer

abbrev pub next_line : ℕ → List ℕ → List ℕ
next_line n q = take n (first_line q)

-- `none` is a read that waits
abbrev pub answer : List ℕ → Call → Option (Answer × List ℕ)
answer q (receive bytes) = some (received, take terminal_max_line (q ++ bytes))
answer q (read n) =
    if n == 0
    then some (nothing, q)
    else if starts_empty q
    then none
    else some (got (next_line n q), drop (length (next_line n q)) q)

abbrev pub call : ℕ → Ptr → Call → M Outcome
call tty buf (receive bytes) = trap_tty_receive_handler tty bytes >>= λ _. pure (returns (pos 0))
call tty buf (read n) = kernel_tty_read (pos tty) buf (pos n)

abbrev pub value : Answer → Outcome
value received = returns (pos 0)
value nothing = returns (pos 0)
value (got bytes) = returns (pos (length bytes))

abbrev pub handed : Ptr → Answer → List Output → List Output
handed buf (got bytes) outs = bytes_at buf bytes ∷ outs
handed buf received outs = outs
handed buf nothing outs = outs

-- a terminal as a queue of bytes
abbrev pub terminal_service : ℕ → Ptr → Service Call Answer (List ℕ)
terminal_service tty buf = record {
  answer = answer;
  call = call tty buf;
  value = value;
  handed = handed buf;
}

-- The terminal holds the bytes `q`, and nobody waits at it; nothing has changed but the buffers, how
-- much of them is in use, and the outputs.
pub record Holding (k0 : Kernel) (tty : ℕ) (outs : List Output) (q : List ℕ) (k : Kernel)
    : Type 0 where
  pub valid : IsTerminal (k.tty_read_trackers tty) (k.tty_read_buffers tty)
  pub held : take (k.tty_read_trackers tty) (k.tty_read_buffers tty) ≡ q
  pub clean : starts_empty (k.tty_read_buffers tty) ≡ starts_empty q
  pub nobody : k.queues (tty_read tty) ≡ []
  pub written : k.outputs ≡ outs
  pub rest_same : k ≡ record k0 {
    tty_read_buffers = k.tty_read_buffers;
    tty_read_trackers = k.tty_read_trackers;
    outputs = k.outputs;
  }

-- whether a buffer starts with a NUL, read from its first bytes
pub starts_empty-take : (n : ℕ) (bs : List ℕ) → 0 < n → starts_empty (take n bs) ≡ starts_empty bs
starts_empty-take zero bs h = absurd (omega arith)
starts_empty-take (suc n) [] h = refl
starts_empty-take (suc n) (b ∷ bs) h = refl

pub fill_none : (t : ℕ) (xs bs : List ℕ) → t + length xs ≡ 0 → fill t xs bs ≡ bs
unfolding fill
fill_none zero [] bs e = refl
fill_none zero (x ∷ xs) bs e = absurd (omega arith)
fill_none (suc t) xs bs e = absurd (omega arith)

pub move_up_all : (n t : ℕ) (bs : List ℕ) → t - n ≡ 0 → 0 < t → starts_empty (move_up n t bs) ≡ true
unfolding move_up
move_up_all n zero bs none_left some_held = absurd (omega arith)
move_up_all n (suc t) bs none_left some_held = rw none_left refl

-- the state behind the interrupt, and behind a read
abbrev pub after_receive : Kernel → ℕ → List ℕ → Kernel
after_receive k tty bytes =
    let t = k.tty_read_trackers tty in
    let n = to_copy t (length bytes) in
    record k {
      tty_read_buffers =
          put k.tty_read_buffers tty (fill t (take n bytes) (k.tty_read_buffers tty));
      tty_read_trackers = put k.tty_read_trackers tty (t + n);
    }

abbrev pub after_line : Kernel → ℕ → Ptr → ℕ → Kernel
after_line k tty buf len =
    let t = k.tty_read_trackers tty in
    let bs = k.tty_read_buffers tty in
    let n = line_amount len t bs in
    record k {
      tty_read_buffers = put k.tty_read_buffers tty (move_up n t bs);
      tty_read_trackers = put k.tty_read_trackers tty (t - n);
      outputs = bytes_at buf (take n bs) ∷ k.outputs;
    }

module _ (k : Kernel) (tty : ℕ) (real : ltb tty num_terminals ≡ true)
    (nobody : k.queues (tty_read tty) ≡ []) where
  pub trap_tty_receive_handler-quiet :
      (bytes : List ℕ) → trap_tty_receive_handler tty bytes k ≡ ok tt (after_receive k tty bytes)
  unfolding trap_tty_receive_handler
  trap_tty_receive_handler-quiet bytes = ground arith

  pub call-receive :
      (buf : Ptr) (bytes : List ℕ)
      → call tty buf (receive bytes) k ≡ ok (returns (pos 0)) (after_receive k tty bytes)
  call-receive buf bytes = ground (arith, trap_tty_receive_handler-quiet bytes)

  pub kernel_tty_read-quiet :
      (buf : Ptr) (len : ℕ)
      → (len == 0) ≡ false
      → starts_empty (k.tty_read_buffers tty) ≡ false
      → kernel_tty_read (pos tty) buf (pos len) k
        ≡ ok
            (returns (pos (line_amount len (k.tty_read_trackers tty) (k.tty_read_buffers tty))))
            (after_line k tty buf len)
  unfolding kernel_tty_read tty_take
  kernel_tty_read-quiet buf len some_asked some_there = ground arith

  pub kernel_tty_read-zero :
      (buf : Ptr) → kernel_tty_read (pos tty) buf (pos 0) k ≡ ok (returns (pos 0)) k
  unfolding kernel_tty_read
  kernel_tty_read-zero buf = ground arith
