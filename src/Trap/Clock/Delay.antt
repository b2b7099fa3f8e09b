-- ===== src/Trap/Clock/Delay.antt =====
-- How long a delay lasts: CheckBlocked counts the ticks of a delayed process down.
use yalnix_implementation.Base.{ℕ, zero, suc, ◌-◌, ◌≤◌, ◌<◌, ◌≡◌, some, Bool, pos, arith}
use yalnix_implementation.Kernel.{Pcb, ready, blocked, not_blocked, blocked_delay}
use yalnix_implementation.Trap.Clock.{check_pcb}

-- the process after `n` looks; the terminals may be open or closed at each
unfoldable pub looks : ℕ → (ℕ → Bool) → Pcb → Pcb
looks zero tty p = p
looks (suc n) tty p = (check_pcb (tty n) (looks n tty p)).1

looks_left :
    (j n : ℕ) (tty : ℕ → Bool) (p : Pcb)
    → p.blocked_code ≡ blocked_delay
    → p.clock_ticks ≡ pos n
    → j ≤ n
    → looks j tty p ≡ record p { clock_ticks = pos (n - j) }
unfolding looks check_pcb
looks_left zero n tty p delayed ticks h = ground arith
looks_left (suc j) n tty p delayed ticks h = ground (arith, looks_left j n tty p delayed ticks)

-- A process that asked for a delay of n ticks stays blocked for n looks of the clock handler,
-- whatever the terminals do, and the next look makes it ready.
pub delay_lasts :
    (n j : ℕ) (tty : ℕ → Bool) (p : Pcb)
    → p.blocked_code ≡ blocked_delay
    → p.clock_ticks ≡ pos n
    → j < n
    → ((check_pcb (tty j) (looks j tty p)).0 ≡ some blocked)
      × ((check_pcb (tty n) (looks n tty p)).0 ≡ some ready)
      × ((looks (suc n) tty p).blocked_code ≡ not_blocked)
unfolding looks check_pcb
delay_lasts n j tty p delayed ticks h =
    ground (arith, looks_left j n tty p delayed ticks, looks_left n n tty p delayed ticks)
