-- ===== src/Boot/Bootable.antt =====
-- KernelStart: what it needs so that both programs load.
use yalnix_implementation.Base.{
  ℕ, suc, ◌+◌, ◌-◌, ◌/◌, ◌≤◌, ◌≡◌, ◌≢◌, refl, ◌==◌, some, List, [], ◌∷◌, get_elem?, arith, true,
  false, length,
}
use yalnix_implementation.Hardware.{Pte, null, UserContext, invalid_frame, page_size}
use yalnix_implementation.Frames.Mapping.{AllLive}
use yalnix_implementation.Kernel.{Kernel}
use yalnix_implementation.ContextSwitch.{find_reserved, invalid_at}
use yalnix_implementation.Load.Image.{LoadInfo, File, executable}
use yalnix_implementation.Load.ThrowAway.{HasRoom}
use yalnix_implementation.Load.Fresh.{Fitting, frames_for}
use yalnix_implementation.Boot.Start.{Sizes, idle_name, prog_name, idle_args}
use yalnix_implementation.Boot.Launch.{Ordered}

-- the highest page below the kernel's stack is the reserved one
pub reserved_page :
    (pt : List Pte) (e f : Pte)
    → get_elem? pt 126 ≡ some e
    → get_elem? pt 125 ≡ some f
    → (e.valid == invalid_frame) ≡ false
    → (f.valid == invalid_frame) ≡ true
    → find_reserved 126 pt ≡ some 125
unfolding find_reserved invalid_at
reserved_page pt e f at1 at2 used free = ground arith

-- a free list of two frames at least
pub two_frames :
    (n : ℕ) (l : List ℕ)
    → AllLive l
    → 2 + n ≤ length l
    → (f : ℕ) × (g : ℕ) × (fs : List ℕ) × (l ≡ f ∷ g ∷ fs)
      × (f ≢ 0)
      × (g ≢ 0)
      × AllLive fs
      × (n ≤ length fs)
two_frames n [] live h = absurd (omega arith)
two_frames n (f ∷ []) live h = absurd (omega arith)
two_frames n (f ∷ g ∷ fs) (a, (b, c)) h = (f, g, fs, refl, a, b, c, omega arith)

-- What KernelStart needs: that it is the first code to run, room for its objects, two files that load, and frames for
-- both programs and a kernel stack.
pub record Bootable (z : Sizes) (k : Kernel) (u : UserContext) (file_at : List ℕ → File)
    (beyond cmd_args : List (List ℕ)) (il pl : LoadInfo) : Type 0 where
  pub sizes : Ordered z
  pub alone : k.active_pcb ≡ null
  pub context : k.uctxt k.active_pcb ≡ some u
  pub room : HasRoom k.memory
  pub apart : k.memory.malloc (3 + k.memory.mallocs) ≢ k.memory.malloc (5 + k.memory.mallocs)
  pub first_pid : k.new_pid k.pids ≡ 0
  pub next_pid : k.new_pid (suc k.pids) ≢ 0
  pub idle_file : file_at idle_name ≡ executable il true true
  pub prog_file : file_at (prog_name cmd_args) ≡ executable pl true true
  pub idle_fits : Fitting il (idle_args beyond cmd_args)
  pub prog_fits : Fitting pl cmd_args
  pub enough :
      frames_for il (idle_args beyond cmd_args) + frames_for pl cmd_args + 2
      ≤ z.pmem_size / page_size - 128
