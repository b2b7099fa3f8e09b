-- ===== src/Trap/Clock/RoundRobin.antt =====
-- Clock ticks, one behind the other: each ready process gets the processor.
use mathlib.Core.Path.{subst}
use mathlib.Core.List.{append_assoc}
use yalnix_implementation.Base.{
  ℕ, zero, suc, ◌≡◌, ◌≢◌, refl, sym, ap, ◌∙◌, some, List, [], ◌∷◌, ◌++◌, length,
}
use yalnix_implementation.Hardware.{Ptr, null}
use yalnix_implementation.Kernel.{
  Kernel, QueueId, ready, blocked, ok, M, ◌>>=◌, Ends, ends, Ends-mono, Ends-bind, Outcome,
}
use yalnix_implementation.Process.{swap_process, swap_return}
use yalnix_implementation.Process.Runnable.{
  Runnable, AllRunnable, Fair, Kept, Kept-Runnable, Kept-AllRunnable, AllRunnable-append, Rotated,
  swap_process-Rotated, Resumed, swap_return-Resumed,
}
use yalnix_implementation.Trap.Clock.{clock_loop, clock_rest, trap_clock_handler, trap_clock_return}
use yalnix_implementation.Trap.Clock.Waking.{Woken, clock_loop-Woken}

-- One tick: the clock handler of the running process up to its switch, and then what is left of the
-- handler that the next process was in when a tick took the processor from it.
abbrev pub tick : M Outcome
tick = trap_clock_handler >>= λ _. trap_clock_return

abbrev pub ticks : ℕ → M (Unit {0})
ticks zero k = ok tt k
ticks (suc n) k = (tick >>= λ _. ticks n) k

-- what a tick does to the line of ready processes
record Turn (k : Kernel) (i : ℕ) (n : Ptr) (rest : List Ptr) (k' : Kernel) : Type 0 where
  runs : k'.active_pcb ≡ n
  more : List Ptr
  line : k'.queues ready ≡ rest ++ (k.active_pcb ∷ more)
  fair : Fair k' i

Fair-again :
    (k k' : Kernel) (i : ℕ)
    → Fair k i
    → Kept k k'
    → Runnable k' i k'.active_pcb
    → AllRunnable k' i (k'.queues ready)
    → AllRunnable k' i (k'.queues blocked)
    → Fair k' i
Fair-again k k' i f kept running waiting sleeping =
    let (idle, at, same) = kept.ids k.idle_pcb f.idle f.idle_at in
    record {
      idle_live = subst (λ a. a ≢ null) (sym kept.same_idle) f.idle_live;
      idle = idle;
      idle_at = ap k'.pcbs kept.same_idle ∙ at;
      idle_named = same ∙ f.idle_named;
      running = running;
      waiting = waiting;
      sleeping = sleeping;
      room = λ c none_left. f.room c (sym (ap (λ (m : ℕ → Ptr). m c) kept.same_malloc) ∙ none_left);
    }

abbrev counted : Kernel → Kernel
counted k = record k { global_clock_ticks = suc k.global_clock_ticks }

AllRunnable-counted :
    (k : Kernel) (i : ℕ) (xs : List Ptr) → AllRunnable k i xs → AllRunnable (counted k) i xs
AllRunnable-counted k i [] all = tt
AllRunnable-counted k i (x ∷ xs) (r, all) = (r, AllRunnable-counted k i xs all)

Fair-counted : (k : Kernel) (i : ℕ) → Fair k i → Fair (counted k) i
Fair-counted k i f = record {
  idle_live = f.idle_live;
  idle = f.idle;
  idle_at = f.idle_at;
  idle_named = f.idle_named;
  running = f.running;
  waiting = AllRunnable-counted k i (k.queues ready) f.waiting;
  sleeping = AllRunnable-counted k i (k.queues blocked) f.sleeping;
  room = f.room;
}

Kept-counted : (k k' : Kernel) → Kept (counted k) k' → Kept k k'
Kept-counted k k' s = record {
  same_idle = s.same_idle;
  same_malloc = s.same_malloc;
  ids = s.ids;
  contexts = s.contexts;
}

trap_clock_handler-Rotated :
    (k : Kernel) (i : ℕ) (n : Ptr) (rest : List Ptr)
    → Fair k i
    → k.queues ready ≡ n ∷ rest
    → Ends (λ _ k'. Rotated (counted k) n rest k') (trap_clock_handler k)
unfolding trap_clock_handler
trap_clock_handler-Rotated k i n rest f line =
    Ends-bind (swap_process (some ready)) _ (counted k)
      (swap_process-Rotated (counted k) i n rest (Fair-counted k i f) line) (λ s k' (_, r). ends r)

clock_rest-Woken : (k : Kernel) (i : ℕ) → Fair k i → Ends (λ _ k'. Woken k i k') (clock_rest k)
unfolding clock_rest
clock_rest-Woken k i f =
    Ends-bind (clock_loop (length (k.queues blocked))) _ k
      (clock_loop-Woken (length (k.queues blocked)) k i (k.queues blocked) refl f.sleeping f.room)
      (λ _ k' w. ends w)

module _ (k : Kernel) (i : ℕ) (n : Ptr) (rest : List Ptr) (f : Fair k i)
    (line : k.queues ready ≡ n ∷ rest) where
  front_runnable : AllRunnable k i (n ∷ rest)
  front_runnable = subst (AllRunnable k i) line f.waiting

  Rotated-Fair : (k1 : Kernel) → Rotated (counted k) n rest k1 → Fair k1 i
  Rotated-Fair k1 r =
      let kept = Kept-counted k k1 r.kept in
      Fair-again k k1 i f kept
        (subst (Runnable k1 i) (sym r.runs) (Kept-Runnable k k1 i n kept front_runnable.0))
        (subst (AllRunnable k1 i) (sym r.line) (
          AllRunnable-append k1 i rest (k.active_pcb ∷ [])
            (Kept-AllRunnable k k1 i rest kept front_runnable.1)
            (Kept-Runnable k k1 i k.active_pcb kept f.running, tt)))
        (subst (AllRunnable k1 i) (sym r.same_blocked)
          (Kept-AllRunnable k k1 i (k.queues blocked) kept f.sleeping))

  Resumed-Fair : (k1 k2 : Kernel) → Fair k1 i → Resumed k1 k2 → Fair k2 i
  Resumed-Fair k1 k2 g r =
      Fair-again k1 k2 i g r.kept
        (subst (Runnable k2 i) (sym r.same_active)
          (Kept-Runnable k1 k2 i k1.active_pcb r.kept g.running))
        (rw (ap (λ (q : QueueId → List Ptr). q ready) r.same_queues)
          (Kept-AllRunnable k1 k2 i (k1.queues ready) r.kept g.waiting))
        (rw (ap (λ (q : QueueId → List Ptr). q blocked) r.same_queues)
          (Kept-AllRunnable k1 k2 i (k1.queues blocked) r.kept g.sleeping))

  Woken-Fair : (k2 k3 : Kernel) → Fair k2 i → Woken k2 i k3 → Fair k3 i
  Woken-Fair k2 k3 g w =
      Fair-again k2 k3 i g w.kept
        (subst (Runnable k3 i) (sym w.same_active)
          (Kept-Runnable k2 k3 i k2.active_pcb w.kept g.running))
        (subst (AllRunnable k3 i) (sym w.line) (
          AllRunnable-append k3 i (k2.queues ready) w.more
            (Kept-AllRunnable k2 k3 i (k2.queues ready) w.kept g.waiting) w.more_run))
        w.sleeping

  tick-Turn : Ends (λ _ k'. Turn k i n rest k') (tick k)
  unfolding trap_clock_return
  tick-Turn =
      Ends-bind trap_clock_handler _ k (trap_clock_handler-Rotated k i n rest f line) λ o k1 r.
        let g = Rotated-Fair k1 r in
        Ends-bind swap_return _ k1 (swap_return-Resumed k1 i g) λ _ k2 s.
          let h = Resumed-Fair k1 k2 g s in
          Ends-mono (clock_rest-Woken k2 i h) λ _ k3 w. record {
            runs = w.same_active ∙ s.same_active ∙ r.runs;
            more = w.more;
            line =
                w.line
                ∙ ap (λ (q : QueueId → List Ptr). q ready ++ w.more) s.same_queues
                ∙ ap (λ q. q ++ w.more) r.line
                ∙ append_assoc rest (k.active_pcb ∷ []) w.more;
            fair = Woken-Fair k2 k3 h w;
          }

-- If the running, the ready and the blocked processes have PCBs with ids other than the idle
-- process's and user contexts, and no allocation fails, the process behind n others on the ready
-- queue runs after n + 1 ticks of the clock, where each process that runs again goes on in the
-- clock handler that took the processor from it, whichever blocked processes CheckBlocked makes
-- ready on the way.
pub ticks-Runs :
    (ahead behind : List Ptr) (n : Ptr) (k : Kernel) (idle_id : ℕ)
    → Fair k idle_id
    → k.queues ready ≡ ahead ++ n ∷ behind
    → Ends (λ _ k'. k'.active_pcb ≡ n) (ticks (suc (length ahead)) k)
ticks-Runs [] behind n k i f line =
    Ends-bind tick _ k (tick-Turn k i n behind f line) λ _ k' t. ends t.runs
ticks-Runs (x ∷ ahead) behind n k i f line =
    Ends-bind tick _ k (tick-Turn k i x (ahead ++ n ∷ behind) f line) λ _ k' t.
      ticks-Runs ahead (behind ++ (k.active_pcb ∷ t.more)) n k' i t.fair
        (t.line ∙ append_assoc ahead (n ∷ behind) (k.active_pcb ∷ t.more))
