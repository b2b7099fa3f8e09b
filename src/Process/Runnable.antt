-- ===== src/Process/Runnable.antt =====
-- Processes that SwapProcess can switch between, and what it keeps of them.
use mathlib.Core.Path.{subst}
use yalnix_implementation.Base.{
  ℕ, ◌==◌, ◌≡◌, ◌≢◌, refl, sym, ◌∙◌, Option, none, some, List, [], ◌∷◌, ◌++◌, arith, inl, inr,
  Bool-cases, ==-refl,
}
use yalnix_implementation.Hardware.{Ptr, null, UserContext}
use yalnix_implementation.Kernel.{
  Kernel, Pcb, ready, blocked, ok, Ends, ends, put, load_pcb, update_pcb, queue_add, queue_pop,
}
use yalnix_implementation.Process.SwitchLaws.{saved, after_switch}
use yalnix_implementation.ContextSwitch.{kc_switch, kernel_context_switch}
use yalnix_implementation.Process.Switch.{swapped, switch_from, swap_process, swap_return}

-- the process id of the PCB at an address
abbrev pub id_of : Option Pcb → Option ℕ
id_of none = none
id_of (some p) = some p.pid

-- The process can be switched to and away from: it has a PCB, another id than the idle process, and a
-- user context.
abbrev pub Runnable : Kernel → ℕ → Ptr → Type 0
Runnable k idle_id x =
    (x ≢ null)
    × ((p : Pcb) × (k.pcbs x ≡ some p) × (p.pid ≢ idle_id))
    × ((u : UserContext) × (k.uctxt x ≡ some u))

abbrev pub AllRunnable : Kernel → ℕ → List Ptr → Type 0
AllRunnable k idle_id [] = Unit
AllRunnable k idle_id (x ∷ xs) = Runnable k idle_id x × AllRunnable k idle_id xs

-- no allocation fails, and the running process and those on the two queues are runnable
pub record Fair (k : Kernel) (idle_id : ℕ) : Type 0 where
  pub idle_live : k.idle_pcb ≢ null
  pub idle : Pcb
  pub idle_at : k.pcbs k.idle_pcb ≡ some idle
  pub idle_named : idle.pid ≡ idle_id
  pub running : Runnable k idle_id k.active_pcb
  pub waiting : AllRunnable k idle_id (k.queues ready)
  pub sleeping : AllRunnable k idle_id (k.queues blocked)
  pub room : (c : ℕ) → k.memory.malloc c ≢ null

-- PCBs keep their ids, and user contexts stay there
pub record Kept (k k' : Kernel) : Type 0 where
  pub same_idle : k'.idle_pcb ≡ k.idle_pcb
  pub same_malloc : k'.memory.malloc ≡ k.memory.malloc
  pub ids :
      (x : Ptr) (p : Pcb) → k.pcbs x ≡ some p → (q : Pcb) × (k'.pcbs x ≡ some q) × (q.pid ≡ p.pid)
  pub contexts :
      (x : Ptr) (u : UserContext) → k.uctxt x ≡ some u → (v : UserContext) × (k'.uctxt x ≡ some v)

pub Kept-trans : (k k1 k2 : Kernel) → Kept k k1 → Kept k1 k2 → Kept k k2
Kept-trans k k1 k2 s t = record {
  same_idle = t.same_idle ∙ s.same_idle;
  same_malloc = t.same_malloc ∙ s.same_malloc;
  ids = λ x p at.
      let (q, q-at, same) = s.ids x p at in
      let (r, r-at, same') = t.ids x q q-at in (r, r-at, same' ∙ same);
  contexts = λ x u at. let (v, v-at) = s.contexts x u at in t.contexts x v v-at;
}

pub Kept-Runnable : (k k' : Kernel) (i : ℕ) (x : Ptr) → Kept k k' → Runnable k i x → Runnable k' i x
Kept-Runnable k k' i x kept (live, (p, at, other), (u, context)) =
    let (q, q-at, same) = kept.ids x p at in
    (live, (q, q-at, λ e. other (sym same ∙ e)), kept.contexts x u context)

pub Kept-AllRunnable :
    (k k' : Kernel) (i : ℕ) (xs : List Ptr) → Kept k k' → AllRunnable k i xs → AllRunnable k' i xs
Kept-AllRunnable k k' i [] kept all = tt
Kept-AllRunnable k k' i (x ∷ xs) kept (r, all) =
    (Kept-Runnable k k' i x kept r, Kept-AllRunnable k k' i xs kept all)

pub AllRunnable-append :
    (k : Kernel) (i : ℕ) (xs ys : List Ptr)
    → AllRunnable k i xs
    → AllRunnable k i ys
    → AllRunnable k i (xs ++ ys)
AllRunnable-append k i [] ys all more = more
AllRunnable-append k i (x ∷ xs) ys (r, all) more = (r, AllRunnable-append k i xs ys all more)

-- a PCB changes, and keeps its id
pub put-ids :
    (pcbs : Ptr → Option Pcb) (a : Ptr) (p q : Pcb)
    → pcbs a ≡ some p
    → q.pid ≡ p.pid
    → (x : Ptr) (r : Pcb) → pcbs x ≡ some r
    → (s : Pcb) × (put pcbs a (some q) x ≡ some s) × (s.pid ≡ r.pid)
put-ids pcbs a p q at same x r r-at = elim (Bool-cases (x == a)) [
  | inl here ↦ (q, rw here refl, ground arith)
  | inr there ↦ (r, rw there r-at, refl)
]

put-contexts :
    (uctxt : Ptr → Option UserContext) (a : Ptr) (w : UserContext) (x : Ptr) (u : UserContext)
    → uctxt x ≡ some u
    → (v : UserContext) × (put uctxt a (some w) x ≡ some v)
put-contexts uctxt a w x u at = elim (Bool-cases (x == a)) [
  | inl here ↦ (w, rw here refl)
  | inr there ↦ (u, rw there at)
]

-- the PCBs once the running process is saved
abbrev saved_at : Kernel → Pcb → UserContext → Ptr → Option Pcb
saved_at k p u =
    put
      (put k.pcbs k.active_pcb
        (some (record p { user_context = record p.user_context { sp = u.sp; pc = u.pc } })))
      k.active_pcb (some (saved p u k.kernel_context))

-- SwapProcess to a process that may be the running one itself
swap_process-to :
    (k : Kernel) (n : Ptr) (p next idle : Pcb) (u : UserContext) (rest : List Ptr)
    → k.active_pcb ≢ null
    → n ≢ null
    → k.idle_pcb ≢ null
    → k.pcbs k.active_pcb ≡ some p
    → saved_at k p u n ≡ some next
    → k.pcbs k.idle_pcb ≡ some idle
    → p.pid ≢ idle.pid
    → k.uctxt k.active_pcb ≡ some u
    → k.queues ready ≡ n ∷ rest
    → k.memory.malloc k.memory.mallocs ≢ null
    → swap_process (some ready) k ≡ ok swapped (after_switch k k.active_pcb n ready p next u rest)
unfolding swap_process switch_from load_pcb update_pcb queue_add queue_pop kc_switch
    kernel_context_switch
swap_process-to k n p next idle u rest a1 a2 a4 a5 a6 a7 a8 a9 a10 a11 = ground arith

saved_ids :
    (k : Kernel) (p : Pcb) (u : UserContext)
    → k.pcbs k.active_pcb ≡ some p
    → (x : Ptr) (r : Pcb) → k.pcbs x ≡ some r
    → (s : Pcb) × (saved_at k p u x ≡ some s) × (s.pid ≡ r.pid)
saved_ids k p u at x r r-at =
    let half = record p { user_context = record p.user_context { sp = u.sp; pc = u.pc } } in
    let pcbs = put k.pcbs k.active_pcb (some half) in
    let (q, q-at, same) = put-ids k.pcbs k.active_pcb p half at refl x r r-at in
    let (s, s-at, same') =
      put-ids pcbs k.active_pcb half (saved p u k.kernel_context) (rw (==-refl k.active_pcb) refl)
        refl x q q-at in
    (s, s-at, same' ∙ same)

-- What a switch to the oldest ready process does: it runs, and the one that ran is the last ready one.
pub record Rotated (k : Kernel) (n : Ptr) (rest : List Ptr) (k' : Kernel) : Type 0 where
  pub runs : k'.active_pcb ≡ n
  pub line : k'.queues ready ≡ rest ++ k.active_pcb ∷ []
  pub same_blocked : k'.queues blocked ≡ k.queues blocked
  pub kept : Kept k k'

pub swap_process-Rotated :
    (k : Kernel) (i : ℕ) (n : Ptr) (rest : List Ptr)
    → Fair k i
    → k.queues ready ≡ n ∷ rest
    → Ends (λ s k'. (s ≡ swapped) × Rotated k n rest k') (swap_process (some ready) k)
swap_process-Rotated k i n rest f line =
    let (live, (p, at, other), (u, context)) = f.running in
    let ((n-live, (m, n-at, _), _), _) = subst (AllRunnable k i) line f.waiting in
    let (next, next-at, _) = saved_ids k p u at n m n-at in
    let not_idle : p.pid ≢ f.idle.pid = λ e. other (e ∙ f.idle_named) in
    rw
      (swap_process-to k n p next f.idle u rest live n-live f.idle_live at next-at f.idle_at
        not_idle context line (f.room k.memory.mallocs))
      (ends (
        refl,
        record {
          runs = refl;
          line = refl;
          same_blocked = refl;
          kept = record {
            same_idle = refl;
            same_malloc = refl;
            ids = saved_ids k p u at;
            contexts = λ x v v-at. (v, v-at);
          };
        },
      ))

-- the process that runs again goes on with its own registers
pub record Resumed (k k' : Kernel) : Type 0 where
  pub same_active : k'.active_pcb ≡ k.active_pcb
  pub same_queues : k'.queues ≡ k.queues
  pub kept : Kept k k'

pub swap_return-Resumed :
    (k : Kernel) (i : ℕ) → Fair k i → Ends (λ _ k'. Resumed k k') (swap_return k)
unfolding swap_return load_pcb
swap_return-Resumed k i f =
    let (live, (p, at, other), (u, context)) = f.running in
    let own = record u { sp = p.user_context.sp; pc = p.user_context.pc } in
    subst (Ends λ _ k'. Resumed k k') (sym (go k p u live at context)) (
      ends (record {
        same_active = refl;
        same_queues = refl;
        kept = record {
          same_idle = refl;
          same_malloc = refl;
          ids = λ x q q-at. (q, q-at, refl);
          contexts = put-contexts k.uctxt k.active_pcb own;
        };
      }))
  where
    go :
        (k : Kernel) (p : Pcb) (u : UserContext)
        → k.active_pcb ≢ null
        → k.pcbs k.active_pcb ≡ some p
        → k.uctxt k.active_pcb ≡ some u
        → swap_return k
          ≡ ok tt (record k {
            uctxt =
                put k.uctxt k.active_pcb
                  (some (record u { sp = p.user_context.sp; pc = p.user_context.pc }));
          })
    go k p u live at context = ground arith
