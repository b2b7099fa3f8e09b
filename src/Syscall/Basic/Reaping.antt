-- ===== src/Syscall/Basic/Reaping.antt =====
-- KernelWait: which child it finds, and what the search does to the defunct queue.
use mathlib.Core.Path.{subst}
use mathlib.Core.List.{append-nil, append_assoc}
use yalnix_implementation.Base.{
  ℕ, zero, suc, ◌<◌, ◌≡◌, ◌≢◌, refl, ap, sym, ◌∙◌, ◌==◌, ◌⊎◌, inl, inr, Option, some, false, List,
  [], ◌∷◌, ◌++◌, pos, dec, eq_int, arith, length, length-append,
}
use yalnix_implementation.Hardware.{Ptr, null}
use yalnix_implementation.Kernel.{
  Kernel, Pcb, Run, ok, fault, refuse, pure, M, Ends, ends, Ends-mono, defunct, put_queue, put,
  int_at, Outcome, returns, load_pcb, update_pcb, queue_add, queue_pop,
}
use yalnix_implementation.Syscall.Basic.{
  Scan, reaped, missing, broken, reap, wait_scan, wait_block, kernel_wait,
}

-- the processes are there, and none of them is a child of `pid`
abbrev pub NoChild : (Ptr → Option Pcb) → ℕ → List Ptr → Type 0
NoChild pcbs pid [] = Unit
NoChild pcbs pid (x ∷ xs) =
    (c : Pcb) × (x ≢ null) × (pcbs x ≡ some c) × ((c.ppid == pid) ≡ false) × NoChild pcbs pid xs

-- what it means that the child `d` is reaped, which was between `xs` and `ys` on the defunct queue
pub record Reaped (k : Kernel) (status_ptr : Ptr) (me d : Pcb) (xs ys : List Ptr) (k' : Kernel)
    : Type 0 where
  pub turned : k'.queues defunct ≡ ys ++ xs
  pub written : k'.outputs ≡ int_at status_ptr d.exit_code ∷ k.outputs
  pub counted : k'.pcbs k.active_pcb ≡ some (record me { num_children = dec me.num_children })

-- the process at the head of the defunct queue goes to its end
abbrev rotated : Kernel → Ptr → List Ptr → Kernel
rotated k x rest = record k {
  queues = put_queue (put_queue k.queues defunct rest) defunct (rest ++ x ∷ []);
  memory = record k.memory { mallocs = suc k.memory.mallocs };
}

module _ (status_ptr a d : Ptr) (me c : Pcb) (live : a ≢ null) (there : d ≢ null)
    (child : c.ppid ≡ me.pid) where
  wait_scan-other :
      (n : ℕ) (k : Kernel) (x : Ptr) (cx : Pcb) (rest : List Ptr)
      → k.active_pcb ≡ a
      → k.pcbs a ≡ some me
      → k.queues defunct ≡ x ∷ rest
      → k.memory.malloc k.memory.mallocs ≢ null
      → x ≢ null
      → k.pcbs x ≡ some cx
      → (cx.ppid == me.pid) ≡ false
      → wait_scan (suc n) status_ptr k ≡ wait_scan n status_ptr (rotated k x rest)
  unfolding wait_scan load_pcb queue_add queue_pop
  wait_scan-other n k x cx rest active holds line room real at other = ground arith

  wait_scan-child :
      (n : ℕ) (k : Kernel) (ys : List Ptr)
      → k.active_pcb ≡ a
      → k.pcbs a ≡ some me
      → k.pcbs d ≡ some c
      → k.queues defunct ≡ d ∷ ys
      → wait_scan (suc n) status_ptr k
        ≡ ok reaped (record k {
          queues = put_queue k.queues defunct ys;
          pcbs = put k.pcbs k.active_pcb (some (record me { num_children = dec me.num_children }));
          outputs = int_at status_ptr c.exit_code ∷ k.outputs;
        })
  unfolding wait_scan reap load_pcb update_pcb queue_pop
  wait_scan-child n k ys active holds holds_d line = ground arith

  wait_scan-Reaped :
      (n : ℕ) (k : Kernel) (xs ys : List Ptr)
      → k.active_pcb ≡ a
      → k.pcbs a ≡ some me
      → k.pcbs d ≡ some c
      → ((i : ℕ) → k.memory.malloc i ≢ null)
      → k.queues defunct ≡ xs ++ d ∷ ys
      → NoChild k.pcbs me.pid xs
      → length xs < n
      → Ends (λ r k'. (r ≡ reaped) × Reaped k status_ptr me c xs ys k') (wait_scan n status_ptr k)
  wait_scan-Reaped zero k xs ys active holds holds_d room line others h = absurd (omega arith)
  wait_scan-Reaped (suc n) k [] ys active holds holds_d room line others h =
      rw (wait_scan-child n k ys active holds holds_d line) (
        ends
          (refl, record { turned = sym (append-nil ys); written = refl; counted = ground arith }))
  wait_scan-Reaped (suc n) k (x ∷ xs) ys active holds holds_d room line (cx, real, at, other, rest)
        h =
      rw
        (wait_scan-other n k x cx (xs ++ d ∷ ys) active holds line (room k.memory.mallocs) real at
          other)
        (Ends-mono
          (wait_scan-Reaped n (rotated k x (xs ++ d ∷ ys)) xs (ys ++ x ∷ []) active holds holds_d
            room (append_assoc xs (d ∷ ys) (x ∷ [])) rest (omega arith))
          λ r k' (same, e). (
            same,
            record {
              turned = e.turned ∙ append_assoc ys (x ∷ []) xs;
              written = e.written;
              counted = e.counted;
            },
          ))

-- KernelWait behind its search
abbrev found : Ptr → Scan → M Outcome
found status_ptr reaped = pure (returns (pos 0))
found status_ptr broken = refuse
found status_ptr missing = wait_block status_ptr

abbrev answer : Ptr → Run Scan → Run Outcome
answer status_ptr r = elim r [ ok s k ↦ found status_ptr s k | fault ↦ fault ]

found-elim :
    (status_ptr : Ptr) (s : Scan) (k : Kernel)
    → (elim s as (λ _. M Outcome) [
      | reaped ↦ pure (returns (pos 0))
      | broken ↦ refuse
      | missing ↦ wait_block status_ptr
    ])
        k
      ≡ found status_ptr s k
found-elim status_ptr reaped k = refl
found-elim status_ptr broken k = refl
found-elim status_ptr missing k = refl

Run-cases : {A : Type 0} (r : Run A) → (r ≡ fault) ⊎ ((a : A) × (k : Kernel) × (r ≡ ok a k))
Run-cases (ok a k) = inr (a, k, refl)
Run-cases fault = inl refl

kernel_wait-scan :
    (k : Kernel) (status_ptr : Ptr) (me : Pcb)
    → status_ptr ≢ null
    → k.active_pcb ≢ null
    → k.pcbs k.active_pcb ≡ some me
    → eq_int me.num_children (pos 0) ≡ false
    → kernel_wait status_ptr k
      ≡ answer status_ptr (wait_scan (length (k.queues defunct)) status_ptr k)
unfolding kernel_wait load_pcb
kernel_wait-scan k status_ptr me real live holds parent =
    elim (Run-cases (wait_scan (length (k.queues defunct)) status_ptr k)) [
      | inl bad ↦ rw bad (ground arith)
      | inr (s, k', e) ↦ rw e (ground (arith, found-elim status_ptr s k'))
    ]

returns_after :
    {P : Kernel → Type 0} (status_ptr : Ptr) {r : Run Scan}
    → Ends (λ s k'. (s ≡ reaped) × P k') r
    → Ends (λ o k'. (o ≡ returns (pos 0)) × P k') (answer status_ptr r)
returns_after {P} status_ptr (ends {a} {k} (same, p)) =
    subst (λ s. Ends (λ o k'. (o ≡ returns (pos 0)) × P k') (answer status_ptr (ok s k))) (sym same)
      (ends (refl, p))

-- KernelWait of a process with children, where one is on the defunct queue, all defunct processes
-- up to it are there, and no allocation fails, returns 0: the first child on that queue leaves it,
-- those in front of it are then behind the others in their order, its exit code is written through
-- the pointer, and the parent counts a child less.
pub kernel_wait-Reaped :
    (k : Kernel) (status_ptr d : Ptr) (me c : Pcb) (xs ys : List Ptr)
    → status_ptr ≢ null
    → k.active_pcb ≢ null
    → d ≢ null
    → k.pcbs k.active_pcb ≡ some me
    → eq_int me.num_children (pos 0) ≡ false
    → k.pcbs d ≡ some c
    → c.ppid ≡ me.pid
    → ((i : ℕ) → k.memory.malloc i ≢ null)
    → k.queues defunct ≡ xs ++ d ∷ ys
    → NoChild k.pcbs me.pid xs
    → Ends
        (λ o k'. (o ≡ returns (pos 0)) × Reaped k status_ptr me c xs ys k')
        (kernel_wait status_ptr k)
kernel_wait-Reaped k status_ptr d me c xs ys real live there holds parent holds_d child room line
      others =
    rw (kernel_wait-scan k status_ptr me real live holds parent) (
      returns_after status_ptr (
        wait_scan-Reaped status_ptr k.active_pcb d me c live there child (length (k.queues defunct))
          k xs ys refl holds holds_d room line others
          (omega (arith, ap length line, length-append xs (d ∷ ys)))))
