-- ===== src/Syscall/Pipe/WakeFuel.antt =====
-- The wake-up loops of KernelPipeRead and KernelPipeWrite end by their tests: the bounds on the
-- rounds in the model are never reached.
use yalnix_implementation.Base.{
  ℕ, zero, suc, ◌+◌, ◌≤◌, ◌<◌, ◌∙◌, ◌⊎◌, false, ◌≡◌, refl, sym, ltb, Bool, Bool-cases, Option-cases,
  none, some, List, [], ◌∷◌, ◌++◌, length, arith, inl, inr, length-append,
}
use yalnix_implementation.Hardware.{Ptr}
use yalnix_implementation.Kernel.{
  Kernel, Pcb, QueueId, eq_queue, ready, blocked, not_blocked, Run, ok, fault, load_pcb, put,
  put_queue, find_pcb, update_pcb, queue_add, queue_pop, set_queue, count_malloc,
}
use yalnix_implementation.Syscall.Pipe.Wake.{unblock_first, unblock_all, pop_waiting, wake_loop}

-- the head of the blocked queue has got the pid, and stands nowhere; or it is behind a queue
abbrev gone : Kernel → Ptr → Pcb → ℕ → List Ptr → Kernel
gone k x c pid rest = record k {
  queues = put_queue k.queues blocked rest;
  pcbs = put k.pcbs x (some (record c { pid = pid }));
}

abbrev sent_to : Kernel → QueueId → Ptr → Kernel
sent_to k q x = set_queue q (k.queues q ++ x ∷ []) (count_malloc k)

unblock_first-stops :
    (n j : ℕ) (keep : Bool) (pid : ℕ) (k : Kernel)
    → length (k.queues blocked) ≤ j
    → unblock_first n j keep pid k ≡ ok tt k
unfolding unblock_first
unblock_first-stops zero j keep pid k over = refl
unblock_first-stops (suc n) j keep pid k over = ground arith

unblock_first-enough :
    (n m j : ℕ) (keep : Bool) (pid : ℕ) (k : Kernel) (line : List Ptr)
    → k.queues blocked ≡ line
    → length line ≤ j + n
    → length line ≤ j + m
    → unblock_first n j keep pid k ≡ unblock_first m j keep pid k
unfolding unblock_first update_pcb queue_add queue_pop
unblock_first-enough zero m j keep pid k line e h h' =
    let over : length (k.queues blocked) ≤ j = rw e (omega arith) in
    sym (unblock_first-stops m j keep pid k over)
unblock_first-enough (suc n) zero j keep pid k line e h h' =
    let over : length (k.queues blocked) ≤ j = rw e (omega arith) in
    unblock_first-stops (suc n) j keep pid k over
unblock_first-enough (suc n) (suc m) j keep pid k [] e h h' = ground arith
unblock_first-enough (suc n) (suc m) j keep pid k (x ∷ xs) e h h' = elim (Option-cases (k.pcbs x)) [
  | inl none_there ↦ ground arith
  | inr (c, at) ↦
      let k1 = gone k x c pid xs in
      ground (
        arith,
        length-append xs (x ∷ []),
        unblock_first-enough n m (suc j) keep pid (sent_to k1 blocked x) (xs ++ x ∷ []),
        unblock_first-enough n m (suc j) keep pid (count_malloc k1) xs,
      )
]

unblock_all-stops :
    (n j pid : ℕ) (k : Kernel) → length (k.queues blocked) ≤ j → unblock_all n j pid k ≡ ok tt k
unfolding unblock_all
unblock_all-stops zero j pid k over = refl
unblock_all-stops (suc n) j pid k over = ground arith

unblock_all-enough :
    (n m j pid : ℕ) (k : Kernel) (line : List Ptr)
    → k.queues blocked ≡ line
    → length line ≤ j + n
    → length line ≤ j + m
    → unblock_all n j pid k ≡ unblock_all m j pid k
unfolding unblock_all update_pcb queue_add queue_pop
unblock_all-enough zero m j pid k line e h h' =
    let over : length (k.queues blocked) ≤ j = rw e (omega arith) in
    sym (unblock_all-stops m j pid k over)
unblock_all-enough (suc n) zero j pid k line e h h' =
    let over : length (k.queues blocked) ≤ j = rw e (omega arith) in
    unblock_all-stops (suc n) j pid k over
unblock_all-enough (suc n) (suc m) j pid k [] e h h' = ground arith
unblock_all-enough (suc n) (suc m) j pid k (x ∷ xs) e h h' = elim (Option-cases (k.pcbs x)) [
  | inl none_there ↦ ground arith
  | inr (c, at) ↦
      let k1 = gone k x c pid xs in
      ground (
        arith,
        length-append xs (x ∷ []),
        unblock_all-enough n m (suc j) pid (sent_to k1 blocked x) (xs ++ x ∷ []),
        unblock_all-enough n m (suc j) pid (sent_to k1 ready x) xs,
        unblock_all-enough n m (suc j) pid (count_malloc k1) xs,
      )
]

-- the other queues
unblock_all-same :
    (q : QueueId) (n j pid : ℕ) (k k' : Kernel) (line : List Ptr)
    → eq_queue q blocked ≡ false
    → eq_queue q ready ≡ false
    → k.queues blocked ≡ line
    → unblock_all n j pid k ≡ ok tt k'
    → k'.queues q ≡ k.queues q
unfolding unblock_all update_pcb queue_add queue_pop
unblock_all-same q zero j pid k k' line nb nr e run = ground arith
unblock_all-same q (suc n) j pid k k' [] nb nr e run = ground arith
unblock_all-same q (suc n) j pid k k' (x ∷ xs) nb nr e run = elim (Option-cases (k.pcbs x)) [
  | inl none_there ↦ ground arith
  | inr (c, at) ↦
      let k1 = gone k x c pid xs in
      ground (
        arith,
        unblock_all-same q n (suc j) pid (sent_to k1 blocked x) k' (xs ++ x ∷ []),
        unblock_all-same q n (suc j) pid (sent_to k1 ready x) k' xs,
        unblock_all-same q n (suc j) pid (count_malloc k1) k' xs,
      )
]

-- the head of the queue is not blocked any more
abbrev woken_up : Kernel → QueueId → Ptr → Pcb → List Ptr → Kernel
woken_up k q x c rest = record k {
  queues = put_queue k.queues q rest;
  pcbs = put k.pcbs x (some (record c { blocked_code = not_blocked }));
}

wake_loop-stops :
    (n i : ℕ) (q : QueueId) (k : Kernel) → length (k.queues q) ≤ i → wake_loop n i q k ≡ ok tt k
unfolding wake_loop
wake_loop-stops zero i q k over = refl
wake_loop-stops (suc n) i q k over = ground arith

Run-cases : (r : Run (Unit {0})) → (r ≡ fault) ⊎ ((k : Kernel) × (r ≡ ok tt k))
Run-cases (ok tt k) = inr (k, refl)
Run-cases fault = inl refl

module _ (i : ℕ) (q : QueueId) (k : Kernel) (x : Ptr) (xs : List Ptr) (c : Pcb)
    (line : k.queues q ≡ x ∷ xs) (more : i < length (x ∷ xs)) (at : find_pcb k x ≡ some c) where
  abbrev round : Run (Unit {0})
  round = let k1 = woken_up k q x c xs in unblock_all (length (k1.queues blocked)) 0 c.pid k1

  wake_loop-fault : (n : ℕ) → round ≡ fault → wake_loop (suc n) i q k ≡ fault
  unfolding wake_loop pop_waiting load_pcb update_pcb queue_pop
  wake_loop-fault n bad = ground arith

  wake_loop-next :
      (n : ℕ) (k2 : Kernel) → round ≡ ok tt k2 → wake_loop (suc n) i q k ≡ wake_loop n (suc i) q k2
  unfolding wake_loop pop_waiting load_pcb update_pcb queue_pop
  wake_loop-next n k2 run = ground arith

wake_loop-lost :
    (n i : ℕ) (q : QueueId) (k : Kernel) (x : Ptr) (xs : List Ptr)
    → k.queues q ≡ x ∷ xs
    → i < length (x ∷ xs)
    → find_pcb k x ≡ none
    → wake_loop (suc n) i q k ≡ fault
unfolding wake_loop pop_waiting update_pcb queue_pop
wake_loop-lost n i q k x xs line more lost = ground arith

wake_loop-enough :
    (n m i : ℕ) (q : QueueId) (k : Kernel) (line : List Ptr)
    → eq_queue q blocked ≡ false
    → eq_queue q ready ≡ false
    → k.queues q ≡ line
    → length line ≤ i + n
    → length line ≤ i + m
    → wake_loop n i q k ≡ wake_loop m i q k
wake_loop-enough zero m i q k line nb nr e h h' =
    let over : length (k.queues q) ≤ i = rw e (omega arith) in
    wake_loop-stops zero i q k over ∙ sym (wake_loop-stops m i q k over)
wake_loop-enough (suc n) zero i q k line nb nr e h h' =
    let over : length (k.queues q) ≤ i = rw e (omega arith) in
    wake_loop-stops (suc n) i q k over ∙ sym (wake_loop-stops zero i q k over)
wake_loop-enough (suc n) (suc m) i q k [] nb nr e h h' =
    let over : length (k.queues q) ≤ i = rw e (omega arith) in
    wake_loop-stops (suc n) i q k over ∙ sym (wake_loop-stops (suc m) i q k over)
wake_loop-enough (suc n) (suc m) i q k (x ∷ xs) nb nr e h h' =
    elim (Bool-cases (ltb i (length (x ∷ xs)))) [
      | inr out ↦
          let over : length (k.queues q) ≤ i = rw e (ground arith) in
          wake_loop-stops (suc n) i q k over ∙ sym (wake_loop-stops (suc m) i q k over)
      | inl inside ↦
          let more : i < length (x ∷ xs) = ground arith in
          elim (Option-cases (find_pcb k x)) [
            | inl lost ↦
                wake_loop-lost n i q k x xs e more lost
                ∙ sym (wake_loop-lost m i q k x xs e more lost)
            | inr (c, at) ↦ elim (Run-cases (round i q k x xs c e more at)) [
              | inl bad ↦
                  wake_loop-fault i q k x xs c e more at n bad
                  ∙ sym (wake_loop-fault i q k x xs c e more at m bad)
              | inr (k2, run) ↦
                  let k1 = woken_up k q x c xs in
                  let rest : k2.queues q ≡ xs =
                    unblock_all-same q (length (k1.queues blocked)) 0 c.pid k1 k2
                      (k1.queues blocked) nb nr refl run
                    ∙ ground arith in
                  wake_loop-next i q k x xs c e more at n k2 run
                  ∙ wake_loop-enough n m (suc i) q k2 xs nb nr rest (omega arith) (omega arith)
                  ∙ sym (wake_loop-next i q k x xs c e more at m k2 run)
            ]
          ]
    ]

-- The loops by which KernelPipeRead and KernelPipeWrite wake processes end by their own tests, or
-- in undefined behaviour, where the model gives them as many rounds as the blocked queue, or the
-- pipe's queue, which is neither that one nor the ready queue, has processes at their start: with
-- any larger number of rounds they end in the same way.
pub wake_rounds-enough :
    (k : Kernel) (q : QueueId) (n pid : ℕ) (keep : Bool)
    → eq_queue q blocked ≡ false
    → eq_queue q ready ≡ false
    → length (k.queues blocked) ≤ n
    → length (k.queues q) ≤ n
    → (unblock_first n 0 keep pid k ≡ unblock_first (length (k.queues blocked)) 0 keep pid k)
      × (unblock_all n 0 pid k ≡ unblock_all (length (k.queues blocked)) 0 pid k)
      × (wake_loop n 0 q k ≡ wake_loop (length (k.queues q)) 0 q k)
wake_rounds-enough k q n pid keep nb nr h h' = (
  unblock_first-enough n (length (k.queues blocked)) 0 keep pid k (k.queues blocked) refl
      (omega arith) (omega arith),
  unblock_all-enough n (length (k.queues blocked)) 0 pid k (k.queues blocked) refl (omega arith)
      (omega arith),
  wake_loop-enough n (length (k.queues q)) 0 q k (k.queues q) nb nr refl (omega arith)
      (omega arith),
)
