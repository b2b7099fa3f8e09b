-- ===== src/Load/Loaded.antt =====
-- LoadProgram of a file that loads: the process, its page table and the frames behind it.
use yalnix_implementation.Base.{
  ℕ, ◌+◌, ◌-◌, ◌≤◌, ◌<◌, ◌≡◌, ◌≢◌, Bool, true, some, List, ◌∷◌, arith, pos, replicate,
}
use yalnix_implementation.Hardware.{Ptr, Pte, null, vmem_region_size, vmem_1_limit, max_pt_len}
use yalnix_implementation.Frames.{Memory}
use yalnix_implementation.Frames.Loops.{done, Walk}
use yalnix_implementation.Kernel.{Kernel, Pcb, ok, Output, count_malloc, bytes_at}
use yalnix_implementation.Load.Image.{
  LoadInfo, executable, text_page, data_page, data_pages, argc_address, stack_pointer, stack_pages,
}
use yalnix_implementation.Load.Arguments.{build_arguments, bytes_from}
use yalnix_implementation.Load.Pages.{throw_away, place_pages, protect_text}
use yalnix_implementation.Kernel.Processes.{with_process, update-with, load-with, put-same}
use yalnix_implementation.Load.{
  clear_region1, place_section, place_sections, finish_load, commit_load, load_program,
}

-- the three loops that give pages to the sections, one after the other
abbrev pub text_walk : LoadInfo → List Pte → Memory → Walk
text_walk li pt m = place_pages li.t_npg (text_page li) pt m

abbrev pub data_walk : LoadInfo → Walk → Walk
data_walk li w = place_pages (data_pages li) (data_page li) w.table w.memory

abbrev pub stack_walk : List (List ℕ) → Walk → Walk
stack_walk args w = place_pages (stack_pages args) (max_pt_len - stack_pages args) w.table w.memory

-- the process with its sections where the file and the arguments put them
abbrev pub sectioned : LoadInfo → List (List ℕ) → List Pte → Pcb → Pcb
sectioned li args pt p = record p {
  user_text_pt_index = text_page li;
  user_data_pt_index = data_page li;
  user_heap_pt_index = data_page li + data_pages li;
  user_stack_pt_index = max_pt_len - stack_pages args;
  user_page_table = pt;
}

-- the process with its text protected and its program counter at the entry
abbrev pub started : LoadInfo → Pcb → Pcb
started li p = record p {
  user_page_table = protect_text li.t_npg (text_page li) p.user_page_table;
  user_context = record p.user_context { pc = li.entry };
}

-- the zeros of the uninitialised data and the argument block, written
abbrev pub written : LoadInfo → List (List ℕ) → List Output → List Output
written li args outputs =
    bytes_at (argc_address args) (
      bytes_from (vmem_1_limit - argc_address args) (argc_address args)
        (build_arguments args (λ _. 0)))
    ∷ bytes_at li.id_end (replicate (li.ud_end - li.id_end) 0)
    ∷ outputs

module _ (k : Kernel) (a : Ptr) (live : a ≢ null) where
  pub clear_region1-with :
      (p : Pcb) (m : Memory)
      → clear_region1 a (with_process k a p m)
        ≡ ok tt (
            with_process k a
              (record p { user_page_table = (throw_away p.user_page_table m).0 })
              (throw_away p.user_page_table m).1)
  unfolding clear_region1
  clear_region1-with p m =
      let cleared =
        λ (q : Pcb). record q { user_page_table = (throw_away p.user_page_table m).0 } in
      ground (arith, load-with k a p m live, update-with k a cleared p m live)

  pub place_section-with :
      (n i : ℕ) (p : Pcb) (m : Memory)
      → let w = place_pages n i p.user_page_table m in
        place_section a n i (with_process k a p m)
        ≡ ok w.status (with_process k a (record p { user_page_table = w.table }) w.memory)
  unfolding place_section
  place_section-with n i p m =
      let placed =
        λ (q : Pcb). record q { user_page_table = (place_pages n i p.user_page_table m).table } in
      ground (arith, load-with k a p m live, update-with k a placed p m live)

  place_sections-with :
      (li : LoadInfo) (args : List (List ℕ)) (p : Pcb) (m : Memory)
      → let w1 = text_walk li p.user_page_table m in
        let w2 = data_walk li w1 in
        let w3 = stack_walk args w2 in
        w1.status ≡ done
        → w2.status ≡ done
        → w3.status ≡ done
        → place_sections li args a (with_process k a p m)
          ≡ ok done (with_process k a (sectioned li args w3.table p) w3.memory)
  unfolding place_sections
  place_sections-with li args p m s1 s2 s3 =
      let w1 = text_walk li p.user_page_table m in
      let w2 = data_walk li w1 in
      let w3 = stack_walk args w2 in
      let text = λ (q : Pcb). record q { user_text_pt_index = text_page li } in
      let data_at = λ (q : Pcb). record q { user_data_pt_index = data_page li } in
      let rest = λ (q : Pcb). record q {
        user_heap_pt_index = data_page li + data_pages li;
        user_stack_pt_index = max_pt_len - stack_pages args;
      } in
      let p1 = text p in
      let p2 = record p1 { user_page_table = w1.table } in
      let p3 = data_at p2 in
      let p4 = record p3 { user_page_table = w2.table } in
      let p5 = rest p4 in
      ground (
        arith,
        update-with k a text p m live,
        place_section-with li.t_npg (text_page li) p1 m,
        update-with k a data_at p2 w1.memory live,
        place_section-with (data_pages li) (data_page li) p3 w1.memory,
        update-with k a rest p4 w2.memory live,
        place_section-with (stack_pages args) (max_pt_len - stack_pages args) p5 w2.memory,
      )

  pub finish_load-with :
      (li : LoadInfo) (args : List (List ℕ)) (p : Pcb) (m : Memory)
      → finish_load li true true args a (with_process k a p m)
        ≡ ok
            (pos 0)
            (record (with_process k a (started li p) m) { outputs = written li args k.outputs })
  unfolding finish_load
  finish_load-with li args p m =
      let protect = λ (q : Pcb). record q {
        user_page_table = protect_text li.t_npg (text_page li) q.user_page_table;
      } in
      let enter =
        λ (q : Pcb). record q { user_context = record q.user_context { pc = li.entry } } in
      let zeroed = record k {
        outputs = bytes_at li.id_end (replicate (li.ud_end - li.id_end) 0) ∷ k.outputs;
      } in
      ground
        (arith, update-with k a protect p m live, update-with zeroed a enter (protect p) m live)

module _ (k : Kernel) (a : Ptr) (li : LoadInfo) (args : List (List ℕ)) (p : Pcb) where
  -- the memory behind the one allocation, and the old region 1 thrown away
  abbrev pub thrown : List Pte × Memory
  thrown = throw_away p.user_page_table (count_malloc k).memory

  abbrev pub text_placed : Walk
  text_placed = text_walk li thrown.0 thrown.1

  abbrev pub data_placed : Walk
  data_placed = data_walk li text_placed

  abbrev pub stack_placed : Walk
  stack_placed = stack_walk args data_placed

  -- the page table of the loaded process
  abbrev pub loaded_table : List Pte
  loaded_table = protect_text li.t_npg (text_page li) stack_placed.table

  abbrev pub loaded_process : Pcb
  loaded_process = record (sectioned li args loaded_table p) {
    user_context = record p.user_context { sp = stack_pointer args; pc = li.entry };
  }

  -- the state behind LoadProgram
  abbrev pub loaded : Kernel
  loaded = record (with_process k a loaded_process stack_placed.memory) {
    ptbr1 = a;
    outputs = written li args k.outputs;
  }

  -- the process when its pages are placed
  abbrev pub placed_process : Pcb
  placed_process = record (sectioned li args stack_placed.table p) {
    user_context = record p.user_context { sp = stack_pointer args };
  }

  abbrev pub placed : Kernel
  placed = with_process (record k { ptbr1 = a }) a placed_process stack_placed.memory

  pub load_program-placed :
      (text_read data_read : Bool)
      → a ≢ null
      → k.pcbs a ≡ some p
      → k.memory.malloc k.memory.mallocs ≢ null
      → vmem_region_size ≤ li.entry
      → stack_pages args + data_page li + data_pages li < max_pt_len
      → text_placed.status ≡ done
      → data_placed.status ≡ done
      → stack_placed.status ≡ done
      → load_program (executable li text_read data_read) args a k
        ≡ finish_load li text_read data_read args a placed
  unfolding load_program commit_load
  load_program-placed text_read data_read live holds room linked small s1 s2 s3 =
      let p0 = record p { user_context = record p.user_context { sp = stack_pointer args } } in
      let point = λ (q : Pcb). record q {
        user_context = record q.user_context { sp = stack_pointer args };
      } in
      let k1 = record k { ptbr1 = a } in
      let p1 = record p0 { user_page_table = thrown.0 } in
      ground (
        arith,
        put-same k a p holds,
        update-with k a point p k.memory live,
        clear_region1-with k1 a live p0 (count_malloc k).memory,
        place_sections-with k1 a live li args p1 thrown.1 s1 s2 s3,
      )
