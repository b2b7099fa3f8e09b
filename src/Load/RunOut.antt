-- ===== src/Load/RunOut.antt =====
-- LoadProgram where the frames run out: what the free list holds when the process is ended.
use mathlib.Core.Path.{subst}
use yalnix_implementation.Base.{
  ℕ, ◌+◌, ◌≤◌, ◌<◌, ◌≡◌, ◌≢◌, refl, sym, Bool, List, some, pos, ℤ, arith, ==-refl,
}
use yalnix_implementation.Hardware.{Ptr, null, vmem_region_size, max_pt_len}
use yalnix_implementation.Frames.{Memory}
use yalnix_implementation.Frames.Loops.{error}
use yalnix_implementation.Frames.Conservation.{count}
use yalnix_implementation.Kernel.{Kernel, Pcb, M, ◌>>=◌, ok, Ends, ends, error_code, count_malloc}
use yalnix_implementation.Kernel.Processes.{with_process, update-with, put-same}
use yalnix_implementation.Process.{free_addr_space}
use yalnix_implementation.Process.Freeing.{owns, free_addr_space-Freed}
use yalnix_implementation.Load.Image.{
  LoadInfo, executable, text_page, data_page, data_pages, stack_pages, stack_pointer,
}
use yalnix_implementation.Load.Placement.{place_pages-mallocs}
use yalnix_implementation.Load.ThrowAway.{HasRoom, throw_away-ThrownAway}
use yalnix_implementation.Load.Loaded.{thrown, text_placed, clear_region1-with, place_section-with}
use yalnix_implementation.Load.{place_sections, commit_load, load_program}

module _ (k : Kernel) (a : Ptr) (li : LoadInfo) (args : List (List ℕ)) (p : Pcb) where
  -- the process when the loop over the text stops
  abbrev pub stopped_process : Pcb
  stopped_process = record p {
    user_context = record p.user_context { sp = stack_pointer args };
    user_text_pt_index = text_page li;
    user_page_table = (text_placed k a li args p).table;
  }

  abbrev pub stopped : Kernel
  stopped =
      with_process (record k { ptbr1 = a }) a stopped_process (text_placed k a li args p).memory

  load_program-stopped :
      (text_read data_read : Bool)
      → a ≢ null
      → k.pcbs a ≡ some p
      → k.memory.malloc k.memory.mallocs ≢ null
      → vmem_region_size ≤ li.entry
      → stack_pages args + data_page li + data_pages li < max_pt_len
      → (text_placed k a li args p).status ≡ error
      → load_program (executable li text_read data_read) args a k
        ≡ (free_addr_space a >>= λ _ k'. ok error_code k') stopped
  unfolding load_program commit_load place_sections
  load_program-stopped text_read data_read live holds room linked small fails =
      let p0 = record p { user_context = record p.user_context { sp = stack_pointer args } } in
      let point = λ (q : Pcb). record q {
        user_context = record q.user_context { sp = stack_pointer args };
      } in
      let text = λ (q : Pcb). record q { user_text_pt_index = text_page li } in
      let k1 = record k { ptbr1 = a } in
      let t = thrown k a li args p in
      let p1 = record p0 { user_page_table = t.0 } in
      ground (
        arith,
        put-same k a p holds,
        update-with k a point p k.memory live,
        clear_region1-with k1 a live p0 (count_malloc k).memory,
        update-with k1 a text p1 t.1 live,
        place_section-with k1 a live li.t_npg (text_page li) (text p1) t.1,
      )

  stopped-room : HasRoom k.memory → HasRoom stopped.memory
  stopped-room room =
      let gone = throw_away-ThrownAway p.user_page_table (count_malloc k).memory room in
      let t = thrown k a li args p in
      rw ((place_pages-mallocs li.t_npg (text_page li) t.0 t.1).0) (rw (gone.same_malloc) room)

twice_freed :
    (m : M ℤ) (k : Kernel) (a : Ptr) (s s1 s2 : Kernel)
    → m k ≡ (free_addr_space a >>= λ _ k'. ok error_code k') s
    → free_addr_space a s ≡ ok (pos 0) s1
    → free_addr_space a s1 ≡ ok (pos 0) s2
    → (m >>= λ _. free_addr_space a) k ≡ ok (pos 0) s2
twice_freed m k a s s1 s2 first second third = ground arith

-- Behind a call that fails for lack of frames and one of free_addr_space: each frame is free once more than
-- the loop left it for each of the two times that each entry that maps it was given up.
pub record Doubled (q : Pcb) (m : Memory) (k' : Kernel) : Type 0 where
  pub twice : (f : ℕ) → count f k'.memory.pfn_list ≡ owns f q + (owns f q + count f m.pfn_list)

-- If the frames run out while LoadProgram places the text of a file with an entry in region 1 and
-- a page between heap and stack, and no allocation fails, each frame that the process's table and
-- kernel stack then map goes to the free list, and free_addr_space, which KernelExit calls next,
-- puts it there a second time.
pub load_program-Doubled :
    (k : Kernel) (a : Ptr) (li : LoadInfo) (text_read data_read : Bool) (args : List (List ℕ))
    (p : Pcb)
    → a ≢ null
    → k.pcbs a ≡ some p
    → HasRoom k.memory
    → vmem_region_size ≤ li.entry
    → stack_pages args + data_page li + data_pages li < max_pt_len
    → (text_placed k a li args p).status ≡ error
    → Ends
        (λ r k'. Doubled (stopped_process k a li args p) (text_placed k a li args p).memory k')
        ((load_program (executable li text_read data_read) args a >>= λ _. free_addr_space a) k)
load_program-Doubled k a li text_read data_read args p live holds room linked small fails =
    let q = stopped_process k a li args p in
    let s = stopped k a li args p in
    let here : s.pcbs a ≡ some q = rw (==-refl a) refl in
    let (m1, frees1, same1, counts1) =
      free_addr_space-Freed s a q live here (stopped-room k a li args p room) in
    let s1 = record s { memory = m1 } in
    let (m2, frees2, same2, counts2) =
      free_addr_space-Freed s1 a q live here (rw same1 (stopped-room k a li args p room)) in
    subst (Ends λ r k'. Doubled q (text_placed k a li args p).memory k')
      (sym (
        twice_freed (load_program (executable li text_read data_read) args a) k a s s1
          (record s1 { memory = m2 })
          (load_program-stopped k a li args p text_read data_read live holds (room k.memory.mallocs)
            linked small fails)
          frees1 frees2))
      (ends (record { twice = λ f. omega (arith, counts1 f, counts2 f) }))
