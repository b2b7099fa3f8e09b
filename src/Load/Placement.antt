-- ===== src/Load/Placement.antt =====
-- LoadProgram: what the loops that give pages to a section do, and the one that protects the text.
use yalnix_implementation.Base.{
  ℕ, zero, suc, ◌+◌, ◌-◌, ◌≤◌, ◌<◌, ◌≡◌, ◌≢◌, refl, some, List, [], ◌∷◌, get_elem?, set, arith, ◌∙◌,
  Option-cases, inl, inr, ◌⊎◌, length, length-set, get_elem?-set_self, get_elem?-set_ne,
  get_elem?-lt,
}
use yalnix_implementation.Hardware.{Pte, pte, valid_frame, no_x_w_r, x_no_w_r}
use yalnix_implementation.Frames.{Memory, pop_frame, allocate_pfn}
use yalnix_implementation.Frames.Loops.{done, Walk}
use yalnix_implementation.Frames.Conservation.{total, mapped-set, count-pop_frame}
use yalnix_implementation.Frames.Mapping.{AllLive, take_live, le_cases}
use yalnix_implementation.Frames.Unmapping.{IsUnmapped}
use yalnix_implementation.Load.Pages.{place_pages, protect_text}

-- the entry maps its page to some frame with the protection
abbrev pub MapsWith : ℕ → List Pte → ℕ → Type 0
MapsWith prot pt j = (f : ℕ) × (get_elem? pt j ≡ some (pte valid_frame prot f))

pub place_pages-outside :
    (n i j : ℕ) (pt : List Pte) (m : Memory)
    → (j < i) ⊎ (i + n ≤ j)
    → get_elem? (place_pages n i pt m).table j ≡ get_elem? pt j
unfolding place_pages
place_pages-outside zero i j pt m h = refl
place_pages-outside (suc n) i j pt m h = elim (Option-cases (get_elem? pt i)) [
  | inl out ↦ rw (out, place_pages) refl
  | inr (e, at) ↦ elim (Option-cases (allocate_pfn m).0) [
    | inl failed ↦ rw (at, place_pages) (rw failed (get_elem?-set_ne pt i j _ (omega arith)))
    | inr (g, got) ↦
        rw (at, place_pages)
          (rw got (
            place_pages-outside n (suc i) j _ _ (omega arith)
            ∙ get_elem?-set_ne pt i j _ (omega arith)))
  ]
]

pub place_pages-length :
    (n i : ℕ) (pt : List Pte) (m : Memory) → length (place_pages n i pt m).table ≡ length pt
unfolding place_pages
place_pages-length zero i pt m = refl
place_pages-length (suc n) i pt m = elim (Option-cases (get_elem? pt i)) [
  | inl out ↦ rw (out, place_pages) refl
  | inr (e, at) ↦ elim (Option-cases (allocate_pfn m).0) [
    | inl failed ↦ rw (at, place_pages) (rw failed (length-set pt i _))
    | inr (g, got) ↦
        rw (at, place_pages) (rw got (place_pages-length n (suc i) _ _ ∙ length-set pt i _))
  ]
]

-- What the loop has done to the stretch of `n` entries from `i` on, where it ends by its bound.
pub record Placed (n i : ℕ) (pt : List Pte) (m : Memory) (w : Walk) : Type 0 where
  pub ends : w.status ≡ done
  pub inside : (j : ℕ) → i ≤ j → j < i + n → MapsWith no_x_w_r w.table j
  pub left : length w.memory.pfn_list ≡ length m.pfn_list - n
  pub live : AllLive w.memory.pfn_list
  pub frames :
      ((j : ℕ) → i ≤ j → j < i + n → IsUnmapped pt j)
      → (f : ℕ) → f ≢ 0
      → total f w.table w.memory ≡ total f pt m

place_page :
    (f i g : ℕ) (pt : List Pte) (m : Memory)
    → f ≢ 0
    → IsUnmapped pt i
    → (allocate_pfn m).0 ≡ some g
    → total f (set pt i (pte valid_frame no_x_w_r g)) (allocate_pfn m).1 ≡ total f pt m
unfolding allocate_pfn
place_page f i g pt m live (e, at, bad) got =
    ground
      (arith, mapped-set f pt i e (pte valid_frame no_x_w_r g) at, count-pop_frame f m.pfn_list)

pop_frame-length : (fs : List ℕ) → length (pop_frame fs).1 ≡ length fs - 1
unfolding pop_frame
pop_frame-length [] = omega arith
pop_frame-length (f ∷ fs) = omega arith

IsUnmapped-set :
    (pt : List Pte) (i j : ℕ) (v : Pte) → i ≢ j → IsUnmapped pt j → IsUnmapped (set pt i v) j
IsUnmapped-set pt i j v ne (e, at, bad) = (e, get_elem?-set_ne pt i j v ne ∙ at, bad)

set_there :
    (pt : List Pte) (i j : ℕ) (old v : Pte)
    → i ≡ j
    → get_elem? pt i ≡ some old
    → get_elem? (set pt i v) j ≡ some v
set_there pt i j old v here at = rw (← here) (get_elem?-set_self pt i old v at)

-- With a free frame for each page, none of number 0, the loop ends by its bound.
pub place_pages-Placed :
    (n i : ℕ) (pt : List Pte) (m : Memory)
    → i + n ≤ length pt
    → n ≤ length m.pfn_list
    → AllLive m.pfn_list
    → Placed n i pt m (place_pages n i pt m)
unfolding place_pages allocate_pfn
place_pages-Placed zero i pt m fits enough live = record {
  ends = refl;
  inside = λ j lo hi. absurd (omega arith);
  left = omega arith;
  live = live;
  frames = λ bad f real. refl;
}
place_pages-Placed (suc n) i pt m fits enough live =
    let (e, at) = get_elem?-lt pt i (omega arith) in
    let (g, got, left, rest) = take_live m.pfn_list n enough live in
    let new = pte valid_frame no_x_w_r g in
    let m' = (allocate_pfn m).1 in
    let ih =
      place_pages-Placed n (suc i) (set pt i new) m' (omega (arith, length-set pt i new)) left
        rest in
    rw (at, place_pages)
      (rw got record {
        ends = ih.ends;
        inside = λ j lo hi. elim (le_cases i j lo) [
          | inl here ↦ (
            g,
            place_pages-outside n (suc i) j _ m' (omega arith) ∙ set_there pt i j e new here at,
          )
          | inr later ↦ ih.inside j later (omega arith)
        ];
        left = omega (arith, ih.left, pop_frame-length m.pfn_list);
        live = ih.live;
        frames = λ bad f real.
            ih.frames
              (λ j lo hi.
                IsUnmapped-set pt i j new (omega arith) (bad j (omega arith) (omega arith)))
              f real
            ∙ place_page f i g pt m real (bad i (omega arith) (omega arith)) got;
      })

pub protect_text-outside :
    (n i j : ℕ) (pt : List Pte)
    → (j < i) ⊎ (i + n ≤ j)
    → get_elem? (protect_text n i pt) j ≡ get_elem? pt j
unfolding protect_text
protect_text-outside zero i j pt h = refl
protect_text-outside (suc n) i j pt h = elim (Option-cases (get_elem? pt i)) [
  | inl out ↦ rw (out, protect_text) refl
  | inr (e, at) ↦
      rw (at, protect_text)
        (protect_text-outside n (suc i) j _ (omega arith) ∙ get_elem?-set_ne pt i j _ (omega arith))
]

pub protect_text-inside :
    (n i j : ℕ) (pt : List Pte)
    → i ≤ j
    → j < i + n
    → ((l : ℕ) → i ≤ l → l < i + n → MapsWith no_x_w_r pt l)
    → MapsWith x_no_w_r (protect_text n i pt) j
unfolding protect_text
protect_text-inside zero i j pt lo hi mapped = absurd (omega arith)
protect_text-inside (suc n) i j pt lo hi mapped =
    let (f, at) = mapped i (omega arith) (omega arith) in
    let new = pte valid_frame x_no_w_r f in
    rw (at, protect_text)
      (elim (le_cases i j lo) [
        | inl here ↦ (
          f,
          protect_text-outside n (suc i) j (set pt i new) (omega arith)
              ∙ set_there pt i j _ new here at,
        )
        | inr later ↦ protect_text-inside n (suc i) j (set pt i new) later (omega arith) (λ l a b.
            let (g, there) = mapped l (omega arith) (omega arith) in
            (g, get_elem?-set_ne pt i l new (omega arith) ∙ there))
      ])

-- the protection says nothing of the frames
pub protect_text-total :
    (f n i : ℕ) (pt : List Pte) (m : Memory) → total f (protect_text n i pt) m ≡ total f pt m
unfolding protect_text
protect_text-total f zero i pt m = refl
protect_text-total f (suc n) i pt m = elim (Option-cases (get_elem? pt i)) [
  | inl out ↦ rw (out, protect_text) refl
  | inr (e, at) ↦
      rw (at, protect_text)
        (protect_text-total f n (suc i) _ m
          ∙ ground (arith, mapped-set f pt i e (record e { prot = x_no_w_r }) at))
]

-- the loop asks `malloc` for nothing
pub place_pages-mallocs :
    (n i : ℕ) (pt : List Pte) (m : Memory)
    → ((place_pages n i pt m).memory.malloc ≡ m.malloc)
      × ((place_pages n i pt m).memory.mallocs ≡ m.mallocs)
unfolding place_pages allocate_pfn
place_pages-mallocs zero i pt m = (refl, refl)
place_pages-mallocs (suc n) i pt m = elim (Option-cases (get_elem? pt i)) [
  | inl out ↦ rw (out, place_pages) (refl, refl)
  | inr (e, at) ↦ elim (Option-cases (pop_frame m.pfn_list).0) [
    | inl failed ↦ rw (at, place_pages) (rw failed (refl, refl))
    | inr (g, got) ↦
        rw (at, place_pages)
          (rw got (
            place_pages-mallocs n (suc i) (set pt i (pte valid_frame no_x_w_r g))
              (allocate_pfn m).1))
  ]
]
