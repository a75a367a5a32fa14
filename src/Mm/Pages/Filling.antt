-- ===== src/Mm/Pages/Filling.antt =====
-- What `pmm_init` pushes.
use lizarx.Prelude.{
  ℕ, zero, suc, ◌+◌, ◌*◌, ◌/◌, ◌%◌, ◌^◌, ◌≤◌, ◌<◌, ◌≡◌, refl, ap, ◌∙◌, Option, some, List, [], ◌∷◌,
  ◌++◌, ltb, ◌==◌, if◌then◌else◌, arith, length, Bool-cases, inl, inr, true,
}
use lizarx.Mm.Pages.{
  page_size, Pages, Region, write, aligned_base, masked, push_pages, push_region, push_map, init,
}

-- The words from `at` on.
abbrev pub Stacked : (ℕ → ℕ) → ℕ → List ℕ → Type 0
Stacked m at [] = Unit
Stacked m at (x ∷ xs) = (m at ≡ x) × Stacked m (at + 1) xs

-- `n` pages from `addr` on.
abbrev pub pages_from : ℕ → ℕ → List ℕ
pages_from addr zero = []
pages_from addr (suc n) = addr ∷ pages_from (addr + page_size) n

-- The pages that an entry of the memory map gives.
abbrev pub region_pages : Region → List ℕ
region_pages r =
    if r.kind == 1 then pages_from (aligned_base r.base) (masked r.size / page_size) else []

abbrev pub map_pages : List Region → List ℕ
map_pages [] = []
map_pages (r ∷ rs) = region_pages r ++ map_pages rs

-- No entry of the map ends within a page of the end of the address space.
abbrev pub Within : List Region → Type 0
Within [] = Unit
Within (r ∷ rs) = (r.base + r.size + page_size < 2 ^ 64) × Within rs

-- What a filling did from `at` on.
record Filled (at : ℕ) (xs : List ℕ) (m : ℕ → ℕ) (r : Option (ℕ × (ℕ → ℕ))) : Type 0 where
  memory : ℕ → ℕ
  result : r ≡ some (at + length xs, memory)
  stacked : Stacked memory at xs
  below : (j : ℕ) → j < at → memory j ≡ m j

length-pages_from : (addr n : ℕ) → length (pages_from addr n) ≡ n
length-pages_from addr zero = refl
length-pages_from addr (suc n) = ap suc (length-pages_from (addr + page_size) n)

push_pages-step :
    (n rounds addr at : ℕ) (m : ℕ → ℕ)
    → addr + suc n * page_size < 2 ^ 64
    → Filled (at + 1) (pages_from (addr + page_size) n) (write m at addr) (
        push_pages rounds
          (addr + page_size)
          (addr + page_size + n * page_size)
          (at + 1)
          (write m at addr))
    → Filled at
        (pages_from addr (suc n))
        m
        (push_pages (suc rounds) addr (addr + suc n * page_size) at m)
unfolding push_pages
push_pages-step n rounds addr at m fits f = record {
  memory = f.memory;
  result = rw (more, next, last) (f.result ∙ ap (λ k. some (k, f.memory)) (omega arith));
  stacked = (f.below at (omega arith) ∙ ground arith, f.stacked);
  below = λ j lt. f.below j (omega arith) ∙ ground arith;
}
  where
    next : (addr + page_size) % 2 ^ 64 ≡ addr + page_size
    next = omega arith

    last : addr + suc n * page_size ≡ addr + page_size + n * page_size
    last = omega arith

    more : ltb addr (addr + suc n * page_size) ≡ true
    more = ground arith

push_pages-Filled :
    (n rounds addr at : ℕ) (m : ℕ → ℕ)
    → n < rounds
    → addr + n * page_size < 2 ^ 64
    → Filled at (pages_from addr n) m (push_pages rounds addr (addr + n * page_size) at m)
unfolding push_pages
push_pages-Filled n zero addr at m h fits = absurd (omega arith)
push_pages-Filled zero (suc rounds) addr at m h fits = record {
  memory = m;
  result = ground arith;
  stacked = tt;
  below = λ j lt. refl;
}
push_pages-Filled (suc n) (suc rounds) addr at m h fits = push_pages-step n rounds addr at m fits (
    push_pages-Filled n rounds (addr + page_size) (at + 1) (write m at addr) (omega arith)
      (omega arith))

push_region-Filled :
    (rounds : ℕ) (r : Region) (at : ℕ) (m : ℕ → ℕ)
    → r.base + r.size + page_size < 2 ^ 64
    → 2 ^ 20 ≤ rounds
    → Filled at (region_pages r) m (push_region rounds r at m)
unfolding push_region
push_region-Filled rounds r at m fits enough = elim (Bool-cases (r.kind == 1)) [
  | inl free ↦
      let n = masked r.size / page_size in
      let end : (aligned_base r.base + masked r.size) % 2 ^ 64
          ≡ aligned_base r.base + n * page_size =
        omega arith in
      rw (free, end)
        (push_pages-Filled n rounds (aligned_base r.base) at m (omega arith) (omega arith))
  | inr used ↦ rw used (record {
    memory = m;
    result = ap (λ k. some (k, m)) (omega arith);
    stacked = tt;
    below = λ j lt. refl;
  })
]

Stacked-append :
    (m m' : ℕ → ℕ) (at : ℕ) (xs ys : List ℕ)
    → Stacked m at xs
    → ((j : ℕ) → j < at + length xs → m' j ≡ m j)
    → Stacked m' (at + length xs) ys
    → Stacked m' at (xs ++ ys)
Stacked-append m m' at [] ys s e t = let z : at + 0 ≡ at = omega arith in rw z at t
Stacked-append m m' at (x ∷ xs) ys s e t =
    let z : at + suc (length xs) ≡ at + 1 + length xs = omega arith in
    (
      e at (omega arith) ∙ s.0,
      Stacked-append m m' (at + 1) xs ys s.1 (λ j lt. e j (omega arith)) (rw z at t),
    )

-- The whole map.
push_map-Filled :
    (rounds : ℕ) (rs : List Region) (at : ℕ) (m : ℕ → ℕ)
    → Within rs
    → 2 ^ 20 ≤ rounds
    → (m' : ℕ → ℕ) × (push_map rounds rs at m ≡ some m')
      × Stacked m' at (map_pages rs)
      × ((j : ℕ) → j < at → m' j ≡ m j)
unfolding push_map
push_map-Filled rounds [] at m w enough = (m, refl, tt, λ j lt. refl)
push_map-Filled rounds (r ∷ rs) at m w enough =
    let f = push_region-Filled rounds r at m w.0 enough in
    let (m', e, s, b) =
      push_map-Filled rounds rs (at + length (region_pages r)) f.memory w.1 enough in
    (
      m',
      rw (f.result, push_map) e,
      Stacked-append f.memory m' at (region_pages r) (map_pages rs) f.stacked b s,
      λ j lt. b j (omega arith) ∙ f.below j lt,
    )

-- `pmm_init` on a memory map below the end of the address space, with 2 ^ 20 rounds for each entry, stacks, from `pmm_stack_ptr` upwards, the pages of
-- the free entries in the order of the map, and writes nothing below.
pub init-Stacked :
    (rounds : ℕ) (rs : List Region) (p : Pages)
    → Within rs
    → 2 ^ 20 ≤ rounds
    → (p' : Pages) × (init rounds rs p ≡ some p')
      × (p'.pmm_stack_ptr ≡ p.pmm_stack_ptr)
      × Stacked p'.memory p.pmm_stack_ptr (map_pages rs)
      × ((j : ℕ) → j < p.pmm_stack_ptr → p'.memory j ≡ p.memory j)
unfolding init
init-Stacked rounds rs p w enough =
    let (m, e, s, b) = push_map-Filled rounds rs p.pmm_stack_ptr p.memory w enough in
    (record p { memory = m }, rw (e, init), refl, s, b)
