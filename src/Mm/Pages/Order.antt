-- ===== src/Mm/Pages/Order.antt =====
-- The order in which pages are handed out.
use mathlib.Core.List.{append-nil}
use mathlib.Core.Path.{subst}
use lizarx.Prelude.{
  ℕ, zero, suc, ◌+◌, ◌-◌, ◌*◌, ◌/◌, ◌%◌, ◌^◌, ◌≤◌, ◌<◌, ◌≡◌, refl, ap, ◌∙◌, some, List, [], ◌∷◌,
  ◌++◌, arith, length, sym, ◌==◌, ◌⊎◌, inl, inr, true, false, Bool-cases, if◌then◌else◌,
}
use lizarx.Mm.Pages.{page_size, Pages, Region, aligned_base, masked, malloc_4k, free_4k, init}
use lizarx.Mm.Pages.Filling.{Stacked, region_pages, map_pages, pages_from, Within, init-Stacked}

-- `n` allocations one after the other.
abbrev pub malloc_all : ℕ → Pages → List ℕ
malloc_all zero p = []
malloc_all (suc n) p = let (page, p') = malloc_4k p in page ∷ malloc_all n p'

-- The numbers of the pages at these addresses.
abbrev pub numbers : List ℕ → List ℕ
numbers [] = []
numbers (a ∷ xs) = a / page_size ∷ numbers xs

malloc_all-Stacked :
    (xs : List ℕ) (p : Pages)
    → Stacked p.memory p.pmm_stack_ptr xs
    → malloc_all (length xs) p ≡ numbers xs
unfolding malloc_4k
malloc_all-Stacked [] p s = refl
malloc_all-Stacked (x ∷ xs) p s =
    let rest = malloc_all-Stacked xs (record p { pmm_stack_ptr = p.pmm_stack_ptr + 1 }) s.1 in
    rw (s.0, rest)

-- `n` numbers from `first` on.
abbrev pub consecutive : ℕ → ℕ → List ℕ
consecutive first zero = []
consecutive first (suc n) = first ∷ consecutive (first + 1) n

-- The pages that lie wholly in a free entry that begins at a page, in order.
abbrev pub free_pages : List Region → List ℕ
free_pages [] = []
free_pages (r ∷ rs) =
    (if r.kind == 1 then consecutive (r.base / page_size) (r.size / page_size) else [])
    ++ free_pages rs

-- The free entries begin at a page, are smaller than 4 GB and end before the last page of the address space.
abbrev pub Regular : List Region → Type 0
Regular [] = Unit
Regular (r ∷ rs) =
    (r.kind ≡ 1 → (r.base % page_size ≡ 0) × (r.size < 2 ^ 32))
    × (r.base + r.size + page_size < 2 ^ 64)
    × Regular rs

Regular-Within : (rs : List Region) → Regular rs → Within rs
Regular-Within [] h = tt
Regular-Within (r ∷ rs) h = (h.1, Regular-Within rs h.2)

numbers-pages_from : (addr n : ℕ) → numbers (pages_from addr n) ≡ consecutive (addr / page_size) n
numbers-pages_from addr zero = refl
numbers-pages_from addr (suc n) =
    let next : (addr + page_size) / page_size ≡ addr / page_size + 1 = omega arith in
    ap (λ xs. addr / page_size ∷ xs)
      (numbers-pages_from (addr + page_size) n ∙ ap (λ a. consecutive a n) next)

numbers-append : (xs ys : List ℕ) → numbers (xs ++ ys) ≡ numbers xs ++ numbers ys
numbers-append [] ys = refl
numbers-append (x ∷ xs) ys = ap (λ zs. x / page_size ∷ zs) (numbers-append xs ys)

length-numbers : (xs : List ℕ) → length (numbers xs) ≡ length xs
length-numbers [] = refl
length-numbers (x ∷ xs) = ap suc (length-numbers xs)

-- What is pushed for such entries are their pages.
numbers-map_pages : (rs : List Region) → Regular rs → numbers (map_pages rs) ≡ free_pages rs
numbers-map_pages [] h = refl
numbers-map_pages (r ∷ rs) h =
    numbers-append (region_pages r) (map_pages rs)
    ∙ ap (λ ys. numbers (region_pages r) ++ ys) (numbers-map_pages rs h.2)
    ∙ ap (λ xs. xs ++ free_pages rs) (own (Bool-cases (r.kind == 1)))
  where
    own :
        ((r.kind == 1) ≡ true) ⊎ ((r.kind == 1) ≡ false)
        → numbers (region_pages r)
          ≡ (if r.kind == 1 then consecutive (r.base / page_size) (r.size / page_size) else [])
    own (inr used) = rw used refl
    own (inl free) =
        let whole = h.0 (ground (arith, free)) in
        let base : aligned_base r.base / page_size ≡ r.base / page_size =
          omega (arith, whole, h.1) in
        let count : masked r.size / page_size ≡ r.size / page_size = omega (arith, whole) in
        rw free (
          numbers-pages_from (aligned_base r.base) (masked r.size / page_size)
          ∙ ap (λ a. consecutive a (masked r.size / page_size)) base
          ∙ ap (consecutive (r.base / page_size)) count)

-- Where the free entries of the map begin at a page, are smaller than 4 GB and end before the last page of the address
-- space, after `pmm_init` the allocations hand out exactly the pages that lie wholly in the free entries, in order,
-- as long as there are any. Enough rounds are 2 ^ 20.
pub init-malloc_4k :
    (rounds : ℕ) (rs : List Region) (p : Pages)
    → Regular rs
    → 2 ^ 20 ≤ rounds
    → (p' : Pages) × (init rounds rs p ≡ some p')
      × (malloc_all (length (free_pages rs)) p' ≡ free_pages rs)
init-malloc_4k rounds rs p h enough =
    let (p', e, at, s, b) = init-Stacked rounds rs p (Regular-Within rs h) enough in
    let pages = numbers-map_pages rs h in
    let count : length (free_pages rs) ≡ length (map_pages rs) =
      ap length (sym pages) ∙ length-numbers (map_pages rs) in
    (
      p',
      e,
      ap (λ n. malloc_all n p') count ∙ malloc_all-Stacked (map_pages rs) p' (rw at s) ∙ pages,
    )

-- A page that is freed is the one that is handed out next, and the stack is as before below its top.
pub free_4k-malloc_4k :
    (page : ℕ) (p : Pages)
    → page * page_size < 2 ^ 64
    → 0 < p.pmm_stack_ptr
    → let r = malloc_4k (free_4k page p) in
      (r.0 ≡ page)
      × (r.1.pmm_stack_ptr ≡ p.pmm_stack_ptr)
      × ((j : ℕ) → p.pmm_stack_ptr ≤ j → r.1.memory j ≡ p.memory j)
unfolding malloc_4k free_4k
free_4k-malloc_4k page p fits room = (ground arith, omega arith, λ j le. ground arith)

abbrev Last : ℕ → List ℕ → Type 0
Last a xs = (front : List ℕ) × (xs ≡ front ++ (a ∷ []))

pages_from-Last : (addr n : ℕ) → Last (addr + n * page_size) (pages_from addr (suc n))
pages_from-Last addr zero = ([], ap (λ a. a ∷ []) (omega arith))
pages_from-Last addr (suc n) =
    let (front, e) = pages_from-Last (addr + page_size) n in
    (addr ∷ front, ap (λ xs. addr ∷ xs) (e ∙ ap (λ a. front ++ (a ∷ [])) (omega arith)))

region_pages-Last :
    (r : Region)
    → r.kind ≡ 1
    → 0 < r.base % page_size
    → r.size % page_size ≡ 0
    → 0 < r.size
    → r.size < 2 ^ 32
    → r.base + r.size + page_size < 2 ^ 64
    → (a : ℕ) × Last a (region_pages r) × (r.base + r.size < a + page_size)
region_pages-Last r free off whole some_pages small fits =
    last (masked r.size / page_size - 1) (omega arith)
  where
    last :
        (n : ℕ)
        → masked r.size / page_size ≡ suc n
        → (a : ℕ) × Last a (region_pages r) × (r.base + r.size < a + page_size)
    last n more = (
      aligned_base r.base + n * page_size,
      rw (free, more) (pages_from-Last (aligned_base r.base) n),
      omega (arith, more),
    )

Stacked-append_end :
    (m : ℕ → ℕ) (at a : ℕ) (front : List ℕ)
    → Stacked m at (front ++ (a ∷ []))
    → m (at + length front) ≡ a
Stacked-append_end m at a [] s = ap m (omega arith) ∙ s.0
Stacked-append_end m at a (x ∷ front) s =
    ap m (omega arith) ∙ Stacked-append_end m (at + 1) a front s.1

-- For a map of one free entry that starts off a page and holds a whole number of pages, the last page that `pmm_init`
-- stacks ends behind the entry.
pub init-overrun :
    (rounds : ℕ) (r : Region) (p : Pages)
    → r.kind ≡ 1
    → 0 < r.base % page_size
    → r.size % page_size ≡ 0
    → 0 < r.size
    → r.size < 2 ^ 32
    → r.base + r.size + page_size < 2 ^ 64
    → 2 ^ 20 ≤ rounds
    → (p' : Pages) × (k : ℕ) × (init rounds (r ∷ []) p ≡ some p')
      × (r.base + r.size < p'.memory (p'.pmm_stack_ptr + k) + page_size)
init-overrun rounds r p free off whole some_pages small fits enough =
    let (p', e, at, s, b) = init-Stacked rounds (r ∷ []) p (fits, tt) enough in
    let (a, last, behind) = region_pages-Last r free off whole some_pages small fits in
    let same : region_pages r ++ [] ≡ last.0 ++ (a ∷ []) = append-nil (region_pages r) ∙ last.1 in
    let found : p'.memory (p'.pmm_stack_ptr + length last.0) ≡ a =
      Stacked-append_end p'.memory p'.pmm_stack_ptr a last.0
        (subst (Stacked p'.memory p'.pmm_stack_ptr) same (rw at s)) in
    (p', length last.0, e, rw found behind)
