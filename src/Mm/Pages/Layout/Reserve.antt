-- ===== src/Mm/Pages/Layout/Reserve.antt =====
-- Which part of the memory map `pmm_init_mmap` takes, and what `pmm_init` makes of the rest.
use lizarx.Prelude.{
  ℕ, zero, suc, ◌+◌, ◌-◌, ◌*◌, ◌/◌, ◌%◌, ◌^◌, ◌≤◌, ◌<◌, ◌≡◌, ◌≢◌, refl, ap, ◌∙◌, true, false, some,
  List, [], ◌∷◌, ◌++◌, ◌==◌, ◌&&◌, arith,
}
use mathlib.Core.Path.{subst}
use lizarx.Mm.Pages.{Pages, Region, page_size, aligned_base, masked, init}
use lizarx.Mm.Pages.Bitmap.{Module, paging_hier_size}
use lizarx.Mm.Pages.Filling.{Stacked, pages_from, map_pages, init-Stacked}
use lizarx.Mm.Pages.Layout.{
  Layout, modules_size, stacks_siz, has_room, without_front, layout_at, reserve_from, init_mmap,
}

abbrev pub empty_layout : Layout
empty_layout = record { bsp_stack = 0; easy_map_tbl = 0; pmm_stack_ptr = 0; startup_tables = 0 }

-- Once an entry is taken no other one is.
reserve-done :
    (n : ℕ) (l : Layout) (rs : List Region) → l.bsp_stack ≢ 0 → reserve_from n l rs ≡ (l, rs)
unfolding reserve_from
reserve-done n l [] ne = refl
reserve-done n l (r ∷ rs) ne =
    let e : (l.bsp_stack == 0) ≡ false = ground arith in
    let t : (r.kind == 1 && has_room n r && l.bsp_stack == 0) ≡ false = ground (arith, e) in
    rw (t, reserve-done n l rs ne) refl

-- Entries that are not free or have no room.
abbrev pub Unfit : ℕ → List Region → Type 0
Unfit n [] = Unit
Unfit n (r ∷ rs) = ((r.kind == 1 && has_room n r) ≡ false) × Unfit n rs

-- A free entry of whole pages below 4 GB, behind the first page, with room for what is taken.
pub record Roomy (n : ℕ) (r : Region) : Type 0 where
  pub free : r.kind ≡ 1
  pub base_aligned : r.base % page_size ≡ 0
  pub size_aligned : r.size % page_size ≡ 0
  pub behind : 0 < r.base
  pub reach : r.base + r.size < 2 ^ 32
  pub room : stacks_siz n + (paging_hier_size + 2) * page_size ≤ r.size

Roomy-has_room : (n : ℕ) (r : Region) → Roomy n r → has_room n r ≡ true
Roomy-has_room n r h =
    let a : aligned_base r.base ≡ r.base = omega (arith, h) in
    let b : masked (r.base + r.size) ≡ r.base + r.size = omega (arith, h) in
    rw (a, b) (ground (arith, h))

reserve-taken :
    (n : ℕ) (l : Layout) (front : List Region) (r : Region) (rest : List Region)
    → l.bsp_stack ≡ 0
    → Unfit n front
    → Roomy n r
    → reserve_from n l (front ++ (r ∷ rest)) ≡ (layout_at n r, front ++ (without_front n r ∷ rest))
unfolding reserve_from
reserve-taken n l [] r rest e u h =
    let room = Roomy-has_room n r h in
    let free : (r.kind == 1) ≡ true = ground (arith, h.free) in
    let fresh : (l.bsp_stack == 0) ≡ true = ground (arith, e) in
    rw (free, room, fresh, reserve-done n (layout_at n r) rest (omega (arith, h))) refl
reserve-taken n l (f ∷ front) r rest e u h =
    let t : (f.kind == 1 && has_room n f && l.bsp_stack == 0) ≡ false = ground (arith, u.0) in
    rw (t, reserve-taken n l front r rest e u.1 h) refl

-- What the call takes of the entry.
pub record Reserved (n : ℕ) (front : List Region) (r : Region) (rest : List Region)
    (res : Layout × List Region) : Type 0 where
  pub stack : res.0.bsp_stack ≡ r.base
  pub table : res.0.easy_map_tbl ≡ r.base + 0x2000
  pub pages : res.0.pmm_stack_ptr ≡ r.base + 0x2000 + 515 * page_size
  pub tables : res.0.startup_tables ≡ r.base + stacks_siz n
  pub within : res.0.startup_tables + (paging_hier_size + 2) * page_size ≤ r.base + r.size
  pub moved :
      res.1
      ≡ front
        ++ (record r { base = r.base + (stacks_siz n + (paging_hier_size + 2) * page_size) } ∷ rest)

-- `pmm_init_mmap` takes the front of the first free entry that has room, for an entry of whole pages below 4 GB with a
-- page more than it asks for: the stack, the table, the stack of pages and the first page tables lie in it one
-- behind the other, its base is moved behind them, and all other entries stay as they are.
pub init_mmap-Reserved :
    (ms : List Module) (front : List Region) (r : Region) (rest : List Region)
    → Unfit (modules_size 0 ms) front
    → Roomy (modules_size 0 ms) r
    → Reserved (modules_size 0 ms) front r rest (init_mmap ms (front ++ (r ∷ rest)))
unfolding init_mmap
init_mmap-Reserved ms front r rest u h =
    let n = modules_size 0 ms in
    let base : masked r.base ≡ r.base = omega (arith, h) in
    let moved : (without_front n r).base
        ≡ r.base + (stacks_siz n + (paging_hier_size + 2) * page_size) =
      omega (arith, h) in
    rw (reserve-taken n empty_layout front r rest refl u h) record {
      stack = base;
      table = omega (arith, base);
      pages = omega (arith, base);
      tables = omega (arith, base);
      within = omega (arith, base, h.room);
      moved = ap (λ b. front ++ (record r { base = b } ∷ rest)) moved;
    }

Stacked-pages_from :
    (m : ℕ → ℕ) (n at addr j : ℕ) (ys : List ℕ)
    → Stacked m at (pages_from addr n ++ ys)
    → j < n
    → m (at + j) ≡ addr + j * page_size
Stacked-pages_from m zero at addr j ys s lt = absurd (omega arith)
Stacked-pages_from m (suc n) at addr zero ys s lt = ap m (omega arith) ∙ s.0 ∙ omega arith
Stacked-pages_from m (suc n) at addr (suc j) ys s lt =
    ap m (omega arith)
    ∙ Stacked-pages_from m n (at + 1) (addr + page_size) j ys s.1 (omega arith)
    ∙ omega arith

-- For a memory map of one such entry, `pmm_init_mmap` and then `pmm_init`, with rounds for 2 ^ 20 pages, put on the stack
-- of free pages, from its pointer on, as many pages from the entry's new base on as the whole entry had: the address
-- right behind the entry is among them.
pub init-init_mmap :
    (ms : List Module) (r : Region) (rounds : ℕ) (p : Pages)
    → Roomy (modules_size 0 ms) r
    → 2 ^ 20 ≤ rounds
    → let taken = stacks_siz (modules_size 0 ms) + (paging_hier_size + 2) * page_size in
      (p' : Pages) × (init rounds (init_mmap ms (r ∷ [])).1 p ≡ some p')
      × (p'.pmm_stack_ptr ≡ p.pmm_stack_ptr)
      × ((j : ℕ)
          → j < r.size / page_size
          → p'.memory (p'.pmm_stack_ptr + j) ≡ r.base + taken + j * page_size)
      × ((k : ℕ) × (k < r.size / page_size) × (p'.memory (p'.pmm_stack_ptr + k) ≡ r.base + r.size))
init-init_mmap ms r rounds p h enough =
    let n = modules_size 0 ms in
    let taken = stacks_siz n + (paging_hier_size + 2) * page_size in
    let r' : Region = record r { base = r.base + taken } in
    let (p', e, at, s, b) = init-Stacked rounds (r' ∷ []) p (omega (arith, h), tt) enough in
    let map : (init_mmap ms (r ∷ [])).1 ≡ r' ∷ [] = (init_mmap-Reserved ms [] r [] tt h).moved in
    let k = (r.size - taken) / page_size in
    let addr : aligned_base r'.base ≡ r.base + taken = omega (arith, h) in
    let pages : map_pages (r' ∷ [])
        ≡ pages_from (r.base + taken) (masked r.size / page_size) ++ [] =
      rw (h.free, addr) refl in
    let pushed : (j : ℕ)
        → j < r.size / page_size
        → p'.memory (p'.pmm_stack_ptr + j) ≡ r.base + taken + j * page_size =
      λ j lt.
        ap (λ a. p'.memory (a + j)) at
        ∙ Stacked-pages_from p'.memory (masked r.size / page_size) p.pmm_stack_ptr (r.base + taken)
            j [] (subst (Stacked p'.memory p.pmm_stack_ptr) pages s) (omega (arith, h)) in
    (
      p',
      ap (λ l. init rounds l p) map ∙ e,
      at,
      pushed,
      (k, omega (arith, h), pushed k (omega (arith, h)) ∙ omega (arith, h)),
    )
