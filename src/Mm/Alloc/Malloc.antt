-- ===== src/Mm/Alloc/Malloc.antt =====
-- `vmm_malloc`: the search for a free range, and the mapping of its pages.
use lizarx.Prelude.{
  ◌>>=◌, ℕ, suc, ◌+◌, ◌*◌, ◌/◌, ◌%◌, ◌^◌, ◌≤◌, ◌<◌, ◌≡◌, ◌≢◌, refl, ap, ◌∙◌, sym, Bool, true, false,
  Option, none, some, ◌==◌, inl, inr, if◌then◌else◌, arith,
}
use mathlib.Core.Path.{subst}
use lizarx.Mm.Tables.{PagingEntry, Space, Memory, page_size, tmp_pagebuf, entry, virt_to_phys}
use lizarx.Mm.FreeStack.{Context, width, find_freemem, Live, IsValid}
use lizarx.Mm.FreeStack.Find.{Allocated, find_freemem-Allocated, find_freemem-Cut}
use lizarx.Mm.Tables.Tree.{Place, Tree, FreshPages}
use lizarx.Mm.Tables.Walk.{Walk}
use lizarx.Mm.Tables.Reading.{virt_to_phys-Walk}
use lizarx.Mm.Alloc.{Vmm, aligned_page, map_from, map_found, vmm_malloc}
use lizarx.Mm.Alloc.Mapped.{pages_needed, Outside, Loaded, map_from-Loaded}

-- The free ranges are whole pages of the address space, above TMP_PAGEBUF.
abbrev pub InPages : Context → Type 0
InPages c =
    (k : ℕ)
    → Live c k
    → ((c.stack k).start % page_size ≡ 0)
      × ((c.stack k).end % page_size ≡ 0)
      × (tmp_pagebuf < (c.stack k).start)
      × ((c.stack k).end ≤ 2 ^ 48)

-- The free ranges that `vmm_malloc` takes the block from.
abbrev pub source : Bool → Vmm → Context
source kernel v = if kernel then v.startup else v.ranges

-- What a call that succeeds did.
pub record Allocation (place : Place) (cur ctx : Space) (size : ℕ) (kernel : Bool) (v : Vmm)
    (r : Option (ℕ × Vmm)) : Type 0 where
  pub virt : ℕ
  pub state : Vmm
  pub after : Place
  pub page : ℕ → ℕ
  pub result : r ≡ some (virt, state)
  pub aligned : virt % page_size ≡ 0
  pub block : Allocated (source kernel v) (aligned_page size) (virt, source kernel state)
  pub whole_pages : InPages (source kernel state)
  pub tree : Tree after cur state.memory
  pub kept : (q : ℕ) (x : ℕ × ℕ) → place q ≡ some x → after q ≡ some x
  pub fresh : (j : ℕ) → j * page_size < aligned_page size → place (page j) ≡ none
  pub owned :
      (j : ℕ) → j * page_size < aligned_page size → after (page j) ≡ some (4, virt / page_size + j)
  pub reads :
      (depth j : ℕ)
      → j * page_size < aligned_page size
      → (virt_to_phys (suc depth) cur ctx (virt + j * page_size) state.memory >>= λ r. some r.0)
        ≡ some (page j * page_size)
  pub others :
      (depth : ℕ) (ctx' : Space) (virt' : ℕ) (e : PagingEntry)
      → place ctx'.highest_paging ≡ some (0, 0)
      → virt' < 2 ^ 48
      → virt' % page_size ≡ 0
      → virt' ≢ tmp_pagebuf
      → Outside virt (aligned_page size / page_size) virt'
      → Walk v.memory ctx'.highest_paging virt' e
      → (virt_to_phys (suc depth) cur ctx' virt' state.memory >>= λ r. some r.0)
        ≡ some (e.next_paging_layer * page_size)

-- What a call needs: a range that is wide enough, and fresh pages for the block and its tables.
pub record Allocatable (place : Place) (cur ctx : Space) (size rounds : ℕ) (kernel : Bool) (v : Vmm)
    : Type 0 where
  pub valid : IsValid (source kernel v)
  pub whole_pages : InPages (source kernel v)
  pub range : ℕ
  pub live : Live (source kernel v) range
  pub wide : aligned_page size ≤ width ((source kernel v).stack range)
  pub int_size : aligned_page size < 2 ^ 31
  pub enough : aligned_page size / page_size < rounds
  pub tree : Tree place cur v.memory
  pub root : place ctx.highest_paging ≡ some (0, 0)
  pub fresh : FreshPages (pages_needed (aligned_page size / page_size)) place v.memory.pages

module _ (place : Place) (cur ctx : Space) (size rounds : ℕ) (kernel : Bool) (v : Vmm)
    (h : Allocatable place cur ctx size rounds kernel v) where
  abbrev found : ℕ × Context
  found = find_freemem (source kernel v) (aligned_page size)

  at_range :
      (found.0 % page_size ≡ 0) × (tmp_pagebuf < found.0) × (found.0 + aligned_page size ≤ 2 ^ 48)
  at_range =
      let cut =
        find_freemem-Cut (source kernel v) (aligned_page size) h.range h.valid h.live h.wide in
      let (i, live, e, fit) = cut.0 in
      let p = h.whole_pages i live in let o = h.valid.ranges i live in omega (arith, e, p, fit, o)

  whole : InPages found.1
  whole j l =
      let cut =
        find_freemem-Cut (source kernel v) (aligned_page size) h.range h.valid h.live h.wide in
      let (i, live, e, s) = cut.1 j l in
      let p = h.whole_pages i live in
      elim s [ inl same ↦ omega (arith, e, p, same) | inr moved ↦ omega (arith, e, p, moved) ]

  loop :
      (depth flgs : ℕ)
      → Loaded place cur ctx found.0 flgs (aligned_page size / page_size) v.memory (
          map_from
            (suc (suc depth))
            true
            cur
            rounds
            ctx
            found.0
            (aligned_page size)
            flgs
            0
            v.memory)
  loop depth flgs =
      subst
        (λ a. Loaded place cur ctx a flgs (aligned_page size / page_size) v.memory (
          map_from (suc (suc depth)) true cur rounds ctx found.0 (aligned_page size) flgs 0
            v.memory))
        (omega arith)
        (map_from-Loaded (aligned_page size / page_size) rounds depth place cur ctx found.0
          (aligned_page size) flgs 0 v.memory h.enough
          (record {
            tree = h.tree;
            root = h.root;
            fresh = h.fresh;
            aligned = omega (arith, at_range);
            above = at_range.1;
            rest = omega arith;
            reach = at_range.2;
            int_size = h.int_size;
          }))

  -- The state after the call, with the memory that the loop left.
  abbrev with_source : Memory → Vmm
  with_source m =
      record (if kernel then record v { startup = found.1 } else record v { ranges = found.1 }) {
        memory = m;
      }

  source-with_source : (m : Memory) → source kernel (with_source m) ≡ found.1
  source-with_source m = ground arith

-- Where the free ranges are valid and whole pages of the address space, one of them is wide enough for the block,
-- the block is below 2 GB, the tables are trees, and four fresh pages for each page of the block are free,
-- `vmm_malloc` returns, with a round more than the block has pages and a recursion of depth 2. The block was free
-- and is taken, and nothing else is; the free ranges stay valid and whole pages. `virt_to_phys` then gives each
-- page of the block a page of its own that was fresh, and is neither a table nor the page of another address, and
-- gives every other aligned address below 2 ^ 48 but TMP_PAGEBUF that the tables of any context lead to what it
-- gave.
pub vmm_malloc-Allocation :
    (depth : ℕ) (place : Place) (cur ctx : Space) (size rounds : ℕ) (kernel : Bool) (flgs : ℕ)
    (v : Vmm)
    → Allocatable place cur ctx size rounds kernel v
    → Allocation place cur ctx size kernel v
        (vmm_malloc (suc (suc depth)) true cur rounds ctx size kernel flgs v)
unfolding vmm_malloc
vmm_malloc-Allocation depth place cur ctx size rounds kernel flgs v h = record {
  virt = virt;
  state = with_source place cur ctx size rounds kernel v h l.memory;
  after = l.after;
  page = l.page;
  result = rw (found_block) refl;
  aligned = p.0;
  block =
      subst (λ c. Allocated (source kernel v) (aligned_page size) (virt, c)) (sym same)
        (find_freemem-Allocated (source kernel v) (aligned_page size) h.range h.valid h.live
          h.wide);
  whole_pages = subst InPages (sym same) (whole place cur ctx size rounds kernel v h);
  tree = l.tree;
  kept = l.kept;
  fresh = λ j lt. l.fresh j (omega arith);
  owned = λ j lt. l.owned j (omega arith);
  reads = λ depth j lt.
      virt_to_phys-Walk depth l.after cur ctx (virt + j * page_size) (entry flgs (l.page j))
        l.memory l.tree (l.kept ctx.highest_paging (0, 0) h.root) (omega (arith, p))
        (omega (arith, p)) (omega (arith, p)) (l.ways j (omega arith))
      ∙ number (l.page j) (l.small j (omega arith));
  others = λ depth ctx' virt' e at small al nb out w.
      virt_to_phys-Walk depth l.after cur ctx' virt' e l.memory l.tree
        (l.kept ctx'.highest_paging (0, 0) at) small al nb
        (l.others ctx'.highest_paging virt' e at small al nb out w);
}
  where
    virt : ℕ
    virt = (find_freemem (source kernel v) (aligned_page size)).0

    p : (virt % page_size ≡ 0) × (tmp_pagebuf < virt) × (virt + aligned_page size ≤ 2 ^ 48)
    p = at_range place cur ctx size rounds kernel v h

    l :
        Loaded place cur ctx virt flgs
          (aligned_page size / page_size)
          v.memory
          (map_from (suc (suc depth)) true cur rounds ctx virt (aligned_page size) flgs 0 v.memory)
    l = loop place cur ctx size rounds kernel v h depth flgs

    same :
        source kernel (with_source place cur ctx size rounds kernel v h l.memory)
        ≡ (find_freemem (source kernel v) (aligned_page size)).1
    same = source-with_source place cur ctx size rounds kernel v h l.memory

    number : (k : ℕ) → k < 2 ^ 40 → some (k % 2 ^ 40 * page_size) ≡ some (k * page_size)
    number k small = ap (λ n. some n) (omega arith)

    found_block :
        map_found (suc (suc depth)) true cur rounds ctx (aligned_page size) flgs virt v.memory
        ≡ some l.memory
    found_block = let e : (virt == 0) ≡ false = ground (arith, p) in rw (e, map_found) l.result
