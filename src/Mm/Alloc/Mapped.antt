-- ===== src/Mm/Alloc/Mapped.antt =====
-- `vmm_malloc`: every page of the block gets a page of its own, which the tables then lead to.
use lizarx.Prelude.{
  set, set-same, set-other, ◌>>=◌, ℕ, zero, suc, ◌+◌, ◌*◌, ◌/◌, ◌%◌, ◌^◌, ◌≤◌, ◌<◌, ◌≡◌, ◌≢◌, ◌⊎◌,
  inl, inr, refl, ap, sym, Option-cases, lt→ltb, ◌∙◌, true, false, Option, none, some, ltb, arith,
  ℕ_discrete,
}
use mathlib.Core.Path.{subst}
use lizarx.Mm.Pages.{Pages, malloc_4k}
use lizarx.Mm.Tables.{
  PagingEntry, Space, Memory, page_size, tmp_pagebuf, write_entry, entry, vmm_map, index3,
}
use lizarx.Mm.Tables.Tree.{Place, Tree, FreshPages}
use lizarx.Mm.Tables.Grown.{after-kept}
use lizarx.Mm.Tables.Walk.{Walk, prefix3}
use lizarx.Mm.Tables.Preserving.{write-Tree}
use lizarx.Mm.Tables.Keeping.{kept-Walk}
use lizarx.Mm.Tables.Mapping.{Mapped, vmm_map-Mapped}
use lizarx.Mm.Alloc.{map_from}

-- Each page takes a physical page, and up to three for tables.
abbrev pub pages_needed : ℕ → ℕ
pages_needed zero = 0
pages_needed (suc n) = suc (suc (suc (suc (pages_needed n))))

abbrev pub first_then : ℕ → (ℕ → ℕ) → ℕ → ℕ
first_then p rest zero = p
first_then p rest (suc j) = rest j

-- A physical page that is no table gets a place below the tables.
data_page-Tree :
    (place : Place) (cur : Space) (pg k : ℕ) (m : Memory)
    → Tree place cur m
    → place pg ≡ none
    → pg ≢ 0
    → pg < 2 ^ 40
    → Tree (set place pg (some (4, k))) cur m
data_page-Tree place cur pg k m t free ne small = record {
  linked = t.linked;
  highest = after-kept place pg cur.highest_paging (4, k) (0, 0) free t.highest;
  dir_ptr = after-kept place pg cur.first_dir_ptr (4, k) (1, 0) free t.dir_ptr;
  dir = after-kept place pg cur.first_dir (4, k) (2, 0) free t.dir;
  table = after-kept place pg cur.first_table (4, k) (3, 0) free t.table;
  no_null = set-other place pg (some (4, k)) 0 (λ e. ne (sym e)) ∙ t.no_null;
  numbers = λ p l pre e. elim (ℕ_discrete p pg) [
    | yes same ↦ omega (arith, same)
    | no other ↦ t.numbers p l pre (sym (set-other place pg (some (4, k)) p other) ∙ e)
  ];
  child = λ p l pre i e lt lt' here. elim (ℕ_discrete p pg) [
    | yes same ↦ absurd (level p l pre same e lt)
    | no other ↦
        after-kept place pg (m.tables p i).next_paging_layer (4, k) (l + 1, pre * 512 + i) free
          (t.child p l pre i (sym (set-other place pg (some (4, k)) p other) ∙ e) lt lt' here)
  ];
}
  where
    some_level : {a b c d : ℕ} → ◌≡◌ {A = Option (ℕ × ℕ)} (some (a, b)) (some (c, d)) → a ≡ c
    some_level e = ground (arith, e)

    level : (p l pre : ℕ) → p ≡ pg → set place pg (some (4, k)) p ≡ some (l, pre) → l < 3 → ⊥
    level p l pre same e lt =
        let q : set place pg (some (4, k)) p ≡ some (4, k) =
          ap (set place pg (some (4, k))) same ∙ set-same place pg (some (4, k)) in
        let z : 4 ≡ l = some_level (sym q ∙ e) in omega (arith, z)

-- An address of a page behind `virt`, of which `n` follow.
abbrev pub Outside : ℕ → ℕ → ℕ → Type 0
Outside virt n virt' = (virt' < virt) ⊎ (virt + n * page_size ≤ virt')

-- The memory after `n` pages from `virt` on are mapped in `ctx`: the page of each, which is neither a table nor the
-- page of another one; and each way to another address is as it was, in every context.
pub record Loaded (place : Place) (cur ctx : Space) (virt flgs n : ℕ) (m : Memory)
    (r : Option Memory) : Type 0 where
  pub memory : Memory
  pub after : Place
  pub page : ℕ → ℕ
  pub result : r ≡ some memory
  pub tree : Tree after cur memory
  pub kept : (q : ℕ) (x : ℕ × ℕ) → place q ≡ some x → after q ≡ some x
  pub fresh : (j : ℕ) → j < n → place (page j) ≡ none
  pub owned : (j : ℕ) → j < n → after (page j) ≡ some (4, virt / page_size + j)
  pub small : (j : ℕ) → j < n → page j < 2 ^ 40
  pub ways :
      (j : ℕ) → j < n → Walk memory ctx.highest_paging (virt + j * page_size) (entry flgs (page j))
  pub others :
      (root virt' : ℕ) (e : PagingEntry)
      → place root ≡ some (0, 0)
      → virt' < 2 ^ 48
      → virt' % page_size ≡ 0
      → virt' ≢ tmp_pagebuf
      → Outside virt n virt'
      → Walk m root virt' e
      → Walk memory root virt' e

unplaced :
    (place after : Place) (q : ℕ)
    → ((x : ℕ × ℕ) → place q ≡ some x → after q ≡ some x)
    → after q ≡ none
    → place q ≡ none
unplaced place after q kept free = elim (Option-cases (place q)) [
  | inl e ↦ e
  | inr found ↦ absurd (clash (sym (kept found.0 found.1) ∙ free))
]
  where
    clash : {x : ℕ × ℕ} → some x ≡ none → ⊥
    clash e = cc

-- What the loop needs from the page at `i` on, with `n` pages to go.
pub record Loadable (place : Place) (cur ctx : Space) (virt size i n : ℕ) (m : Memory)
    : Type 0 where
  pub tree : Tree place cur m
  pub root : place ctx.highest_paging ≡ some (0, 0)
  pub fresh : FreshPages (pages_needed n) place m.pages
  pub aligned : (virt + i) % page_size ≡ 0
  pub above : tmp_pagebuf < virt
  pub rest : size ≡ i + n * page_size
  pub reach : virt + size ≤ 2 ^ 48
  pub int_size : size < 2 ^ 31

-- The tables do not read the stack of free pages.
with_pages-Tree :
    (place : Place) (cur : Space) (ps : Pages) (m : Memory)
    → Tree place cur m
    → Tree place cur (record m { pages = ps })
with_pages-Tree place cur ps m t = record {
  linked = record { dir_ptr = t.linked.dir_ptr; dir = t.linked.dir; table = t.linked.table };
  highest = t.highest;
  dir_ptr = t.dir_ptr;
  dir = t.dir;
  table = t.table;
  no_null = t.no_null;
  numbers = t.numbers;
  child = t.child;
}

-- The first page is mapped, and then the others.
module _ (place : Place) (cur ctx : Space) (pg phys a flgs n left : ℕ) (ps : Pages) (m : Memory)
    (next : Memory → Option Memory) {r : Option Memory}
    (d : Mapped left
      (set place pg (some (4, a / page_size)))
      cur
      ctx
      phys
      a
      flgs
      (record m { pages = ps })
      r)
    (l : Loaded d.after cur ctx
      (a + page_size)
      flgs
      n
      (write_entry d.table (index3 a) (entry flgs (phys / page_size)) d.before)
      (next (write_entry d.table (index3 a) (entry flgs (phys / page_size)) d.before)))
    (free : place pg ≡ none) (small : pg < 2 ^ 40) (number : phys / page_size ≡ pg)
    (tree : Tree (set place pg (some (4, a / page_size))) cur m)
    (root : place ctx.highest_paging ≡ some (0, 0)) (fits : a + suc n * page_size ≤ 2 ^ 48)
    (aligned : a % page_size ≡ 0) (above : tmp_pagebuf < a) where
  kept_all : (q : ℕ) (x : ℕ × ℕ) → place q ≡ some x → l.after q ≡ some x
  kept_all q x e = l.kept q x (d.kept q x (after-kept place pg q (4, a / page_size) x free e))

  fresh_all : (j : ℕ) → j < suc n → place (first_then pg l.page j) ≡ none
  fresh_all zero lt = free
  fresh_all (suc j) lt =
      unplaced place d.after (l.page j)
        (λ x e. d.kept (l.page j) x (after-kept place pg (l.page j) (4, a / page_size) x free e))
        (l.fresh j (omega arith))

  owned_all : (j : ℕ) → j < suc n → l.after (first_then pg l.page j) ≡ some (4, a / page_size + j)
  owned_all zero lt =
      l.kept pg (4, a / page_size)
        (d.kept pg (4, a / page_size) (set-same place pg (some (4, a / page_size))))
      ∙ ap (λ k. some (4, k)) (omega arith)
  owned_all (suc j) lt = l.owned j (omega arith) ∙ ap (λ k. some (4, k)) (omega (arith, aligned))

  small_all : (j : ℕ) → j < suc n → first_then pg l.page j < 2 ^ 40
  small_all zero lt = small
  small_all (suc j) lt = l.small j (omega arith)

  first_way : Walk l.memory ctx.highest_paging a (entry flgs pg)
  first_way =
      subst (λ k. Walk l.memory ctx.highest_paging a (entry flgs k)) number
        (l.others ctx.highest_paging a (entry flgs (phys / page_size))
          (d.kept ctx.highest_paging (0, 0)
            (after-kept place pg ctx.highest_paging (4, a / page_size) (0, 0) free root))
          (omega arith) aligned (omega arith) (inl (omega arith)) d.way)

  ways_all :
      (j : ℕ)
      → j < suc n
      → Walk l.memory ctx.highest_paging (a + j * page_size) (entry flgs (first_then pg l.page j))
  ways_all zero lt =
      subst (λ b. Walk l.memory ctx.highest_paging b (entry flgs pg)) (omega arith) first_way
  ways_all (suc j) lt =
      subst (λ b. Walk l.memory ctx.highest_paging b (entry flgs (l.page j))) (omega arith)
        (l.ways j (omega arith))

  others_all :
      (root virt' : ℕ) (e : PagingEntry)
      → place root ≡ some (0, 0)
      → virt' < 2 ^ 48
      → virt' % page_size ≡ 0
      → virt' ≢ tmp_pagebuf
      → Outside a (suc n) virt'
      → Walk m root virt' e
      → Walk l.memory root virt' e
  others_all root virt' e at lt al nb out w =
      let at' = after-kept place pg root (4, a / page_size) (0, 0) free at in
      let tree' : Tree (set place pg (some (4, a / page_size))) cur (record m { pages = ps }) =
        with_pages-Tree (set place pg (some (4, a / page_size))) cur ps m tree in
      l.others root virt' e (d.kept root (0, 0) at') lt al nb (beyond out) (
        kept-Walk left (set place pg (some (4, a / page_size))) cur ctx phys a flgs root virt' e
          (record m { pages = ps }) r tree' at' aligned lt al nb (differ out) d (walk_of w))
    where
      beyond : Outside a (suc n) virt' → Outside (a + page_size) n virt'
      beyond (inl below) = inl (omega arith)
      beyond (inr behind) = inr (omega arith)

      differ : Outside a (suc n) virt' → virt' ≢ a
      differ (inl below) e = omega arith
      differ (inr behind) e = omega arith

      walk_of : Walk m root virt' e → Walk (record m { pages = ps }) root virt' e
      walk_of w = record {
        dir_ptr = w.dir_ptr;
        dir = w.dir;
        table = w.table;
        present0 = w.present0;
        leads0 = w.leads0;
        present1 = w.present1;
        leads1 = w.leads1;
        present2 = w.present2;
        leads2 = w.leads2;
        leaf = w.leaf;
      }

  Loaded-join : Loaded place cur ctx a flgs (suc n) m (r >>= next)
  Loaded-join = record {
    memory = l.memory;
    after = l.after;
    page = first_then pg l.page;
    result = rw (d.result) (l.result);
    tree = l.tree;
    kept = kept_all;
    fresh = fresh_all;
    owned = owned_all;
    small = small_all;
    ways = ways_all;
    others = others_all;
  }

-- The page at `i` is mapped, by a loop that does the rest.
Loaded-first :
    (n rounds depth : ℕ) (place : Place) (cur ctx : Space) (virt size flgs i : ℕ) (m : Memory)
    → n < rounds
    → (h : Loadable place cur ctx virt size i (suc n) m)
    → Tree (set place (malloc_4k m.pages).0 (some (4, (virt + i) / page_size))) cur m
    → ((place : Place) (cur ctx : Space) (virt size flgs i : ℕ) (m : Memory)
        → n < rounds
        → Loadable place cur ctx virt size i n m
        → Loaded place cur ctx
            (virt + i)
            flgs
            n
            m
            (map_from (suc (suc depth)) true cur rounds ctx virt size flgs i m))
    → Loaded place cur ctx (virt + i) flgs (suc n) m (
        vmm_map
          (suc (suc depth))
          true
          cur
          ctx
          ((malloc_4k m.pages).0 * page_size % 2 ^ 64)
          (virt + i)
          flgs
          (record m { pages = (malloc_4k m.pages).1 })
        >>= map_from (suc (suc depth)) true cur rounds ctx virt size flgs (i + page_size))
Loaded-first n rounds depth place cur ctx virt size flgs i m lt h tree more =
    Loaded-join place cur ctx pg phys a flgs n (pages_needed n) (malloc_4k m.pages).1 m
      (map_from (suc (suc depth)) true cur rounds ctx virt size flgs (i + page_size)) d
      (subst
        (λ b.
          Loaded d.after cur ctx b flgs n m2
            (map_from (suc (suc depth)) true cur rounds ctx virt size flgs (i + page_size) m2))
        (omega arith) (more d.after cur ctx virt size flgs (i + page_size) m2 lt rest))
      h.fresh.0 h.fresh.2 (omega (arith, h.fresh.2)) tree h.root (omega (arith, h.rest, h.reach))
      h.aligned (omega (arith, h.above))
  where
    pg : ℕ
    pg = (malloc_4k m.pages).0

    phys : ℕ
    phys = pg * page_size % 2 ^ 64

    a : ℕ
    a = virt + i

    d :
        Mapped
          (pages_needed n)
          (set place pg (some (4, a / page_size)))
          cur
          ctx
          phys
          a
          flgs
          (record m { pages = (malloc_4k m.pages).1 })
          (vmm_map
            (suc (suc depth))
            true
            cur
            ctx
            phys
            a
            flgs
            (record m { pages = (malloc_4k m.pages).1 }))
    d =
        vmm_map-Mapped depth (pages_needed n) (set place pg (some (4, a / page_size))) cur ctx phys
          a flgs (record m { pages = (malloc_4k m.pages).1 })
          (record {
            tree =
                with_pages-Tree (set place pg (some (4, a / page_size))) cur (malloc_4k m.pages).1 m
                  tree;
            root =
                after-kept place pg ctx.highest_paging (4, a / page_size) (0, 0) h.fresh.0 h.root;
            fresh = h.fresh.3 (4, a / page_size);
            virt_aligned = h.aligned;
            phys_aligned = omega (arith, h.fresh.2);
            virt_small = omega (arith, h.rest, h.reach);
            not_buffer = omega (arith, h.above);
          })

    m2 : Memory
    m2 = write_entry d.table (index3 a) (entry flgs (phys / page_size)) d.before

    rest : Loadable d.after cur ctx virt size (i + page_size) n m2
    rest = record {
      tree =
          write-Tree d.after cur d.before d.table (prefix3 a) (index3 a)
            (entry flgs (phys / page_size)) d.tree d.at;
      root =
          d.kept ctx.highest_paging (0, 0)
            (after-kept place pg ctx.highest_paging (4, a / page_size) (0, 0) h.fresh.0 h.root);
      fresh = d.fresh;
      aligned = omega (arith, h.aligned);
      above = h.above;
      rest = omega (arith, h.rest);
      reach = h.reach;
      int_size = h.int_size;
    }

-- The loop of `vmm_malloc`, with as many rounds as pages and one more.
pub map_from-Loaded :
    (n rounds depth : ℕ) (place : Place) (cur ctx : Space) (virt size flgs i : ℕ) (m : Memory)
    → n < rounds
    → Loadable place cur ctx virt size i n m
    → Loaded place cur ctx
        (virt + i)
        flgs
        n
        m
        (map_from (suc (suc depth)) true cur rounds ctx virt size flgs i m)
unfolding map_from
map_from-Loaded n zero depth place cur ctx virt size flgs i m lt h = absurd (omega arith)
map_from-Loaded zero (suc rounds) depth place cur ctx virt size flgs i m lt h =
    let over : ltb i size ≡ false = ground (arith, h.rest) in
    rw (over, map_from)
      record {
        memory = m;
        after = place;
        page = λ j. 0;
        result = refl;
        tree = h.tree;
        kept = λ q x e. e;
        fresh = λ j l. absurd (omega arith);
        owned = λ j l. absurd (omega arith);
        small = λ j l. absurd (omega arith);
        ways = λ j l. absurd (omega arith);
        others = λ root virt' e at lt al nb out w. w;
      }
map_from-Loaded (suc n) (suc rounds) depth place cur ctx virt size flgs i m lt h =
    let more : ltb i size ≡ true = ground (arith, h.rest) in
    let fits : ltb (i + page_size) (2 ^ 31) ≡ true =
      lt→ltb _ _ (omega (arith, h.rest, h.int_size)) in
    let f = h.fresh in
    let pg = (malloc_4k m.pages).0 in
    let phys = pg * page_size % 2 ^ 64 in
    let a = virt + i in
    let tree = data_page-Tree place cur pg (a / page_size) m h.tree f.0 f.1 f.2 in
    let word : a % 2 ^ 64 ≡ a = omega (arith, h.rest, h.reach) in
    rw (more, fits, map_from, word)
      (Loaded-first n rounds depth place cur ctx virt size flgs i m (omega arith) h tree
        (map_from-Loaded n rounds depth))
