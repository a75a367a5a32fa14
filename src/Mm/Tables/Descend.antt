-- ===== src/Mm/Tables/Descend.antt =====
-- One step of `vmm_map` down the tables, to a table that is there or to a new one.
use lizarx.Prelude.{
  set, set-same, ℕ, suc, ◌+◌, ◌*◌, ◌^◌, ◌<◌, ◌≡◌, ◌≢◌, ◌⊎◌, inl, inr, refl, ap, ◌∙◌, Bool, true,
  false, Option, some, ◌==◌, arith, Bool-cases,
}
use lizarx.Mm.Pages.{Pages, malloc_4k}
use lizarx.Mm.Tables.{Space, Memory, tmp_pagebuf, flgcombat_user, in_mem, entry, descend}
use lizarx.Mm.Tables.Window.{Linked, with_window, window-page}
use lizarx.Mm.Tables.Tree.{
  Place, Tree, FreshPages, FreshPages-less, level_apart, window-other, with_window-Tree,
}
use lizarx.Mm.Tables.Grown.{
  linked_memory, grown, grown-entry, grown-other, not_fresh, after-kept, grown-Tree,
}

-- The table below the entry `i` of `p`, and what the step to it changed.
pub record Descended (n : ℕ) (place : Place) (cur : Space) (m : Memory) (p l pre i : ℕ)
    (r : Option (ℕ × Memory)) : Type 0 where
  pub table : ℕ
  pub memory : Memory
  pub after : Place
  pub result : r ≡ some (table, memory)
  pub tree : Tree after cur memory
  pub kept : (q : ℕ) (x : ℕ × ℕ) → place q ≡ some x → after q ≡ some x
  pub at : after table ≡ some (l + 1, pre * 512 + i)
  pub leads : (memory.tables p i).next_paging_layer ≡ table
  pub present : in_mem (memory.tables p i) ≡ true
  pub old : in_mem (m.tables p i) ≡ true → memory.tables p i ≡ m.tables p i
  pub fresh : FreshPages n after memory.pages
  pub frame :
      (q j : ℕ) (x : ℕ × ℕ)
      → place q ≡ some x
      → (q ≢ p) ⊎ (j ≢ i)
      → (q ≢ cur.first_table) ⊎ (j ≢ 1)
      → memory.tables q j ≡ m.tables q j

-- `map` puts a page at TMP_PAGEBUF.
abbrev pub Maps : Space → (ℕ → Memory → Option Memory) → Type 0
Maps cur map = (page : ℕ) (m : Memory) → Linked cur m → map page m ≡ some (with_window cur page m)

descend-present :
    (n : ℕ) (place : Place) (cur : Space) (map : ℕ → Memory → Option Memory)
    (virt first p l pre i : ℕ) (m : Memory)
    → Maps cur map
    → virt ≢ tmp_pagebuf
    → Tree place cur m
    → place p ≡ some (l, pre)
    → l < 3
    → i < 512
    → FreshPages (suc n) place m.pages
    → in_mem (m.tables p i) ≡ true
    → Descended n place cur m p l pre i (descend true cur map virt first p i m)
unfolding descend
descend-present n place cur map virt first p l pre i m maps ne t at lt lt' fresh here = record {
  table = next;
  memory = with_window cur next m;
  after = place;
  result =
      rw
        (
          here,
          other,
          maps next m t.linked,
          window-page next cur m (t.numbers next (l + 1) (pre * 512 + i) below),
        )
        refl;
  tree = with_window-Tree place cur next m t;
  kept = λ q x e. e;
  at = below;
  leads = ap (λ e. e.next_paging_layer) same;
  present = ap in_mem same ∙ here;
  old = λ here'. same;
  fresh = FreshPages-less n place m.pages fresh;
  frame = λ q j x e d w. window-other cur next q j m w;
}
  where
    next : ℕ
    next = (m.tables p i).next_paging_layer

    below : place next ≡ some (l + 1, pre * 512 + i)
    below = t.child p l pre i at lt lt' here

    other : (virt == tmp_pagebuf) ≡ false
    other = ground arith

    same : (with_window cur next m).tables p i ≡ m.tables p i
    same =
        window-other cur next p i m
          (inl (level_apart place p cur.first_table l 3 pre 0 at t.table (omega arith)))

linked_memory-Linked :
    (cur : Space) (pg p i : ℕ) (pages : Pages) (m : Memory)
    → Linked cur m
    → Linked cur (linked_memory pg p i pages m)
linked_memory-Linked cur pg p i pages m l = record {
  dir_ptr = ground (arith, l.dir_ptr);
  dir = ground (arith, l.dir);
  table = ground (arith, l.table);
}

clash : {b : Bool} → b ≡ false → b ≡ true → ⊥
clash e f = cc

descend-absent :
    (n : ℕ) (place : Place) (cur : Space) (map : ℕ → Memory → Option Memory)
    (virt first p l pre i : ℕ) (m : Memory)
    → Maps cur map
    → Tree place cur m
    → place p ≡ some (l, pre)
    → l < 3
    → i < 512
    → FreshPages (suc n) place m.pages
    → in_mem (m.tables p i) ≡ false
    → Descended n place cur m p l pre i (descend true cur map virt first p i m)
unfolding descend
descend-absent n place cur map virt first p l pre i m maps t at lt lt' fresh none_here = record {
  table = pg;
  memory = grown cur pg p i pages m;
  after = set place pg (some (l + 1, pre * 512 + i));
  result =
      rw
        (
          none_here,
          maps pg (linked_memory pg p i pages m) (linked_memory-Linked cur pg p i pages m t.linked),
          window-page pg cur (linked_memory pg p i pages m) small,
        )
        refl;
  tree = grown-Tree place cur pg p l pre i pages m t fresh.0 fresh.1 small at lt;
  kept = λ q x e. after-kept place pg q (l + 1, pre * 512 + i) x fresh.0 e;
  at = set-same place pg (some (l + 1, pre * 512 + i));
  leads = ap (λ e. e.next_paging_layer) new ∙ omega arith;
  present = ap in_mem new;
  old = λ here. absurd (clash none_here here);
  fresh = fresh.3 (l + 1, pre * 512 + i);
  frame = λ q j x e d w. grown-other cur pg p i pages m q j (not_fresh place pg q x fresh.0 e) w d;
}
  where
    pg : ℕ
    pg = (malloc_4k m.pages).0

    pages : Pages
    pages = (malloc_4k m.pages).1

    small : pg < 2 ^ 40
    small = fresh.2

    new : (grown cur pg p i pages m).tables p i ≡ entry flgcombat_user pg
    new =
        grown-entry cur pg p i pages m (not_fresh place pg p (l, pre) fresh.0 at)
          (level_apart place p cur.first_table l 3 pre 0 at t.table (omega arith))

-- A step from a table of the tree, with a fresh page at hand.
pub descend-Descended :
    (n : ℕ) (place : Place) (cur : Space) (map : ℕ → Memory → Option Memory)
    (virt first p l pre i : ℕ) (m : Memory)
    → Maps cur map
    → virt ≢ tmp_pagebuf
    → Tree place cur m
    → place p ≡ some (l, pre)
    → l < 3
    → i < 512
    → FreshPages (suc n) place m.pages
    → Descended n place cur m p l pre i (descend true cur map virt first p i m)
descend-Descended n place cur map virt first p l pre i m maps ne t at lt lt' fresh =
    elim (Bool-cases (in_mem (m.tables p i))) [
      | inl here ↦
          descend-present n place cur map virt first p l pre i m maps ne t at lt lt' fresh here
      | inr none_here ↦
          descend-absent n place cur map virt first p l pre i m maps t at lt lt' fresh none_here
    ]
