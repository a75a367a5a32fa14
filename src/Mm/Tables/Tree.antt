-- ===== src/Mm/Tables/Tree.antt =====
-- The tables form trees: each table has one place, and one step of `vmm_map` keeps that.
use lizarx.Prelude.{
  set, ℕ, zero, suc, ◌+◌, ◌*◌, ◌^◌, ◌<◌, ◌≡◌, ◌≢◌, ◌⊎◌, inl, inr, ap, sym, ◌∙◌, true, Option, none,
  some, arith,
}
use lizarx.Mm.Pages.{Pages, malloc_4k}
use lizarx.Mm.Tables.{Space, Memory, in_mem}
use lizarx.Mm.Tables.Window.{Linked, with_window}

-- The place of a table: its level, and the indexes that lead to it as one number. A page that is no table has none.
abbrev pub Place : Type 0
Place = ℕ → Option (ℕ × ℕ)

pub record Tree (place : Place) (cur : Space) (m : Memory) : Type 0 where
  pub linked : Linked cur m
  pub highest : place cur.highest_paging ≡ some (0, 0)
  pub dir_ptr : place cur.first_dir_ptr ≡ some (1, 0)
  pub dir : place cur.first_dir ≡ some (2, 0)
  pub table : place cur.first_table ≡ some (3, 0)
  pub no_null : place 0 ≡ none
  pub numbers : (p l pre : ℕ) → place p ≡ some (l, pre) → p < 2 ^ 40
  pub child :
      (p l pre i : ℕ)
      → place p ≡ some (l, pre)
      → l < 3
      → i < 512
      → in_mem (m.tables p i) ≡ true
      → place (m.tables p i).next_paging_layer ≡ some (l + 1, pre * 512 + i)

-- The next `n` pages that are free are no tables.
abbrev pub FreshPages : ℕ → Place → Pages → Type 0
FreshPages zero place pages = Unit
FreshPages (suc n) place pages =
    let r = malloc_4k pages in
    (place r.0 ≡ none)
    × (r.0 ≢ 0)
    × (r.0 < 2 ^ 40)
    × ((x : ℕ × ℕ) → FreshPages n (set place r.0 (some x)) r.1)

pub FreshPages-less :
    (n : ℕ) (place : Place) (pages : Pages)
    → FreshPages (suc n) place pages
    → FreshPages n place pages
FreshPages-less zero place pages f = tt
FreshPages-less (suc n) place pages f = (
  f.0,
  f.1,
  f.2,
  λ x. FreshPages-less n (set place (malloc_4k pages).0 (some x)) (malloc_4k pages).1 (f.3 x),
)

-- Two tables of different places are different.
pub apart :
    (place : Place) (p q : ℕ) (x y : ℕ × ℕ) → place p ≡ some x → place q ≡ some y → x ≢ y → p ≢ q
apart place p q x y e f ne same =
    let o : some x ≡ some y = sym e ∙ ap place same ∙ f in ne (some_inj o)
  where
    some_inj : {a b : ℕ × ℕ} → some a ≡ some b → a ≡ b
    some_inj e = cc

-- The write at TMP_PAGEBUF keeps the tree, and every entry but its own.
pub window-other :
    (cur : Space) (page q j : ℕ) (m : Memory)
    → (q ≢ cur.first_table) ⊎ (j ≢ 1)
    → (with_window cur page m).tables q j ≡ m.tables q j
window-other cur page q j m ne = ground arith

pub level_apart :
    (place : Place) (p q l l' pre pre' : ℕ)
    → place p ≡ some (l, pre)
    → place q ≡ some (l', pre')
    → l ≢ l'
    → p ≢ q
level_apart place p q l l' pre pre' e f ne =
    apart place p q (l, pre) (l', pre') e f (λ same. ne (ap (λ x. x.0) same))

pub with_window-Tree :
    (place : Place) (cur : Space) (page : ℕ) (m : Memory)
    → Tree place cur m
    → Tree place cur (with_window cur page m)
with_window-Tree place cur page m t = record {
  linked = record {
    dir_ptr =
        ap in_mem (window-other cur page cur.highest_paging 0 m (inr (omega arith)))
        ∙ t.linked.dir_ptr;
    dir =
        ap in_mem (window-other cur page cur.first_dir_ptr 0 m (inr (omega arith))) ∙ t.linked.dir;
    table =
        ap in_mem (window-other cur page cur.first_dir 0 m (inr (omega arith))) ∙ t.linked.table;
  };
  highest = t.highest;
  dir_ptr = t.dir_ptr;
  dir = t.dir;
  table = t.table;
  no_null = t.no_null;
  numbers = t.numbers;
  child = λ p l pre i e lt lt' here.
      let same =
        window-other cur page p i m
          (inl (level_apart place p cur.first_table l 3 pre 0 e t.table (omega arith))) in
      ap (λ x. place x.next_paging_layer) same
      ∙ t.child p l pre i e lt lt' (ap in_mem (sym same) ∙ here);
}
