-- ===== src/Mm/Tables/Grown.antt =====
-- The memory with a new table, and its place in the tree.
use lizarx.Prelude.{
  set, set-same, set-other, ℕ, ◌+◌, ◌*◌, ◌^◌, ◌<◌, ◌≡◌, ◌≢◌, ◌⊎◌, inl, inr, ap, sym, ◌∙◌, Bool,
  true, false, Option, none, some, arith, ℕ_discrete,
}
use lizarx.Mm.Pages.{Pages}
use lizarx.Mm.Tables.{Space, Memory, flgcombat_user, in_mem, write_entry, clear_table, entry}
use lizarx.Mm.Tables.Window.{with_window}
use lizarx.Mm.Tables.Tree.{Place, Tree, level_apart}

-- The memory with a new table `pg` at the entry `i` of `p`.
abbrev pub linked_memory : ℕ → ℕ → ℕ → Pages → Memory → Memory
linked_memory pg p i pages m =
    write_entry p i (entry flgcombat_user pg) (record m { pages = pages })

abbrev pub grown : Space → ℕ → ℕ → ℕ → Pages → Memory → Memory
grown cur pg p i pages m = clear_table pg (with_window cur pg (linked_memory pg p i pages m))

grown-new :
    (cur : Space) (pg p i : ℕ) (pages : Pages) (m : Memory) (j : ℕ)
    → in_mem ((grown cur pg p i pages m).tables pg j) ≡ false
grown-new cur pg p i pages m j = ground arith

pub grown-entry :
    (cur : Space) (pg p i : ℕ) (pages : Pages) (m : Memory)
    → p ≢ pg
    → p ≢ cur.first_table
    → (grown cur pg p i pages m).tables p i ≡ entry flgcombat_user pg
grown-entry cur pg p i pages m ne nf = ground arith

pub grown-other :
    (cur : Space) (pg p i : ℕ) (pages : Pages) (m : Memory) (q j : ℕ)
    → q ≢ pg
    → (q ≢ cur.first_table) ⊎ (j ≢ 1)
    → (q ≢ p) ⊎ (j ≢ i)
    → (grown cur pg p i pages m).tables q j ≡ m.tables q j
grown-other cur pg p i pages m q j ne nf d = ground arith

-- An entry that was in memory is in memory.
pub grown-in_mem :
    (cur : Space) (pg p i : ℕ) (pages : Pages) (m : Memory) (q j : ℕ)
    → q ≢ pg
    → in_mem (m.tables q j) ≡ true
    → in_mem ((grown cur pg p i pages m).tables q j) ≡ true
grown-in_mem cur pg p i pages m q j ne e = ground arith

pub not_fresh : (place : Place) (pg q : ℕ) (x : ℕ × ℕ) → place pg ≡ none → place q ≡ some x → q ≢ pg
not_fresh place pg q x e f same = let o : none ≡ some x = sym e ∙ ap place (sym same) ∙ f in cc

-- A fresh page gets a place, and the others keep theirs.
pub after-kept :
    (place : Place) (pg q : ℕ) (x y : ℕ × ℕ)
    → place pg ≡ none
    → place q ≡ some y
    → set place pg (some x) q ≡ some y
after-kept place pg q x y e f = set-other place pg (some x) q (not_fresh place pg q y e f) ∙ f

level_of : Option (ℕ × ℕ) → ℕ
level_of none = 0
level_of (some (l, pre)) = l

prefix_of : Option (ℕ × ℕ) → ℕ
prefix_of none = 0
prefix_of (some (l, pre)) = pre

pub grown-Tree :
    (place : Place) (cur : Space) (pg p l pre i : ℕ) (pages : Pages) (m : Memory)
    → Tree place cur m
    → place pg ≡ none
    → pg ≢ 0
    → pg < 2 ^ 40
    → place p ≡ some (l, pre)
    → l < 3
    → Tree (set place pg (some (l + 1, pre * 512 + i))) cur (grown cur pg p i pages m)
unfolding level_of prefix_of
grown-Tree place cur pg p l pre i pages m t none_at nz small at lt = record {
  linked = record {
    dir_ptr =
        grown-in_mem cur pg p i pages m cur.highest_paging 0
          (not_fresh place pg cur.highest_paging (0, 0) none_at t.highest) t.linked.dir_ptr;
    dir =
        grown-in_mem cur pg p i pages m cur.first_dir_ptr 0
          (not_fresh place pg cur.first_dir_ptr (1, 0) none_at t.dir_ptr) t.linked.dir;
    table =
        grown-in_mem cur pg p i pages m cur.first_dir 0
          (not_fresh place pg cur.first_dir (2, 0) none_at t.dir) t.linked.table;
  };
  highest = keep cur.highest_paging (0, 0) t.highest;
  dir_ptr = keep cur.first_dir_ptr (1, 0) t.dir_ptr;
  dir = keep cur.first_dir (2, 0) t.dir;
  table = keep cur.first_table (3, 0) t.table;
  no_null = set-other place pg (some (l + 1, pre * 512 + i)) 0 (λ same. nz (sym same)) ∙ t.no_null;
  numbers = λ q l' pre' e. number q l' pre' e (ℕ_discrete q pg);
  child = λ q l' pre' j e lt' small' here. child q l' pre' j e lt' small' here (ℕ_discrete q pg);
}
  where
    after : Place
    after = set place pg (some (l + 1, pre * 512 + i))

    keep : (q : ℕ) (x : ℕ × ℕ) → place q ≡ some x → after q ≡ some x
    keep q x e = after-kept place pg q (l + 1, pre * 512 + i) x none_at e

    number : (q l' pre' : ℕ) → after q ≡ some (l', pre') → Dec (q ≡ pg) → q < 2 ^ 40
    number q l' pre' e (yes same) = rw same small
    number q l' pre' e (no ne) =
        t.numbers q l' pre' (sym (set-other place pg (some (l + 1, pre * 512 + i)) q ne) ∙ e)

    clash : {b : Bool} → b ≡ false → b ≡ true → ⊥
    clash e f = cc

    -- An entry that did not change leads to an old table.
    other_child :
        (q l' pre' j : ℕ)
        → place q ≡ some (l', pre')
        → l' < 3
        → j < 512
        → in_mem ((grown cur pg p i pages m).tables q j) ≡ true
        → (q ≢ p) ⊎ (j ≢ i)
        → after ((grown cur pg p i pages m).tables q j).next_paging_layer
          ≡ some (l' + 1, pre' * 512 + j)
    other_child q l' pre' j e lt' small' here d =
        let same =
          grown-other cur pg p i pages m q j (not_fresh place pg q (l', pre') none_at e)
            (inl (level_apart place q cur.first_table l' 3 pre' 0 e t.table (omega arith))) d in
        ap (λ x. after x.next_paging_layer) same
        ∙ keep (m.tables q j).next_paging_layer (l' + 1, pre' * 512 + j)
            (t.child q l' pre' j e lt' small' (ap in_mem (sym same) ∙ here))

    old_child :
        (q l' pre' j : ℕ)
        → place q ≡ some (l', pre')
        → l' < 3
        → j < 512
        → in_mem ((grown cur pg p i pages m).tables q j) ≡ true
        → Dec (q ≡ p)
        → Dec (j ≡ i)
        → after ((grown cur pg p i pages m).tables q j).next_paging_layer
          ≡ some (l' + 1, pre' * 512 + j)
    old_child q l' pre' j e lt' small' here (yes qp) (yes ji) =
        let new =
          grown-entry cur pg p i pages m (not_fresh place pg p (l, pre) none_at at)
            (level_apart place p cur.first_table l 3 pre 0 at t.table (omega arith)) in
        let there : ((grown cur pg p i pages m).tables q j).next_paging_layer ≡ pg =
          ap (λ x. ((grown cur pg p i pages m).tables x j).next_paging_layer) qp
          ∙ ap (λ x. ((grown cur pg p i pages m).tables p x).next_paging_layer) ji
          ∙ ap (λ x. x.next_paging_layer) new
          ∙ omega arith in
        let place_same : ◌≡◌ {A = Option (ℕ × ℕ)} (some (l', pre')) (some (l, pre)) =
          sym e ∙ ap place qp ∙ at in
        let ls : l' ≡ l = ap (λ x. level_of x) place_same in
        let ps : pre' ≡ pre = ap (λ x. prefix_of x) place_same in
        ap after there
        ∙ set-same place pg (some (l + 1, pre * 512 + i))
        ∙ ground (arith, ls, ps, ji)
    old_child q l' pre' j e lt' small' here (yes qp) (no ji) =
        other_child q l' pre' j e lt' small' here (inr ji)
    old_child q l' pre' j e lt' small' here (no qp) d =
        other_child q l' pre' j e lt' small' here (inl qp)

    child :
        (q l' pre' j : ℕ)
        → after q ≡ some (l', pre')
        → l' < 3
        → j < 512
        → in_mem ((grown cur pg p i pages m).tables q j) ≡ true
        → Dec (q ≡ pg)
        → after ((grown cur pg p i pages m).tables q j).next_paging_layer
          ≡ some (l' + 1, pre' * 512 + j)
    child q l' pre' j e lt' small' here (yes same) =
        let no_entry : in_mem ((grown cur pg p i pages m).tables q j) ≡ false =
          rw same (grown-new cur pg p i pages m j) in
        absurd (clash no_entry here)
    child q l' pre' j e lt' small' here (no ne) =
        old_child q l' pre' j (sym (set-other place pg (some (l + 1, pre * 512 + i)) q ne) ∙ e) lt'
          small' here (ℕ_discrete q p) (ℕ_discrete j i)
