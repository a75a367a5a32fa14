-- ===== src/Mm/Tables/Preserving.antt =====
-- What a step down the tables and the write of an entry preserve.
use lizarx.Prelude.{
  ℕ, ◌<◌, ◌≡◌, ◌≢◌, ◌⊎◌, inl, inr, ap, sym, ◌∙◌, true, Option, none, some, arith, ℕ_discrete,
}
use lizarx.Mm.Tables.{PagingEntry, Space, Memory, in_mem, write_entry}
use lizarx.Mm.Tables.Tree.{Place, Tree, level_apart}
use lizarx.Mm.Tables.Descend.{Descended}
use lizarx.Mm.Tables.Walk.{Preserves}

level_of : Option (ℕ × ℕ) → ℕ
level_of none = 0
level_of (some (l, pre)) = l

same_level :
    (place : Place) (p q : ℕ) (x y : ℕ × ℕ)
    → place p ≡ some x
    → place q ≡ some y
    → p ≡ q
    → x.0 ≡ y.0
unfolding level_of
same_level place p q x y e f same =
    let s : ◌≡◌ {A = Option (ℕ × ℕ)} (some x) (some y) = sym e ∙ ap place same ∙ f in
    ap (λ o. level_of o) s

-- A step down the tables preserves the entries that are in memory.
pub Descended-Preserves :
    (n : ℕ) (place : Place) (cur : Space) (m : Memory) (p l pre i : ℕ) (r : Option (ℕ × Memory))
    → place p ≡ some (l, pre)
    → l < 3
    → (d : Descended n place cur m p l pre i r) → Preserves place cur m d.memory
Descended-Preserves n place cur m p l pre i r at lt d =
    λ q j x e here w. by q j x e here w (ℕ_discrete q p) (ℕ_discrete j i)
  where
    own :
        (q j : ℕ) (x : ℕ × ℕ)
        → place q ≡ some x
        → q ≡ p
        → j ≡ i
        → (in_mem (m.tables q j) ≡ true) ⊎ (x.0 ≡ 3)
        → d.memory.tables q j ≡ m.tables q j
    own q j x e qp ji (inl here) =
        let here' : in_mem (m.tables p i) ≡ true = rw (sym qp, sym ji) here in
        rw (qp, ji) (d.old here')
    own q j x e qp ji (inr last) =
        let s : x.0 ≡ l = same_level place q p x (l, pre) e at qp in
        absurd (omega (arith, s, last, lt))

    by :
        (q j : ℕ) (x : ℕ × ℕ)
        → place q ≡ some x
        → (in_mem (m.tables q j) ≡ true) ⊎ (x.0 ≡ 3)
        → (q ≢ cur.first_table) ⊎ (j ≢ 1)
        → Dec (q ≡ p)
        → Dec (j ≡ i)
        → d.memory.tables q j ≡ m.tables q j
    by q j x e here w (yes qp) (yes ji) = own q j x e qp ji here
    by q j x e here w (yes qp) (no ji) = d.frame q j x e (inr ji) w
    by q j x e here w (no qp) d' = d.frame q j x e (inl qp) w

pub Preserves-trans :
    (place place' : Place) (cur : Space) (m m' m'' : Memory)
    → ((q : ℕ) (x : ℕ × ℕ) → place q ≡ some x → place' q ≡ some x)
    → Preserves place cur m m'
    → Preserves place' cur m' m''
    → Preserves place cur m m''
Preserves-trans place place' cur m m' m'' kept a b =
    λ q j x e here w. b q j x (kept q x e) (still q j x e w here) w ∙ a q j x e here w
  where
    still :
        (q j : ℕ) (x : ℕ × ℕ)
        → place q ≡ some x
        → (q ≢ cur.first_table) ⊎ (j ≢ 1)
        → (in_mem (m.tables q j) ≡ true) ⊎ (x.0 ≡ 3)
        → (in_mem (m'.tables q j) ≡ true) ⊎ (x.0 ≡ 3)
    still q j x e w (inl here) = inl (ap in_mem (a q j x e (inl here) w) ∙ here)
    still q j x e w (inr last) = inr last

pub write-other :
    (p i q j : ℕ) (e : PagingEntry) (m : Memory)
    → (q ≢ p) ⊎ (j ≢ i)
    → (write_entry p i e m).tables q j ≡ m.tables q j
write-other p i q j e m ne = ground arith

pub write-own : (p i : ℕ) (e : PagingEntry) (m : Memory) → (write_entry p i e m).tables p i ≡ e
write-own p i e m = ground arith

-- The write of an entry in a last table keeps the tree.
pub write-Tree :
    (place : Place) (cur : Space) (m : Memory) (p pre i : ℕ) (e : PagingEntry)
    → Tree place cur m
    → place p ≡ some (3, pre)
    → Tree place cur (write_entry p i e m)
write-Tree place cur m p pre i e t at = record {
  linked = record {
    dir_ptr = ap in_mem (other cur.highest_paging 0 0 0 t.highest (omega arith)) ∙ t.linked.dir_ptr;
    dir = ap in_mem (other cur.first_dir_ptr 1 0 0 t.dir_ptr (omega arith)) ∙ t.linked.dir;
    table = ap in_mem (other cur.first_dir 2 0 0 t.dir (omega arith)) ∙ t.linked.table;
  };
  highest = t.highest;
  dir_ptr = t.dir_ptr;
  dir = t.dir;
  table = t.table;
  no_null = t.no_null;
  numbers = t.numbers;
  child = λ q l pre' j e' lt lt' here.
      let same = other q l pre' j e' (omega arith) in
      ap (λ x. place x.next_paging_layer) same
      ∙ t.child q l pre' j e' lt lt' (ap in_mem (sym same) ∙ here);
}
  where
    other :
        (q l pre' j : ℕ)
        → place q ≡ some (l, pre')
        → l ≢ 3
        → (write_entry p i e m).tables q j ≡ m.tables q j
    other q l pre' j e' ne =
        write-other p i q j e m (inl (level_apart place q p l 3 pre' pre e' at ne))
