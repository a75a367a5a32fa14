-- ===== src/Mm/Tables/Walk.antt =====
-- What the tables of a context say of an address.
use lizarx.Prelude.{
  ℕ, ◌+◌, ◌*◌, ◌%◌, ◌^◌, ◌<◌, ◌≡◌, ◌≢◌, ◌⊎◌, inl, inr, refl, ap, sym, ◌∙◌, true, some, arith,
  ℕ_discrete,
}
use lizarx.Mm.Tables.{
  PagingEntry, Space, Memory, page_size, tmp_pagebuf, in_mem, index0, index1, index2, index3,
}
use lizarx.Mm.Tables.Tree.{Place, Tree, apart}

-- The tables from `root` on lead to the entry `e` for the address: each entry on the way is in memory.
pub record Walk (m : Memory) (root virt : ℕ) (e : PagingEntry) : Type 0 where
  pub dir_ptr : ℕ
  pub dir : ℕ
  pub table : ℕ
  pub present0 : in_mem (m.tables root (index0 virt)) ≡ true
  pub leads0 : (m.tables root (index0 virt)).next_paging_layer ≡ dir_ptr
  pub present1 : in_mem (m.tables dir_ptr (index1 virt)) ≡ true
  pub leads1 : (m.tables dir_ptr (index1 virt)).next_paging_layer ≡ dir
  pub present2 : in_mem (m.tables dir (index2 virt)) ≡ true
  pub leads2 : (m.tables dir (index2 virt)).next_paging_layer ≡ table
  pub leaf : m.tables table (index3 virt) ≡ e

-- The places of the tables on the way.
abbrev pub prefix1 : ℕ → ℕ
prefix1 virt = 0 * 512 + index0 virt

abbrev pub prefix2 : ℕ → ℕ
prefix2 virt = prefix1 virt * 512 + index1 virt

abbrev pub prefix3 : ℕ → ℕ
prefix3 virt = prefix2 virt * 512 + index2 virt

pub record Placed (place : Place) (virt t1 t2 t3 : ℕ) : Type 0 where
  pub at1 : place t1 ≡ some (1, prefix1 virt)
  pub at2 : place t2 ≡ some (2, prefix2 virt)
  pub at3 : place t3 ≡ some (3, prefix3 virt)

pub Walk-Placed :
    (place : Place) (cur : Space) (m : Memory) (root virt : ℕ) (e : PagingEntry)
    → Tree place cur m
    → place root ≡ some (0, 0)
    → virt < 2 ^ 48
    → (w : Walk m root virt e) → Placed place virt w.dir_ptr w.dir w.table
Walk-Placed place cur m root virt e t r small w = record { at1 = at1; at2 = at2; at3 = at3 }
  where
    at1 : place w.dir_ptr ≡ some (1, prefix1 virt)
    at1 =
        ap place (sym w.leads0)
        ∙ t.child root 0 0 (index0 virt) r (omega arith) (omega arith) w.present0

    at2 : place w.dir ≡ some (2, prefix2 virt)
    at2 =
        ap place (sym w.leads1)
        ∙ t.child w.dir_ptr 1 (prefix1 virt) (index1 virt) at1 (omega arith) (omega arith)
            w.present1

    at3 : place w.table ≡ some (3, prefix3 virt)
    at3 =
        ap place (sym w.leads2)
        ∙ t.child w.dir 2 (prefix2 virt) (index2 virt) at2 (omega arith) (omega arith) w.present2

-- The entry of another address than TMP_PAGEBUF is not the one that is written for TMP_PAGEBUF.
pub not_window :
    (place : Place) (cur : Space) (m : Memory) (virt t3 : ℕ)
    → Tree place cur m
    → place t3 ≡ some (3, prefix3 virt)
    → virt % page_size ≡ 0
    → virt ≢ tmp_pagebuf
    → (t3 ≢ cur.first_table) ⊎ (index3 virt ≢ 1)
not_window place cur m virt t3 t at aligned ne = elim (ℕ_discrete (index3 virt) 1) [
  | yes one ↦ inl (
      apart place t3 cur.first_table (3, prefix3 virt) (3, 0) at t.table
        (λ same.
          let z : prefix3 virt ≡ 0 = ap (λ x. x.1) same in ne (omega (arith, aligned, one, z))))
  | no other ↦ inr other
]

-- Entries in memory, and entries of the last tables, stay as they are, but for the one of TMP_PAGEBUF.
abbrev pub Preserves : Place → Space → Memory → Memory → Type 0
Preserves place cur m m' =
    (q j : ℕ) (x : ℕ × ℕ)
    → place q ≡ some x
    → (in_mem (m.tables q j) ≡ true) ⊎ (x.0 ≡ 3)
    → (q ≢ cur.first_table) ⊎ (j ≢ 1)
    → m'.tables q j ≡ m.tables q j

pub low_apart :
    (place : Place) (cur : Space) (m : Memory) (q l pre : ℕ)
    → Tree place cur m
    → place q ≡ some (l, pre)
    → l ≢ 3
    → q ≢ cur.first_table
low_apart place cur m q l pre t at ne =
    apart place q cur.first_table (l, pre) (3, 0) at t.table (λ same. ne (ap (λ x. x.0) same))

pub Walk-kept :
    (place : Place) (cur : Space) (m m' : Memory) (root virt : ℕ) (e : PagingEntry)
    → Tree place cur m
    → place root ≡ some (0, 0)
    → virt < 2 ^ 48
    → virt % page_size ≡ 0
    → virt ≢ tmp_pagebuf
    → Preserves place cur m m'
    → Walk m root virt e
    → Walk m' root virt e
Walk-kept place cur m m' root virt e t r small aligned ne keep w = record {
  dir_ptr = w.dir_ptr;
  dir = w.dir;
  table = w.table;
  present0 = ap in_mem k0 ∙ w.present0;
  leads0 = ap (λ x. x.next_paging_layer) k0 ∙ w.leads0;
  present1 = ap in_mem k1 ∙ w.present1;
  leads1 = ap (λ x. x.next_paging_layer) k1 ∙ w.leads1;
  present2 = ap in_mem k2 ∙ w.present2;
  leads2 = ap (λ x. x.next_paging_layer) k2 ∙ w.leads2;
  leaf =
      keep w.table (index3 virt) (3, prefix3 virt) p.at3 (inr refl)
        (not_window place cur m virt w.table t p.at3 aligned ne)
      ∙ w.leaf;
}
  where
    p : Placed place virt w.dir_ptr w.dir w.table
    p = Walk-Placed place cur m root virt e t r small w

    k0 : m'.tables root (index0 virt) ≡ m.tables root (index0 virt)
    k0 =
        keep root (index0 virt) (0, 0) r (inl w.present0)
          (inl (low_apart place cur m root 0 0 t r (omega arith)))

    k1 : m'.tables w.dir_ptr (index1 virt) ≡ m.tables w.dir_ptr (index1 virt)
    k1 =
        keep w.dir_ptr (index1 virt) (1, prefix1 virt) p.at1 (inl w.present1)
          (inl (low_apart place cur m w.dir_ptr 1 (prefix1 virt) t p.at1 (omega arith)))

    k2 : m'.tables w.dir (index2 virt) ≡ m.tables w.dir (index2 virt)
    k2 =
        keep w.dir (index2 virt) (2, prefix2 virt) p.at2 (inl w.present2)
          (inl (low_apart place cur m w.dir 2 (prefix2 virt) t p.at2 (omega arith)))
