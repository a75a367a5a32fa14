-- ===== src/Mm/Tables/Mapping.antt =====
-- `vmm_map` of a page: the way to it, and the ways to other pages.
use lizarx.Prelude.{
  ℕ, suc, ◌*◌, ◌/◌, ◌%◌, ◌^◌, ◌<◌, ◌≡◌, ◌≢◌, inl, refl, ap, ◌∙◌, true, Option, some, ◌==◌, arith,
}
use lizarx.Mm.Tables.{
  PagingEntry, Space, Memory, page_size, tmp_pagebuf, flgcombat_kernel, in_mem, write_entry, entry,
  descend, map_at, vmm_map, index0, index1, index2, index3,
}
use lizarx.Mm.Tables.Window.{vmm_map-window}
use lizarx.Mm.Tables.Tree.{Place, Tree, FreshPages, level_apart}
use lizarx.Mm.Tables.Descend.{Maps, descend-Descended}
use lizarx.Mm.Tables.Walk.{
  Walk, prefix1, prefix2, prefix3, Placed, Walk-Placed, Preserves, low_apart,
}
use lizarx.Mm.Tables.Preserving.{Descended-Preserves, Preserves-trans, write-other, write-own}

-- What `vmm_map` needs: the tables are trees, and three fresh pages are free, and `left` more.
pub record Mappable (left : ℕ) (place : Place) (cur ctx : Space) (phys virt : ℕ) (m : Memory)
    : Type 0 where
  pub tree : Tree place cur m
  pub root : place ctx.highest_paging ≡ some (0, 0)
  pub fresh : FreshPages (suc (suc (suc left))) place m.pages
  pub virt_aligned : virt % page_size ≡ 0
  pub phys_aligned : phys % page_size ≡ 0
  pub virt_small : virt < 2 ^ 48
  pub not_buffer : virt ≢ tmp_pagebuf

-- The tables after `vmm_map` of an address: the last table, the memory before its entry is written, and the places.
pub record Mapped (left : ℕ) (place : Place) (cur ctx : Space) (phys virt flgs : ℕ) (m : Memory)
    (r : Option Memory) : Type 0 where
  pub table : ℕ
  pub before : Memory
  pub after : Place
  pub result : r ≡ some (write_entry table (index3 virt) (entry flgs (phys / page_size)) before)
  pub tree : Tree after cur before
  pub kept : (q : ℕ) (x : ℕ × ℕ) → place q ≡ some x → after q ≡ some x
  pub at : after table ≡ some (3, prefix3 virt)
  pub preserves : Preserves place cur m before
  pub fresh : FreshPages left after before.pages
  pub way :
      Walk
        (write_entry table (index3 virt) (entry flgs (phys / page_size)) before)
        ctx.highest_paging
        virt
        (entry flgs (phys / page_size))

-- A way whose last entry is written.
write-Walk :
    (place : Place) (cur : Space) (m : Memory) (root virt : ℕ) (e e' : PagingEntry)
    → Tree place cur m
    → place root ≡ some (0, 0)
    → virt < 2 ^ 48
    → (w : Walk m root virt e) → Walk (write_entry w.table (index3 virt) e' m) root virt e'
write-Walk place cur m root virt e e' t r small w = record {
  dir_ptr = w.dir_ptr;
  dir = w.dir;
  table = w.table;
  present0 = ap in_mem k0 ∙ w.present0;
  leads0 = ap (λ x. x.next_paging_layer) k0 ∙ w.leads0;
  present1 = ap in_mem k1 ∙ w.present1;
  leads1 = ap (λ x. x.next_paging_layer) k1 ∙ w.leads1;
  present2 = ap in_mem k2 ∙ w.present2;
  leads2 = ap (λ x. x.next_paging_layer) k2 ∙ w.leads2;
  leaf = write-own w.table (index3 virt) e' m;
}
  where
    p : Placed place virt w.dir_ptr w.dir w.table
    p = Walk-Placed place cur m root virt e t r small w

    other :
        (q l pre j : ℕ)
        → place q ≡ some (l, pre)
        → l ≢ 3
        → (write_entry w.table (index3 virt) e' m).tables q j ≡ m.tables q j
    other q l pre j at ne =
        write-other w.table (index3 virt) q j e' m
          (inl (level_apart place q w.table l 3 pre (prefix3 virt) at p.at3 ne))

    k0 :
        (write_entry w.table (index3 virt) e' m).tables root (index0 virt)
        ≡ m.tables root (index0 virt)
    k0 = other root 0 0 (index0 virt) r (omega arith)

    k1 :
        (write_entry w.table (index3 virt) e' m).tables w.dir_ptr (index1 virt)
        ≡ m.tables w.dir_ptr (index1 virt)
    k1 = other w.dir_ptr 1 (prefix1 virt) (index1 virt) p.at1 (omega arith)

    k2 :
        (write_entry w.table (index3 virt) e' m).tables w.dir (index2 virt)
        ≡ m.tables w.dir (index2 virt)
    k2 = other w.dir 2 (prefix2 virt) (index2 virt) p.at2 (omega arith)

module _ (left : ℕ) (place : Place) (cur ctx : Space) (map : ℕ → Memory → Option Memory)
    (phys virt flgs : ℕ) (m : Memory) where
  map_at-Mapped :
      Maps cur map
      → Mappable left place cur ctx phys virt m
      → Mapped left place cur ctx phys virt flgs m (map_at true cur map ctx phys virt flgs m)
  unfolding map_at
  map_at-Mapped maps h =
      let d0 =
        descend-Descended (suc (suc left)) place cur map virt ctx.first_dir_ptr ctx.highest_paging 0
          0 (index0 virt) m maps h.not_buffer h.tree h.root (omega arith)
          (omega (arith, h.virt_small)) h.fresh in
      let d1 =
        descend-Descended (suc left) d0.after cur map virt ctx.first_dir d0.table 1 (prefix1 virt)
          (index1 virt) d0.memory maps h.not_buffer d0.tree d0.at (omega arith) (omega arith)
          d0.fresh in
      let d2 =
        descend-Descended left d1.after cur map virt ctx.first_table d1.table 2 (prefix2 virt)
          (index2 virt) d1.memory maps h.not_buffer d1.tree d1.at (omega arith) (omega arith)
          d1.fresh in
      let p0 =
        Descended-Preserves (suc (suc left)) place cur m ctx.highest_paging 0 0 (index0 virt)
          (descend true cur map virt ctx.first_dir_ptr ctx.highest_paging (index0 virt) m) h.root
          (omega arith) d0 in
      let p1 =
        Descended-Preserves (suc left) d0.after cur d0.memory d0.table 1 (prefix1 virt)
          (index1 virt) (descend true cur map virt ctx.first_dir d0.table (index1 virt) d0.memory)
          d0.at (omega arith) d1 in
      let p2 =
        Descended-Preserves left d1.after cur d1.memory d1.table 2 (prefix2 virt) (index2 virt)
          (descend true cur map virt ctx.first_table d1.table (index2 virt) d1.memory) d1.at
          (omega arith) d2 in
      let p12 = Preserves-trans d0.after d1.after cur d0.memory d1.memory d2.memory d1.kept p1 p2 in
      let k0 =
        p12 ctx.highest_paging (index0 virt) (0, 0) (d0.kept ctx.highest_paging (0, 0) h.root)
          (inl d0.present)
          (inl (low_apart place cur m ctx.highest_paging 0 0 h.tree h.root (omega arith))) in
      let k1 =
        p2 d0.table (index1 virt) (1, prefix1 virt) (d1.kept d0.table (1, prefix1 virt) d0.at)
          (inl d1.present)
          (inl (
            low_apart d0.after cur d0.memory d0.table 1 (prefix1 virt) d0.tree d0.at
              (omega arith))) in
      let way : Walk d2.memory ctx.highest_paging virt (d2.memory.tables d2.table (index3 virt)) =
        record {
          dir_ptr = d0.table;
          dir = d1.table;
          table = d2.table;
          present0 = ap in_mem k0 ∙ d0.present;
          leads0 = ap (λ x. x.next_paging_layer) k0 ∙ d0.leads;
          present1 = ap in_mem k1 ∙ d1.present;
          leads1 = ap (λ x. x.next_paging_layer) k1 ∙ d1.leads;
          present2 = d2.present;
          leads2 = d2.leads;
          leaf = refl;
        } in
      let root' =
        d2.kept ctx.highest_paging (0, 0)
          (d1.kept ctx.highest_paging (0, 0) (d0.kept ctx.highest_paging (0, 0) h.root)) in
      record {
        table = d2.table;
        before = d2.memory;
        after = d2.after;
        result = rw (d0.result, d1.result, d2.result) refl;
        tree = d2.tree;
        kept = λ q x e. d2.kept q x (d1.kept q x (d0.kept q x e));
        at = d2.at;
        fresh = d2.fresh;
        preserves = Preserves-trans place d0.after cur m d0.memory d2.memory d0.kept p0 p12;
        way =
            write-Walk d2.after cur d2.memory ctx.highest_paging virt
              (d2.memory.tables d2.table (index3 virt)) (entry flgs (phys / page_size)) d2.tree
              root' h.virt_small way;
      }

-- `vmm_map` of the context `ctx` while `cur` is the current one; depth 2 is enough.
pub vmm_map-Mapped :
    (depth left : ℕ) (place : Place) (cur ctx : Space) (phys virt flgs : ℕ) (m : Memory)
    → Mappable left place cur ctx phys virt m
    → Mapped left place cur ctx phys virt flgs m
        (vmm_map (suc (suc depth)) true cur ctx phys virt flgs m)
unfolding vmm_map
vmm_map-Mapped depth left place cur ctx phys virt flgs m h =
    let va : (virt % page_size == 0) ≡ true = ground (arith, h.virt_aligned) in
    let pa : (phys % page_size == 0) ≡ true = ground (arith, h.phys_aligned) in
    rw (va, pa, vmm_map)
      (map_at-Mapped left place cur ctx
        (λ p m. vmm_map (suc depth) true cur cur (p * page_size) tmp_pagebuf flgcombat_kernel m)
        phys virt flgs m (λ page m l. vmm_map-window depth page cur m l) h)
