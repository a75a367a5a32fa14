-- ===== src/Mm/Tables/Reading.antt =====
-- `virt_to_phys`: it reads the entry that the tables lead to.
use lizarx.Prelude.{
  ◌⊎◌, ◌>>=◌, ℕ, suc, ◌*◌, ◌/◌, ◌%◌, ◌^◌, ◌<◌, ◌≡◌, ◌≢◌, inl, refl, ap, sym, ◌∙◌, true, false,
  Option, none, some, ◌==◌, arith, ℕ_discrete,
}
use lizarx.Mm.Tables.{
  PagingEntry, Space, Memory, page_size, tmp_pagebuf, entry, vmm_map, follow, virt_to_phys, index1,
  index2, index3, write_entry,
}
use lizarx.Mm.Tables.Window.{with_window, vmm_map-window, window-page}
use lizarx.Mm.Tables.Tree.{Place, Tree, level_apart, window-other, with_window-Tree}
use lizarx.Mm.Tables.Walk.{Walk, prefix1, prefix2, prefix3, Walk-Placed, not_window}
use lizarx.Mm.Tables.Preserving.{write-Tree}
use lizarx.Mm.Tables.Keeping.{kept-Walk}
use lizarx.Mm.Tables.Mapping.{Mappable, vmm_map-Mapped}

follow-table :
    (depth : ℕ) (place : Place) (cur : Space) (i p l pre : ℕ) (m : Memory)
    → Tree place cur m
    → place p ≡ some (l, pre)
    → follow (suc depth) cur i (p, m)
      ≡ some (((with_window cur p m).tables p i).next_paging_layer, with_window cur p m)
unfolding follow
follow-table depth place cur i p l pre m t at =
    let other : (p == 0) ≡ false = not_null (ℕ_discrete p 0) in
    rw (other, vmm_map-window depth p cur m t.linked, window-page p cur m (t.numbers p l pre at))
      refl
  where
    clash : {x : ℕ × ℕ} → some x ≡ none → ⊥
    clash e = cc

    not_null : Dec (p ≡ 0) → (p == 0) ≡ false
    not_null (yes null) = absurd (clash (sym at ∙ ap place null ∙ t.no_null))
    not_null (no ne) = ground arith

-- Where the tables are trees and lead from a context to an entry for an aligned address below 2 ^ 48
-- other than TMP_PAGEBUF, `virt_to_phys` returns with any depth of recursion, and gives the address of
-- the page that the entry holds.
pub virt_to_phys-Walk :
    (depth : ℕ) (place : Place) (cur ctx : Space) (virt : ℕ) (e : PagingEntry) (m : Memory)
    → Tree place cur m
    → place ctx.highest_paging ≡ some (0, 0)
    → virt < 2 ^ 48
    → virt % page_size ≡ 0
    → virt ≢ tmp_pagebuf
    → Walk m ctx.highest_paging virt e
    → (virt_to_phys (suc depth) cur ctx virt m >>= λ r. some r.0)
      ≡ some (e.next_paging_layer * page_size)
unfolding virt_to_phys
virt_to_phys-Walk depth place cur ctx virt e m t r small aligned ne w =
    let va : (virt % page_size == 0) ≡ true = ground (arith, aligned) in
    let p = Walk-Placed place cur m ctx.highest_paging virt e t r small w in
    let m1 = with_window cur w.dir_ptr m in
    let m2 = with_window cur w.dir m1 in
    let m3 = with_window cur w.table m2 in
    let t1 = with_window-Tree place cur w.dir_ptr m t in
    let t2 = with_window-Tree place cur w.dir m1 t1 in
    let a1 : (w.dir_ptr ≢ cur.first_table) ⊎ (index1 virt ≢ 1) = inl (
      level_apart place w.dir_ptr cur.first_table 1 3 (prefix1 virt) 0 p.at1 t.table
        (omega arith)) in
    let a2 =
      inl (
        level_apart place w.dir cur.first_table 2 3 (prefix2 virt) 0 p.at2 t.table (omega arith)) in
    let a3 = not_window place cur m virt w.table t p.at3 aligned ne in
    let k1 : m1.tables w.dir_ptr (index1 virt) ≡ m.tables w.dir_ptr (index1 virt) =
      window-other cur w.dir_ptr w.dir_ptr (index1 virt) m a1 in
    let k2 : m2.tables w.dir (index2 virt) ≡ m.tables w.dir (index2 virt) =
      window-other cur w.dir w.dir (index2 virt) m1 a2
      ∙ window-other cur w.dir_ptr w.dir (index2 virt) m a2 in
    let k3 : m3.tables w.table (index3 virt) ≡ m.tables w.table (index3 virt) =
      window-other cur w.table w.table (index3 virt) m2 a3
      ∙ window-other cur w.dir w.table (index3 virt) m1 a3
      ∙ window-other cur w.dir_ptr w.table (index3 virt) m a3 in
    let f1 = follow-table depth place cur (index1 virt) w.dir_ptr 1 (prefix1 virt) m t p.at1 in
    let f2 = follow-table depth place cur (index2 virt) w.dir 2 (prefix2 virt) m1 t1 p.at2 in
    let f3 = follow-table depth place cur (index3 virt) w.table 3 (prefix3 virt) m2 t2 p.at3 in
    rw (va, w.leads0, f1, k1, w.leads1, f2, k2, w.leads2, f3, k3, w.leaf) refl

-- Where the tables are trees and three fresh pages are free, `vmm_map` of a page below 2 ^ 52 at an
-- aligned address below 2 ^ 48 other than TMP_PAGEBUF returns, with a recursion of depth 2, and
-- `virt_to_phys` of the same context and address then gives that page.
pub virt_to_phys-vmm_map :
    (depth depth' left : ℕ) (place : Place) (cur ctx : Space) (phys virt flgs : ℕ) (m : Memory)
    → Mappable left place cur ctx phys virt m
    → phys < 2 ^ 52
    → (vmm_map (suc (suc depth)) true cur ctx phys virt flgs m >>= λ m'.
        virt_to_phys (suc depth') cur ctx virt m' >>= λ r. some r.0)
      ≡ some phys
virt_to_phys-vmm_map depth depth' left place cur ctx phys virt flgs m h small =
    let d = vmm_map-Mapped depth left place cur ctx phys virt flgs m h in
    let after = write_entry d.table (index3 virt) (entry flgs (phys / page_size)) d.before in
    let read =
      virt_to_phys-Walk depth' d.after cur ctx virt (entry flgs (phys / page_size)) after
        (write-Tree d.after cur d.before d.table (prefix3 virt) (index3 virt)
          (entry flgs (phys / page_size)) d.tree d.at)
        (d.kept ctx.highest_paging (0, 0) h.root) h.virt_small h.virt_aligned h.not_buffer d.way in
    let number : phys / page_size % 2 ^ 40 * page_size ≡ phys =
      omega (arith, small, h.phys_aligned) in
    rw (d.result) (read ∙ ap some number)

-- Under the same conditions on the tables, `vmm_map` of an address in one context returns and leaves
-- what `virt_to_phys` gives, in that and every other context, for each other aligned address below
-- 2 ^ 48 but TMP_PAGEBUF that the tables lead to.
pub virt_to_phys-other :
    (depth depth' left : ℕ) (place : Place) (cur ctx ctx' : Space) (phys virt flgs virt' : ℕ)
    (e : PagingEntry) (m : Memory)
    → Mappable left place cur ctx phys virt m
    → place ctx'.highest_paging ≡ some (0, 0)
    → virt' < 2 ^ 48
    → virt' % page_size ≡ 0
    → virt' ≢ tmp_pagebuf
    → virt' ≢ virt
    → Walk m ctx'.highest_paging virt' e
    → (vmm_map (suc (suc depth)) true cur ctx phys virt flgs m >>= λ m'.
        virt_to_phys (suc depth') cur ctx' virt' m' >>= λ r. some r.0)
      ≡ some (e.next_paging_layer * page_size)
virt_to_phys-other depth depth' left place cur ctx ctx' phys virt flgs virt' e m h at small aligned
      not_buffer ne w =
    let d = vmm_map-Mapped depth left place cur ctx phys virt flgs m h in
    let after = write_entry d.table (index3 virt) (entry flgs (phys / page_size)) d.before in
    let read =
      virt_to_phys-Walk depth' d.after cur ctx' virt' e after
        (write-Tree d.after cur d.before d.table (prefix3 virt) (index3 virt)
          (entry flgs (phys / page_size)) d.tree d.at)
        (d.kept ctx'.highest_paging (0, 0) at) small aligned not_buffer
        (kept-Walk left place cur ctx phys virt flgs ctx'.highest_paging virt' e m
          (vmm_map (suc (suc depth)) true cur ctx phys virt flgs m) h.tree at h.virt_aligned small
          aligned not_buffer ne d w) in
    rw (d.result) read

-- The tables after `vmm_map`, if it returns: they are trees, in which the tables that were there have their places.
pub record Grows (place : Place) (cur : Space) (r : Option Memory) : Type 0 where
  pub memory : Memory
  pub after : Place
  pub result : r ≡ some memory
  pub tree : Tree after cur memory
  pub kept : (q : ℕ) (x : ℕ × ℕ) → place q ≡ some x → after q ≡ some x

-- Under the same conditions on the tables, `vmm_map` returns, the tables are trees again, and every
-- table that was there keeps its place.
pub vmm_map-Grows :
    (depth left : ℕ) (place : Place) (cur ctx : Space) (phys virt flgs : ℕ) (m : Memory)
    → Mappable left place cur ctx phys virt m
    → Grows place cur (vmm_map (suc (suc depth)) true cur ctx phys virt flgs m)
vmm_map-Grows depth left place cur ctx phys virt flgs m h =
    let d = vmm_map-Mapped depth left place cur ctx phys virt flgs m h in
    record {
      memory = write_entry d.table (index3 virt) (entry flgs (phys / page_size)) d.before;
      after = d.after;
      result = d.result;
      tree =
          write-Tree d.after cur d.before d.table (prefix3 virt) (index3 virt)
            (entry flgs (phys / page_size)) d.tree d.at;
      kept = d.kept;
    }
