-- ===== src/Mm/Tables/Keeping.antt =====
-- The ways that `vmm_map` of another address leaves as they are.
use lizarx.Prelude.{
  ℕ, ◌/◌, ◌%◌, ◌^◌, ◌<◌, ◌≡◌, ◌≢◌, inl, inr, ap, ◌∙◌, Option, some, arith, ℕ_discrete,
}
use lizarx.Mm.Tables.{
  PagingEntry, Space, Memory, page_size, tmp_pagebuf, in_mem, entry, index0, index1, index2, index3,
  write_entry,
}
use lizarx.Mm.Tables.Tree.{Place, Tree, apart, level_apart}
use lizarx.Mm.Tables.Walk.{Walk, prefix1, prefix2, prefix3, Walk-Placed, Walk-kept}
use lizarx.Mm.Tables.Preserving.{write-other}
use lizarx.Mm.Tables.Mapping.{Mapped}

-- A way to another address stays as it is.
pub kept-Walk :
    (left : ℕ) (place : Place) (cur ctx : Space) (phys virt flgs root virt' : ℕ) (e : PagingEntry)
    (m : Memory) (r : Option Memory)
    → Tree place cur m
    → place root ≡ some (0, 0)
    → virt % page_size ≡ 0
    → virt' < 2 ^ 48
    → virt' % page_size ≡ 0
    → virt' ≢ tmp_pagebuf
    → virt' ≢ virt
    → (d : Mapped left place cur ctx phys virt flgs m r) → Walk m root virt' e
    → Walk (write_entry d.table (index3 virt) (entry flgs (phys / page_size)) d.before) root virt' e
kept-Walk left place cur ctx phys virt flgs root virt' e m r t at va small aligned not_buffer ne d
      w =
    let w' =
      Walk-kept place cur m d.before root virt' e t at small aligned not_buffer d.preserves w in
    let root' = d.kept root (0, 0) at in
    let p = Walk-Placed d.after cur d.before root virt' e d.tree root' small w' in
    record {
      dir_ptr = w'.dir_ptr;
      dir = w'.dir;
      table = w'.table;
      present0 = ap in_mem (other root 0 0 (index0 virt') root' (omega arith)) ∙ w'.present0;
      leads0 =
          ap (λ x. x.next_paging_layer) (other root 0 0 (index0 virt') root' (omega arith))
          ∙ w'.leads0;
      present1 =
          ap in_mem (other w'.dir_ptr 1 (prefix1 virt') (index1 virt') p.at1 (omega arith))
          ∙ w'.present1;
      leads1 =
          ap (λ x. x.next_paging_layer)
            (other w'.dir_ptr 1 (prefix1 virt') (index1 virt') p.at1 (omega arith))
          ∙ w'.leads1;
      present2 =
          ap in_mem (other w'.dir 2 (prefix2 virt') (index2 virt') p.at2 (omega arith))
          ∙ w'.present2;
      leads2 =
          ap (λ x. x.next_paging_layer)
            (other w'.dir 2 (prefix2 virt') (index2 virt') p.at2 (omega arith))
          ∙ w'.leads2;
      leaf =
          write-other d.table (index3 virt) w'.table (index3 virt') (entry flgs (phys / page_size))
            d.before
            (elim (ℕ_discrete (index3 virt') (index3 virt)) [
              | yes same ↦ inl (
                  apart d.after w'.table d.table (3, prefix3 virt') (3, prefix3 virt) p.at3 d.at
                    (λ o.
                      let z : prefix3 virt' ≡ prefix3 virt = ap (λ x. x.1) o in
                      ne (omega (arith, aligned, va, same, z))))
              | no differ ↦ inr differ
            ])
          ∙ w'.leaf;
    }
  where
    other :
        (q l pre j : ℕ)
        → d.after q ≡ some (l, pre)
        → l ≢ 3
        → (write_entry d.table (index3 virt) (entry flgs (phys / page_size)) d.before).tables q j
          ≡ d.before.tables q j
    other q l pre j e' lt =
        write-other d.table (index3 virt) q j (entry flgs (phys / page_size)) d.before
          (inl (level_apart d.after q d.table l 3 pre (prefix3 virt) e' d.at lt))
