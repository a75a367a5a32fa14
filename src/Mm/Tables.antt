-- ===== src/Mm/Tables.antt =====
-- src/kernel/mm/vmm.c: the page tables of x86_64, `vmm_map` and `virt_to_phys`. A table is named by
-- its physical page; so are the tables that the pointers of a context lead to. Other tables are
-- reached through the page TMP_PAGEBUF: `window` is the page that the processor finds there in the
-- current context, whose first tables hang together from the highest one. `none` is a recursion that
-- goes deeper than `depth`, or the loop that never ends.
pub mod Descend
pub mod Grown
pub mod Keeping
pub mod Mapping
pub mod Preserving
pub mod Reading
mod Tests
pub mod Tree
pub mod Walk
pub mod Window
use lizarx.Prelude.{
  ◌>>=◌, ℕ, zero, suc, ◌+◌, ◌*◌, ◌/◌, ◌%◌, ◌^◌, Bool, true, false, ◌&&◌, ◌||◌, not, Option, none,
  some, ◌==◌, if◌then◌else◌,
}
use lizarx.Mm.Pages.{Pages, malloc_4k}

abbrev pub page_size : ℕ
page_size = 0x1000

abbrev pub tmp_pagebuf : ℕ
tmp_pagebuf = 0x1000

-- FLG_IN_MEM | FLG_WRITABLE | FLG_WRITECACHING, and with FLG_USERACCESS.
abbrev pub flgcombat_kernel : ℕ
flgcombat_kernel = 0xb

abbrev pub flgcombat_user : ℕ
flgcombat_user = 0xf

-- `struct vmm_paging_entry`
pub record PagingEntry : Type 0 where
  pub rw_flags : ℕ
  pub next_paging_layer : ℕ

-- The paging fields of `vmm_context`: the highest table, and `other_first_tables`.
pub record Space : Type 0 where
  pub highest_paging : ℕ
  pub first_dir_ptr : ℕ
  pub first_dir : ℕ
  pub first_table : ℕ

-- The memory of the tables, and the free physical pages.
pub record Memory : Type 0 where
  pub tables : ℕ → ℕ → PagingEntry
  pub pages : Pages

-- `rw_flags & FLG_IN_MEM`
abbrev pub in_mem : PagingEntry → Bool
in_mem e = e.rw_flags % 2 == 1

abbrev pub write_entry : ℕ → ℕ → PagingEntry → Memory → Memory
write_entry p i e m = record m { tables = λ q j. if q == p && j == i then e else m.tables q j }

-- `memset(next_paging_struct, 0, PAGE_SIZE)`
abbrev pub clear_table : ℕ → Memory → Memory
clear_table p m = record m {
  tables = λ q j. if q == p then record { rw_flags = 0; next_paging_layer = 0 } else m.tables q j;
}

-- `paging_indexes`
abbrev pub index0 : ℕ → ℕ
index0 virt = virt / page_size / (512 * 512 * 512)

abbrev pub index1 : ℕ → ℕ
index1 virt = virt / page_size % (512 * 512 * 512) / (512 * 512)

abbrev pub index2 : ℕ → ℕ
index2 virt = virt / page_size % (512 * 512) / 512

abbrev pub index3 : ℕ → ℕ
index3 virt = virt / page_size % 512

-- The table that stands at TMP_PAGEBUF.
abbrev pub window : Space → Memory → ℕ
window cur m = (m.tables cur.first_table 1).next_paging_layer

-- An entry for a page number, which has 40 bits.
abbrev pub entry : ℕ → ℕ → PagingEntry
entry flgs page = record { rw_flags = flgs % 2 ^ 8; next_paging_layer = page % 2 ^ 40 }

-- A table is put at TMP_PAGEBUF by `map`, if paging is on, and then is found there.
abbrev pub seen : Bool → Space → ℕ → Option Memory → Option (ℕ × Memory)
seen activated cur page none = none
seen activated cur page (some m) = some ((if activated then window cur m else page), m)

-- The branch of the loop of `vmm_map` for an entry that is not in memory: a new table.
abbrev pub cleared : Option (ℕ × Memory) → Option (ℕ × Memory)
cleared none = none
cleared (some (t, m)) = some (t, clear_table t m)

module _ (activated : Bool) (cur : Space) (map : ℕ → Memory → Option Memory) where
  -- The body of the loop of `vmm_map` at the entry `i` of the table `p`; `first` is the element of
  -- `other_first_tables`, and `map` puts a page at TMP_PAGEBUF.
  unfoldable pub descend : ℕ → ℕ → ℕ → ℕ → Memory → Option (ℕ × Memory)
  descend virt first p i m =
      let e = m.tables p i in
      let r = malloc_4k m.pages in
      let m' = write_entry p i (entry flgcombat_user r.0) (record m { pages = r.1 }) in
      if in_mem e
      then (if virt == tmp_pagebuf && activated
          then some (first, m)
          else seen activated cur e.next_paging_layer
              (if activated then map e.next_paging_layer m else some m))
      else cleared (seen activated cur r.0 (if activated then map r.0 m' else some m'))

  -- `vmm_map` of the context `ctx` for addresses that stand at pages.
  unfoldable pub map_at : Space → ℕ → ℕ → ℕ → Memory → Option Memory
  unfolding descend
  map_at ctx phys virt flgs m =
      descend virt ctx.first_dir_ptr ctx.highest_paging (index0 virt) m >>= λ r0.
      descend virt ctx.first_dir r0.0 (index1 virt) r0.1 >>= λ r1.
      descend virt ctx.first_table r1.0 (index2 virt) r1.1 >>= λ r2.
      some (write_entry r2.0 (index3 virt) (entry flgs (phys / page_size)) r2.1)

-- `vmm_map` of the context `ctx` while `cur` is the current one.
unfoldable pub vmm_map : ℕ → Bool → Space → Space → ℕ → ℕ → ℕ → Memory → Option Memory
unfolding map_at
vmm_map zero activated cur ctx phys virt flgs m = none
vmm_map (suc depth) activated cur ctx phys virt flgs m =
    let map = λ (page : ℕ) (m : Memory).
      vmm_map depth activated cur cur (page * page_size) tmp_pagebuf flgcombat_kernel m in
    elim (not (virt % page_size == 0) || not (phys % page_size == 0)) [
      | true ↦ some m
      | false ↦ map_at activated cur map ctx phys virt flgs m
    ]

-- One round of the loop of `virt_to_phys_unsafe`, once paging is on: the page of the next table, or 0.
unfoldable pub follow : ℕ → Space → ℕ → ℕ × Memory → Option (ℕ × Memory)
unfolding vmm_map
follow depth cur i (p, m) =
    if p == 0
    then some (0, m)
    else (vmm_map depth true cur cur (p * page_size) tmp_pagebuf flgcombat_kernel m >>= λ m'.
        some ((m'.tables (window cur m') i).next_paging_layer, m'))

-- `virt_to_phys_unsafe` of a context.
unfoldable pub virt_to_phys : ℕ → Space → Space → ℕ → Memory → Option (ℕ × Memory)
unfolding follow
virt_to_phys depth cur ctx virt m =
    if not (virt % page_size == 0)
    then none
    else (follow depth cur (index1 virt)
          ((m.tables ctx.highest_paging (index0 virt)).next_paging_layer, m)
        >>= λ r1. follow depth cur (index2 virt) r1 >>= λ r2.
            follow depth cur (index3 virt) r2 >>= λ r3. some (r3.0 * page_size, r3.1))
