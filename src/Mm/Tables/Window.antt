-- ===== src/Mm/Tables/Window.antt =====
-- A page at TMP_PAGEBUF: `vmm_map` of that address needs no other page there.
use lizarx.Prelude.{ℕ, suc, ◌*◌, ◌/◌, ◌%◌, ◌^◌, ◌<◌, ◌≡◌, refl, true, Option, some, ◌==◌, arith}
use lizarx.Mm.Tables.{
  Space, Memory, page_size, tmp_pagebuf, flgcombat_kernel, in_mem, write_entry, entry, window,
  descend, map_at, vmm_map,
}

-- The first tables of the context are in memory.
pub record Linked (cur : Space) (m : Memory) : Type 0 where
  pub dir_ptr : in_mem (m.tables cur.highest_paging 0) ≡ true
  pub dir : in_mem (m.tables cur.first_dir_ptr 0) ≡ true
  pub table : in_mem (m.tables cur.first_dir 0) ≡ true

-- The memory with a page at TMP_PAGEBUF.
abbrev pub with_window : Space → ℕ → Memory → Memory
with_window cur page m = write_entry cur.first_table 1 (entry flgcombat_kernel page) m

descend-first :
    (cur : Space) (map : ℕ → Memory → Option Memory) (first p i : ℕ) (m : Memory)
    → in_mem (m.tables p i) ≡ true
    → descend true cur map tmp_pagebuf first p i m ≡ some (first, m)
unfolding descend
descend-first cur map first p i m e = rw e refl

map_at-window :
    (page : ℕ) (cur : Space) (map : ℕ → Memory → Option Memory) (m : Memory)
    → Linked cur m
    → map_at true cur map cur (page * page_size) tmp_pagebuf flgcombat_kernel m
      ≡ some (with_window cur page m)
unfolding map_at
map_at-window page cur map m l =
    let number : page * page_size / page_size ≡ page = omega arith in
    rw
      (
        descend-first cur map cur.first_dir_ptr cur.highest_paging 0 m l.dir_ptr,
        descend-first cur map cur.first_dir cur.first_dir_ptr 0 m l.dir,
        descend-first cur map cur.first_table cur.first_dir 0 m l.table,
        number,
      )
      refl

-- `vmm_map` puts the page at TMP_PAGEBUF and changes nothing else, to any depth.
pub vmm_map-window :
    (depth page : ℕ) (cur : Space) (m : Memory)
    → Linked cur m
    → vmm_map (suc depth) true cur cur (page * page_size) tmp_pagebuf flgcombat_kernel m
      ≡ some (with_window cur page m)
unfolding vmm_map
vmm_map-window depth page cur m l =
    let aligned : (page * page_size % page_size == 0) ≡ true = ground arith in
    rw (aligned, vmm_map)
      (map_at-window page cur
        (λ p m. vmm_map depth true cur cur (p * page_size) tmp_pagebuf flgcombat_kernel m) m l)

-- It is the page that is found there.
pub window-page :
    (page : ℕ) (cur : Space) (m : Memory)
    → page < 2 ^ 40
    → window cur (with_window cur page m) ≡ page
window-page page cur m h = ground arith
