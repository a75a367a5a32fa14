-- ===== src/Mm/Pages/Layout.antt =====
-- src/kernel/mm/pmm.c: `pmm_init_mmap`, which finds room for the stack of the first processor, the
-- stack of free pages, the modules and the first page tables in the memory map, as the kernel for
-- x86_64 does it. A loader's copy of the function is not modelled.
pub mod Reserve
use lizarx.Prelude.{
  ℕ, ◌+◌, ◌-◌, ◌*◌, ◌/◌, ◌%◌, ◌^◌, List, [], ◌∷◌, leb, ◌==◌, ◌&&◌, Bool, if◌then◌else◌,
}
use lizarx.Mm.Pages.{Region, page_size, aligned_base, masked}
use lizarx.Mm.Pages.Bitmap.{Module, easymaptbl_siz, stdrd_stacksiz, pmm_stack_siz, paging_hier_size}

-- The globals that it sets; all are 0 before.
pub record Layout : Type 0 where
  pub bsp_stack : ℕ
  pub easy_map_tbl : ℕ
  pub pmm_stack_ptr : ℕ
  pub startup_tables : ℕ

-- `mod_size`: the differences are those of 32-bit words.
unfoldable pub modules_size : ℕ → List Module → ℕ
modules_size n [] = n
modules_size n (m ∷ ms) =
    modules_size ((n + (m.mod_end + 2 ^ 32 - m.mod_start) % 2 ^ 32) % 2 ^ 64) ms

-- The bytes for the two stacks, the table of the loader and the modules.
abbrev pub stacks_siz : ℕ → ℕ
stacks_siz mod_size = easymaptbl_siz + stdrd_stacksiz + pmm_stack_siz + aligned_base mod_size

-- `((base+length)&0xfffff000)-(ALIGNED_BASE(base)) >= ...`, on 64-bit words: the mask has 32 bits.
abbrev pub has_room : ℕ → Region → Bool
has_room mod_size r =
    leb (stacks_siz mod_size + (paging_hier_size + 1) * page_size)
      ((masked (r.base + r.size) + 2 ^ 64 - aligned_base r.base) % 2 ^ 64)

-- The entry after its front part is taken: `base` is moved, `length` is not.
abbrev pub without_front : ℕ → Region → Region
without_front mod_size r = record r {
  base =
      (aligned_base r.base + (stacks_siz mod_size + (paging_hier_size + 2) * page_size)) % 2 ^ 64;
}

-- The globals for an entry, `base & 0xfffff000` being `bsp_stack`.
abbrev pub layout_at : ℕ → Region → Layout
layout_at mod_size r = record {
  bsp_stack = masked r.base;
  easy_map_tbl = masked r.base + stdrd_stacksiz;
  pmm_stack_ptr = masked r.base + easymaptbl_siz + stdrd_stacksiz;
  startup_tables = masked r.base + stacks_siz mod_size;
}

-- The loop of `pmm_init_mmap` over the memory map.
pub reserve_from : ℕ → Layout → List Region → Layout × List Region
reserve_from mod_size l [] = (l, [])
reserve_from mod_size l (r ∷ rs) =
    let take = r.kind == 1 && has_room mod_size r && l.bsp_stack == 0 in
    let rest = reserve_from mod_size (if take then layout_at mod_size r else l) rs in
    (rest.0, (if take then without_front mod_size r else r) ∷ rest.1)

-- `pmm_init_mmap`, with `bsp_stack` 0 before.
unfoldable pub init_mmap : List Module → List Region → Layout × List Region
unfolding modules_size reserve_from
init_mmap ms rs =
    reserve_from (modules_size 0 ms)
      (record { bsp_stack = 0; easy_map_tbl = 0; pmm_stack_ptr = 0; startup_tables = 0 }) rs
