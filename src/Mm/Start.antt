-- ===== src/Mm/Start.antt =====
-- src/kernel/mm/vmm.c: the free ranges that `vmm_init` gives to `startup_context`, which lie in the free
-- entries of the memory map below KERNEL_SPACE. The mapping of the pages in use and the start of
-- paging are not modelled.
pub mod Ranges
mod Tests
use lizarx.Prelude.{ℕ, ◌+◌, ◌%◌, ◌^◌, List, [], ◌∷◌, ltb, ◌==◌, ◌&&◌, if◌then◌else◌}
use lizarx.Mm.Pages.{Region, aligned_base, masked}
use lizarx.Mm.FreeStack.{Entry, Context, write}

-- KERNEL_SPACE
abbrev pub kernel_space : ℕ
kernel_space = 0x40000000

-- The range of an entry of the map; the sum is one of 64-bit words.
abbrev pub range_of : Region → Entry
range_of r =
    let end_addr = (aligned_base r.base + masked r.size) % 2 ^ 64 in
    record {
      start = aligned_base r.base;
      end = if ltb kernel_space end_addr then kernel_space else end_addr;
    }

-- The body of the loop of `vmm_init` over the memory map.
unfoldable pub push_range : Region → Context → Context
push_range r c =
    if r.kind == 1 && ltb c.ptr (c.base + 256)
    then record c { ptr = c.ptr + 1; stack = write c.stack c.ptr (range_of r) }
    else c

-- The loop.
unfoldable pub init_ranges : List Region → Context → Context
unfolding push_range
init_ranges [] c = c
init_ranges (r ∷ rs) c = init_ranges rs (push_range r c)
