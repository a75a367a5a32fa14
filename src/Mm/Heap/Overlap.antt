-- ===== src/Mm/Heap/Overlap.antt =====
-- The free remainder of a cut can be smaller than a header; what `kmalloc` does there.
use lizarx.Prelude.{◌+◌, ◌-◌, ◌^◌, ◌<◌, ◌≡◌, ℕ, true, List, ◌∷◌, arith}
use lizarx.Mm.Heap.{Block, header, page_size, corrupts, carve, kmalloc}

-- Where a request leaves less than a header of the first block, which is free, but not nothing, `kmalloc` writes the header of the block it
-- cuts off over the one of the first block.
pub kmalloc-corrupts :
    (b : Block) (l : List Block) (size : ℕ)
    → b.free ≡ true
    → b.size < 2 ^ 64
    → size < page_size - header
    → size + header < b.size
    → b.size < size + header + header
    → kmalloc (b ∷ l) size ≡ corrupts
unfolding kmalloc carve
kmalloc-corrupts b l size free w small fit less = ground arith
