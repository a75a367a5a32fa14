-- ===== src/Mm/Heap.antt =====
-- src/kernel/mm/vheap.c: the kernel heap, a chain of blocks from `first` on. A block is its address
-- with the fields of its header but `next`, which is the order of the list. Addresses and sizes are
-- 64-bit words. Headers are fields here and not bytes of memory, which is what the code does as long as
-- none lies over another one: where `kmalloc` would write a header over that of the block it cuts, the
-- outcome says so and there is no chain after it.
pub mod Free
pub mod Malloc
pub mod Overlap
mod Tests
use lizarx.Prelude.{
  ℕ, ◌+◌, ◌-◌, ◌%◌, ◌^◌, ◌≤◌, ◌<◌, ◌≡◌, ◌⊎◌, Bool, true, false, not, ◌&&◌, Option, none, some, List,
  [], ◌∷◌, ltb, leb, ◌==◌, if◌then◌else◌,
}

-- `struct heap_block` and where it lies.
pub record Block : Type 0 where
  pub addr : ℕ
  pub size : ℕ
  pub free : Bool

-- `sizeof(struct heap_block)`: a pointer, a byte padded to a word, a word.
abbrev pub header : ℕ
header = 24

abbrev pub page_size : ℕ
page_size = 0x1000

-- Unsigned 64-bit subtraction.
abbrev pub sub_word : ℕ → ℕ → ℕ
sub_word a b = (a + 2 ^ 64 - b) % 2 ^ 64

abbrev pub add_word : ℕ → ℕ → ℕ
add_word a b = (a + b) % 2 ^ 64

-- What `kmalloc` does: it returns, it never does, or it writes the header of a new block over the one of
-- the block that it cuts.
pub data Outcome : Type 0 where
  returned : ℕ → List Block → Outcome
  hangs : Outcome
  corrupts : Outcome

-- What the search loop comes to: no block, a header over another, or the block that goes in front of the chain, if
-- one was cut off, the address to return, and the chain with the block changed.
pub data Search : Type 0 where
  absent : Search
  overlapping : Search
  found : Option Block → ℕ → List Block → Search

-- `vheap_init`, with what `kvmm_malloc(HEAP_INIT_SIZE)` returned.
unfoldable pub init : ℕ → List Block
init start = record { addr = start; size = page_size + page_size; free = true } ∷ []

-- The test of the search loop.
abbrev pub fits : Block → ℕ → Bool
fits b size = leb size (sub_word b.size header) && b.free

-- The block that is cut off the end of `b`.
abbrev pub cut : Block → ℕ → Block
cut b size = record {
  addr = add_word b.addr (sub_word b.size (add_word size header));
  size = add_word size header;
  free = false;
}

-- A block that the search has passed.
abbrev pub pass : Block → Search → Search
pass b absent = absent
pass b overlapping = overlapping
pass b (found n p l) = found n p (b ∷ l)

-- The search loop of `kmalloc`.
unfoldable pub carve : List Block → ℕ → Search
carve [] size = absent
carve (b ∷ l) size =
    let rest = carve l size in
    let left = sub_word b.size (add_word size header) in
    if fits b size
    then (if ltb header (sub_word b.size size)
        then (if ltb left header
            then overlapping
            else found (some (cut b size)) (add_word (cut b size).addr header)
                (record b { size = left } ∷ l))
        else found none (add_word b.addr header) (record b { free = false } ∷ l))
    else pass b rest

abbrev pub push : Option Block → List Block → List Block
push none l = l
push (some n) l = n ∷ l

-- `vheap_enlarge` runs into its `while(1)` before it changes the chain.
abbrev pub enlarge : Outcome
enlarge = hangs

abbrev pub outcome : Search → Outcome
outcome absent = enlarge
outcome overlapping = corrupts
outcome (found n p l) = returned p (push n l)

-- `kmalloc`
unfoldable pub kmalloc : List Block → ℕ → Outcome
unfolding carve
kmalloc l size = if leb (page_size - header) size then enlarge else outcome (carve l size)

-- `kfree`
unfoldable pub kfree : List Block → ℕ → List Block
kfree [] ptr = []
kfree (b ∷ l) ptr =
    if add_word b.addr header == ptr && not b.free
    then record b { free = true } ∷ l
    else b ∷ kfree l ptr

abbrev pub All : (Block → Type 0) → List Block → Type 0
All P [] = Unit
All P (b ∷ l) = P b × All P l

abbrev pub Any : (Block → Type 0) → List Block → Type 0
Any P [] = ⊥
Any P (b ∷ l) = P b ⊎ Any P l

-- The two blocks share no byte.
abbrev pub Apart : Block → Block → Type 0
Apart b c = (b.addr + b.size ≤ c.addr) ⊎ (c.addr + c.size ≤ b.addr)

-- The blocks lie in the address space and share no byte.
abbrev pub IsHeap : List Block → Type 0
IsHeap [] = Unit
IsHeap (b ∷ l) = (b.addr + b.size < 2 ^ 64) × All (Apart b) l × IsHeap l

-- Every block has room for its header.
abbrev pub HasHeaders : List Block → Type 0
HasHeaders l = All (λ b. header ≤ b.size) l
