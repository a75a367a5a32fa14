-- ===== src/Mm/Heap/Tests.antt =====
-- Runs of the heap from `vheap_init` on, and its theorems there.
use lizarx.Prelude.{ℕ, ◌+◌, ◌-◌, ◌≡◌, inr, refl, true, false, List, [], ◌∷◌, arith}
use lizarx.Mm.Heap.{Block, returned, corrupts, init, kmalloc, kfree, IsHeap, HasHeaders}
use lizarx.Mm.Heap.Malloc.{Result, kmalloc-Result}
use lizarx.Mm.Heap.Free.{Freed, kfree-Freed}

abbrev block : ℕ → ℕ → List Block → List Block
block a n l = record { addr = a; size = n; free = true } ∷ l

abbrev used : ℕ → ℕ → List Block → List Block
used a n l = record { addr = a; size = n; free = false } ∷ l

abbrev start : ℕ
start = 0x200000

-- A block is cut off the end.
kmalloc_runs :
    kmalloc (init start) 100
    ≡ returned (start + 8192 - 100) (used (start + 8192 - 124) 124 (block start (8192 - 124) []))
unfolding kmalloc init
kmalloc_runs = refl

-- Two requests, of which the second would leave 13 bytes of the block that it cuts.
two_requests :
    (kmalloc (init start) 4071
      ≡ returned (start + 4097 + 24) (used (start + 4097) 4095 (block start 4097 [])))
    × (kmalloc (used (start + 4097) 4095 (block start 4097 [])) 4060 ≡ corrupts)
unfolding kmalloc init
two_requests = (refl, refl)

abbrev two : List Block
two = used (start + 4097) 4095 (block start 4097 [])

two-IsHeap : IsHeap two
two-IsHeap = (omega arith, (inr (omega arith), tt), (omega arith, tt, tt))

two-HasHeaders : HasHeaders two
two-HasHeaders = omega arith

kmalloc-Result_example : Result two 1000 (kmalloc two 1000)
kmalloc-Result_example = kmalloc-Result two 1000 two-IsHeap two-HasHeaders

kfree-Freed_example : Freed (start + 4097 + 24) two (kfree two (start + 4097 + 24))
kfree-Freed_example = kfree-Freed two (start + 4097 + 24) two-IsHeap two-HasHeaders
