-- ===== src/Mm/Start/Tests.antt =====
-- `vmm_init` on the memory map of a machine, and on one with memory behind the first gigabyte.
use lizarx.Prelude.{ℕ, ◌≡◌, refl, List, [], ◌∷◌, arith}
use lizarx.Mm.Pages.{Region}
use lizarx.Mm.FreeStack.{Context, IsFree, IsValid, find_freemem}
use lizarx.Mm.Start.{init_ranges}
use lizarx.Mm.Start.Ranges.{Ordered, Offered, init_ranges-Offered}

abbrev empty : Context
empty = record { base = 4; ptr = 4; stack = λ k. record { start = 0; end = 0 } }

abbrev low_memory : Region
low_memory = record { base = 0; size = 0x9fc00; kind = 1 }

abbrev reserved : Region
reserved = record { base = 0x9fc00; size = 0x400; kind = 2 }

abbrev main_memory : Region
main_memory = record { base = 0x100000; size = 0x7ffe0000; kind = 1 }

abbrev sample : List Region
sample = low_memory ∷ reserved ∷ main_memory ∷ []

sample-Ordered : Ordered 0 sample
sample-Ordered = (
  (λ e. record {
    aligned = refl;
    behind = omega arith;
    in_kernel = omega arith;
    small = omega arith;
  }),
  (
    (λ e. absurd (ground (arith, e))),
    (
      (λ e. record {
        aligned = refl;
        behind = omega arith;
        in_kernel = omega arith;
        small = omega arith;
      }),
      tt,
    ),
  ),
)

init_ranges-Offered_example :
    IsValid (init_ranges sample empty)
    × ((a : ℕ) → IsFree (init_ranges sample empty) a → Offered sample a)
    × ((a : ℕ) → Offered sample a → IsFree (init_ranges sample empty) a)
init_ranges-Offered_example =
    init_ranges-Offered sample empty (omega arith) refl sample-Ordered (omega arith)

-- A free entry behind the first gigabyte becomes a range whose end is below its start, and the kernel
-- gets addresses from it.
behind_kernel :
    (find_freemem
      (init_ranges (record { base = 0x80000000; size = 0x100000; kind = 1 } ∷ []) empty)
      0x1000).0
    ≡ 0x80000000
unfolding init_ranges find_freemem
behind_kernel = refl
