-- ===== src/Mm/Pages/Tests.antt =====
-- Runs of the page stack, and its theorems on a map of a used and two free entries.
use lizarx.Prelude.{◌≤◌, ◌*◌, ◌/◌, ◌<◌, ℕ, ◌^◌, ◌+◌, ◌≡◌, refl, true, false, some, [], ◌∷◌, arith}
use lizarx.Mm.Pages.{Pages, Region, malloc_4k, free_4k, init}
use lizarx.Mm.Pages.Bitmap.{Bitmap, Image, is_alloced, mark_image}
use lizarx.Mm.Pages.Bitmap.Marked.{Fits, in_use, is_alloced-mark_image}
use lizarx.Mm.Pages.Layout.{modules_size, stacks_siz, has_room, init_mmap}
use lizarx.Mm.Pages.Layout.Reserve.{Roomy, Reserved, init_mmap-Reserved, init-init_mmap}
use lizarx.Mm.Pages.Filling.{map_pages}
use lizarx.Mm.Pages.Order.{malloc_all, init-malloc_4k}

abbrev low : Region
low = record { base = 0x300000; size = 0x2000; kind = 1 }

abbrev reserved : Region
reserved = record { base = 0x400000; size = 0x1000; kind = 2 }

abbrev high : Region
high = record { base = 0x500000; size = 0x1fff; kind = 1 }

-- An entry that starts off a page.
abbrev odd : Region
odd = record { base = 0x300800; size = 0x1000; kind = 1 }

abbrev start : Pages
start = record { pmm_stack_ptr = 1000; memory = λ a. a }

three : map_pages (low ∷ reserved ∷ high ∷ []) ≡ 0x300000 ∷ 0x301000 ∷ 0x500000 ∷ []
three = refl

popped : ((malloc_4k start).0 ≡ 0) × ((malloc_4k (free_4k 7 start)).0 ≡ 7)
unfolding malloc_4k free_4k
popped = (refl, refl)

init-malloc_4k_example :
    (p' : Pages) × (init (2 ^ 20) (low ∷ reserved ∷ high ∷ []) start ≡ some p')
    × (malloc_all 3 p' ≡ 0x300 ∷ 0x301 ∷ 0x500 ∷ [])
init-malloc_4k_example =
    init-malloc_4k (2 ^ 20) (low ∷ reserved ∷ high ∷ []) start
      (
        (λ e. (refl, omega arith)),
        omega arith,
        (
          (λ e. absurd (ground (arith, e))),
          omega arith,
          ((λ e. (refl, omega arith)), omega arith, tt),
        ),
      )
      (omega arith)

-- A kernel of two pages, one module, and the loader's data at 1 MB.
abbrev image : Image
image = record {
  kernel_start = 0x200000;
  kernel_end = 0x201fff;
  mb_info = 0x10000;
  modules_glob = 0x11000;
  modules = record { mod_start = 0x300000; mod_end = 0x300800 } ∷ [];
  bsp_stack = 0x400000;
  mod_size = 0x800;
}

image-Fits : Fits image
image-Fits = record {
  kernel = omega arith;
  info = omega arith;
  glob = omega arith;
  modules = (omega arith, tt);
  stack = omega arith;
  sizes = omega arith;
  limit = omega arith;
}

is_alloced-mark_image_example :
    (b : Bitmap) × (mark_image (2 ^ 22) image (λ i. i) ≡ some b)
    × ((p : ℕ) → p < 2 ^ 18 → is_alloced p b ≡ in_use image p)
    × ((i : ℕ) → 8192 ≤ i → b i ≡ i)
is_alloced-mark_image_example =
    is_alloced-mark_image (2 ^ 22) image (λ i. i) (omega arith) image-Fits

in_use_runs :
    (in_use image 0x200 ≡ true)
    × (in_use image 0x202 ≡ false)
    × (in_use image 0x300 ≡ true)
    × (in_use image 0x301 ≡ false)
in_use_runs = (refl, refl, refl, refl)

-- A free entry of 32 MB at 4 MB, behind one that is in use.
abbrev wide : Region
wide = record { base = 0x400000; size = 0x2000000; kind = 1 }

wide-Roomy : Roomy (modules_size 0 image.modules) wide
unfolding modules_size
wide-Roomy = record {
  free = refl;
  base_aligned = refl;
  size_aligned = refl;
  behind = omega arith;
  reach = omega arith;
  room = omega arith;
}

init_mmap-Reserved_example :
    Reserved
      (modules_size 0 image.modules)
      (reserved ∷ [])
      wide
      (high ∷ [])
      (init_mmap image.modules (reserved ∷ wide ∷ high ∷ []))
init_mmap-Reserved_example =
    init_mmap-Reserved image.modules (reserved ∷ []) wide (high ∷ []) (refl, tt) wide-Roomy

init-init_mmap_example :
    let taken = stacks_siz (modules_size 0 image.modules) + 6 * 0x1000 in
    (p' : Pages) × (init (2 ^ 20) (init_mmap image.modules (wide ∷ [])).1 start ≡ some p')
    × (p'.pmm_stack_ptr ≡ 1000)
    × ((j : ℕ)
        → j < 0x2000000 / 0x1000
        → p'.memory (p'.pmm_stack_ptr + j) ≡ 0x400000 + taken + j * 0x1000)
    × ((k : ℕ) × (k < 0x2000000 / 0x1000) × (p'.memory (p'.pmm_stack_ptr + k) ≡ 0x2400000))
init-init_mmap_example = init-init_mmap image.modules wide (2 ^ 20) start wide-Roomy (omega arith)

-- The test for room wraps for an entry that holds no whole page.
small_passes : has_room 0 (record { base = 0x1800; size = 0x100; kind = 1 }) ≡ true
small_passes = refl
