-- ===== src/Mm/Pages.antt =====
-- src/kernel/mm/pmm.c: the physical pages. The addresses of the free pages stand in an array that is
-- used as a stack, which `pmm_init` fills from the memory map. The array is indexed by its words.
pub mod Bitmap
pub mod Filling
pub mod Layout
pub mod Order
mod Tests
use lizarx.Prelude.{
  ℕ, zero, suc, ◌+◌, ◌-◌, ◌*◌, ◌/◌, ◌%◌, ◌^◌, Option, none, some, List, [], ◌∷◌, ltb, ◌==◌,
  if◌then◌else◌,
}

abbrev pub page_size : ℕ
page_size = 0x1000

-- `pmm_stack_ptr`, and the memory that it points into.
pub record Pages : Type 0 where
  pub pmm_stack_ptr : ℕ
  pub memory : ℕ → ℕ

-- `struct multiboot_mmap`
pub record Region : Type 0 where
  pub base : ℕ
  pub size : ℕ
  pub kind : ℕ

abbrev pub write : (ℕ → ℕ) → ℕ → ℕ → ℕ → ℕ
write m a v k = if k == a then v else m k

-- `pmm_malloc_4k`
unfoldable pub malloc_4k : Pages → ℕ × Pages
malloc_4k p =
    (p.memory p.pmm_stack_ptr / page_size, record p { pmm_stack_ptr = p.pmm_stack_ptr + 1 })

-- `pmm_free_4k_glob` and `pmm_free_4k_unsafe`
unfoldable pub free_4k : ℕ → Pages → Pages
free_4k page p = record p {
  pmm_stack_ptr = p.pmm_stack_ptr - 1;
  memory = write p.memory (p.pmm_stack_ptr - 1) (page * page_size % 2 ^ 64);
}

-- ALIGNED_BASE
abbrev pub aligned_base : ℕ → ℕ
aligned_base base = (base + (page_size - 1)) % 2 ^ 64 / page_size * page_size

-- `mmap->length & 0xfffff000`, a mask of 32 bits.
abbrev pub masked : ℕ → ℕ
masked size = size % 2 ^ 32 / page_size * page_size

-- The loop that pushes the pages from `addr` to `end_addr`, upwards from `at`; `none` where the rounds
-- do not suffice.
unfoldable pub push_pages : ℕ → ℕ → ℕ → ℕ → (ℕ → ℕ) → Option (ℕ × (ℕ → ℕ))
push_pages zero addr end_addr at m = none
push_pages (suc rounds) addr end_addr at m =
    let rest =
      push_pages rounds ((addr + page_size) % 2 ^ 64) end_addr (at + 1) (write m at addr) in
    if ltb addr end_addr then rest else some (at, m)

-- The pages of one entry of the memory map, which gives fewer than 2 ^ 20 of them: so many rounds are enough.
unfoldable pub push_region : ℕ → Region → ℕ → (ℕ → ℕ) → Option (ℕ × (ℕ → ℕ))
unfolding push_pages
push_region rounds r at m =
    if r.kind == 1
    then push_pages rounds (aligned_base r.base) ((aligned_base r.base + masked r.size) % 2 ^ 64) at
        m
    else some (at, m)

-- The loop of `pmm_init` over the memory map, with `pmm_stack_ptr_init` at `at`.
unfoldable pub push_map : ℕ → List Region → ℕ → (ℕ → ℕ) → Option (ℕ → ℕ)
unfolding push_region
push_map rounds [] at m = some m
push_map rounds (r ∷ rs) at m = elim (push_region rounds r at m) [
  | none ↦ none
  | some (at', m') ↦ push_map rounds rs at' m'
]

-- The part of `pmm_init` that fills the stack.
unfoldable pub init : ℕ → List Region → Pages → Option Pages
unfolding push_map
init rounds rs p = elim (push_map rounds rs p.pmm_stack_ptr p.memory) [
  | none ↦ none
  | some m ↦ some (record p { memory = m })
]
