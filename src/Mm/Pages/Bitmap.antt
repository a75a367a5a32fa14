-- ===== src/Mm/Pages/Bitmap.antt =====
-- src/kernel/mm/pmm.c: the bitmap of the physical pages, in which a set bit is a free page, and the
-- part of `pmm_init` that marks the pages in use. A word of the array is named by its index; the
-- array has 8192 words, for the pages below 2 ^ 18; a page from there on is a bit of the memory behind it.
pub mod Loops
pub mod Marked
use Prim.Native.Nat.{bit_and}
use lizarx.Prelude.{
  ℕ, zero, suc, ◌+◌, ◌-◌, ◌*◌, ◌/◌, ◌%◌, ◌^◌, Bool, true, false, Option, none, some, List, [], ◌∷◌,
  ltb, ◌==◌, ◌>>=◌, set, ◌&&◌, if◌then◌else◌,
}
use lizarx.Mm.Pages.{page_size, aligned_base}
use lizarx.Mm.Tables.{tmp_pagebuf}

-- `physbitmap`, and the words behind it.
abbrev pub Bitmap : Type 0
Bitmap = ℕ → ℕ

-- `memset(&physbitmap, 0xffffffff, sizeof(physbitmap))`, where `m` is what lay there.
abbrev pub all_free : Bitmap → Bitmap
all_free m = λ i. if ltb i 8192 then 0xffffffff else m i

-- `pmm_mark_used` and `pmm_mark_used_glob`
unfoldable pub mark_used : ℕ → Bitmap → Bitmap
mark_used page b = set b (page / 32) (bit_and (b (page / 32)) (2 ^ 32 - 1 - 2 ^ (page % 32)))

-- `pmm_is_alloced_glob`
unfoldable pub is_alloced : ℕ → Bitmap → Bool
is_alloced page b = bit_and (b (page / 32)) (2 ^ (page % 32)) == 0

-- `while (addr < end) { pmm_mark_used(addr/PAGE_SIZE); addr += PAGE_SIZE; }`; `none` where the rounds
-- do not suffice.
unfoldable pub mark_while : ℕ → ℕ → ℕ → Bitmap → Option Bitmap
mark_while zero addr end b = none
mark_while (suc rounds) addr end b =
    let rest =
      mark_while rounds ((addr + page_size) % 2 ^ 64) end (mark_used (addr / page_size) b) in
    elim (ltb addr end) [ true ↦ rest | false ↦ some b ]

-- `for(i = first; i < first + n; i++) pmm_mark_used(i)`
unfoldable pub mark_for : ℕ → ℕ → Bitmap → Bitmap
mark_for first zero b = b
mark_for first (suc n) b = mark_for (first + 1) n (mark_used first b)

-- `struct multiboot_module`
pub record Module : Type 0 where
  pub mod_start : ℕ
  pub mod_end : ℕ

-- The loop over the modules.
unfoldable pub mark_modules : ℕ → List Module → Bitmap → Option Bitmap
unfolding mark_while
mark_modules rounds [] b = some b
mark_modules rounds (m ∷ ms) b =
    mark_while rounds m.mod_start m.mod_end b >>= mark_modules rounds ms

-- TRAMPOLINE, EASYMAPTBL_SIZ, STDRD_STACKSIZ, PMM_STACK_SIZ and PAGING_HIER_SIZE
abbrev pub trampoline : ℕ
trampoline = 0x7000

abbrev pub easymaptbl_siz : ℕ
easymaptbl_siz = 0x1000 * 515

abbrev pub stdrd_stacksiz : ℕ
stdrd_stacksiz = 0x2000

abbrev pub pmm_stack_siz : ℕ
pmm_stack_siz = 0x1000000

abbrev pub paging_hier_size : ℕ
paging_hier_size = 4

-- The addresses that `pmm_init` reads: the bounds of the kernel, `mb_info`, `modules_glob` with its
-- entries, `bsp_stack` and `mod_size`.
pub record Image : Type 0 where
  pub kernel_start : ℕ
  pub kernel_end : ℕ
  pub mb_info : ℕ
  pub modules_glob : ℕ
  pub modules : List Module
  pub bsp_stack : ℕ
  pub mod_size : ℕ

-- The page behind the ones that the loader's data take from `bsp_stack` on.
abbrev pub stack_limit : Image → ℕ
stack_limit k =
    (k.bsp_stack + easymaptbl_siz + stdrd_stacksiz + pmm_stack_siz + aligned_base k.mod_size)
      % 2 ^ 64
      / page_size
    + paging_hier_size
    + 2

-- The part of `pmm_init` that fills the bitmap; `addr <= end` is `addr < end + 1`. It is `none` as well where
-- the `int` that counts the pages of the loader would overflow.
unfoldable pub mark_image : ℕ → Image → Bitmap → Option Bitmap
unfolding mark_while mark_modules mark_for
mark_image rounds k m = mark_while rounds k.kernel_start (k.kernel_end + 1) (all_free m) >>= λ b.
    mark_modules rounds k.modules
      (mark_used (k.modules_glob / page_size) (mark_used (k.mb_info / page_size) b))
    >>= λ b'.
        if ltb (stack_limit k) (2 ^ 31) && ltb (k.bsp_stack / page_size) (2 ^ 31)
        then some (
            mark_for 0 0x100 (
              mark_for (k.bsp_stack / page_size) (stack_limit k - k.bsp_stack / page_size)
                (mark_used (trampoline / page_size) (mark_used (tmp_pagebuf / page_size) b'))))
        else none
