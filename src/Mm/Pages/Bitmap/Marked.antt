-- ===== src/Mm/Pages/Bitmap/Marked.antt =====
-- Which pages the bitmap holds in use after `pmm_init`.
use Prim.Native.Nat.{bit_and}
use lizarx.Prelude.{
  ℕ, ◌+◌, ◌-◌, ◌/◌, ◌%◌, ◌^◌, ◌≤◌, ◌<◌, ◌≡◌, refl, ap, ◌∙◌, Bool, true, false, not, ◌&&◌, ◌||◌,
  some, ltb, leb, ◌==◌, arith,
}
use lizarx.Prelude.Bounded.{of_holds_below, holds_below}
use lizarx.Mm.Pages.{page_size}
use lizarx.Mm.Tables.{tmp_pagebuf}
use lizarx.Mm.Pages.Bitmap.{
  Bitmap, all_free, mark_used, is_alloced, mark_for, Image, stack_limit, mark_image, trampoline,
}
use lizarx.Mm.Pages.Bitmap.Loops.{
  is_alloced-mark_used, covers, mark_while-Marks, spans, mark_for-Marks, in_modules, Below,
  mark_modules-Marks, Behind, mark_used-Behind, mark_for-Behind,
}

-- A page in use: it is one of the first 256, of the loader's data, of a module, of the two pages that the loader's
-- tables stand in, or of the kernel.
abbrev pub in_use : Image → ℕ → Bool
in_use k p =
    ltb p 0x100
    || (leb (k.bsp_stack / page_size) p && ltb p (stack_limit k))
    || in_modules k.modules p
    || p == k.modules_glob / page_size
    || p == k.mb_info / page_size
    || covers k.kernel_start (k.kernel_end + 1) p

-- All that `pmm_init` marks lies in the first 2 ^ 18 pages, which are the ones with a bit of the array.
pub record Fits (k : Image) : Type 0 where
  pub kernel : k.kernel_end < 2 ^ 30
  pub info : k.mb_info < 2 ^ 30
  pub glob : k.modules_glob < 2 ^ 30
  pub modules : Below k.modules
  pub stack : k.bsp_stack < 2 ^ 30
  pub sizes : k.mod_size < 2 ^ 30
  pub limit : stack_limit k ≤ 2 ^ 18

all_free-free : (m : Bitmap) (p : ℕ) → p < 2 ^ 18 → is_alloced p (all_free m) ≡ false
unfolding is_alloced holds_below
all_free-free m p lt =
    let inside : ltb (p / 32) 8192 ≡ true = ground arith in
    rw inside (ground (arith, free (p % 32) (omega arith)))
  where
    free : (k : ℕ) → k < 32 → not (bit_and 0xffffffff (2 ^ k) == 0) ≡ true
    free k lt = of_holds_below 32 (λ k. not (bit_and 0xffffffff (2 ^ k) == 0)) k refl lt

or_cases :
    (lower seven one stack mods glob info kern free : Bool)
    → (seven ≡ true → lower ≡ true)
    → (one ≡ true → lower ≡ true)
    → free ≡ false
    → (lower || (stack || (seven || (one || (mods || (glob || (info || (kern || free))))))))
      ≡ (lower || stack || mods || glob || info || kern)
or_cases true seven one stack mods glob info kern free s o f = refl
or_cases false seven one stack mods glob info kern free s o f = ground arith

after_all :
    (k : Image) (m b1 b3 : Bitmap)
    → Fits k
    → (p : ℕ) → p < 2 ^ 18
    → is_alloced p b1 ≡ (covers k.kernel_start (k.kernel_end + 1) p || is_alloced p (all_free m))
    → is_alloced p b3 ≡ (
        in_modules k.modules p
        || is_alloced p
            (mark_used (k.modules_glob / page_size) (mark_used (k.mb_info / page_size) b1)))
    → is_alloced p (
        mark_for 0 0x100 (
          mark_for
            (k.bsp_stack / page_size)
            (stack_limit k - k.bsp_stack / page_size)
            (mark_used (trampoline / page_size) (mark_used (tmp_pagebuf / page_size) b3))))
      ≡ in_use k p
after_all k m b1 b3 f p lt h1 h3 =
    let first = k.bsp_stack / page_size in
    let low : spans 0 0x100 p ≡ ltb p 0x100 = ground arith in
    let stack : spans first (stack_limit k - first) p ≡ (leb first p && ltb p (stack_limit k)) =
      ap (λ n. leb first p && ltb p n) (omega (arith, f.stack, f.sizes)) in
    rw
      (
        mark_for-Marks 0 0x100
            (mark_for first (stack_limit k - first)
              (mark_used (trampoline / page_size) (mark_used (tmp_pagebuf / page_size) b3)))
            p,
        mark_for-Marks first (stack_limit k - first)
            (mark_used (trampoline / page_size) (mark_used (tmp_pagebuf / page_size) b3)) p,
        is_alloced-mark_used p (trampoline / page_size) (mark_used (tmp_pagebuf / page_size) b3),
        is_alloced-mark_used p (tmp_pagebuf / page_size) b3,
        h3,
        is_alloced-mark_used p (k.modules_glob / page_size) (mark_used (k.mb_info / page_size) b1),
        is_alloced-mark_used p (k.mb_info / page_size) b1,
        h1,
        low,
        stack,
      )
      (or_cases (ltb p 0x100) (p == trampoline / page_size) (p == tmp_pagebuf / page_size)
        (leb first p && ltb p (stack_limit k)) (in_modules k.modules p)
        (p == k.modules_glob / page_size) (p == k.mb_info / page_size)
        (covers k.kernel_start (k.kernel_end + 1) p) (is_alloced p (all_free m)) (λ e. ground arith)
        (λ e. ground arith) (all_free-free m p lt))

after_all-Behind :
    (k : Image) (m b1 b3 : Bitmap)
    → Fits k
    → Behind (all_free m) b1
    → Behind (mark_used (k.modules_glob / page_size) (mark_used (k.mb_info / page_size) b1)) b3
    → Behind m (
        mark_for 0 0x100 (
          mark_for
            (k.bsp_stack / page_size)
            (stack_limit k - k.bsp_stack / page_size)
            (mark_used (trampoline / page_size) (mark_used (tmp_pagebuf / page_size) b3))))
after_all-Behind k m b1 b3 f k1 k3 i behind =
    let first = k.bsp_stack / page_size in
    let b4 = mark_used (tmp_pagebuf / page_size) b3 in
    let b5 = mark_used (trampoline / page_size) b4 in
    let outside : ltb i 8192 ≡ false = ground arith in
    let kept : all_free m i ≡ m i = rw outside refl in
    mark_for-Behind 0 0x100 (mark_for first (stack_limit k - first) b5) (omega arith) i behind
    ∙ mark_for-Behind first (stack_limit k - first) b5 (omega (arith, f.limit, f.stack)) i behind
    ∙ mark_used-Behind (trampoline / page_size) b4 (omega arith) i behind
    ∙ mark_used-Behind (tmp_pagebuf / page_size) b3 (omega arith) i behind
    ∙ k3 i behind
    ∙ mark_used-Behind (k.modules_glob / page_size) (mark_used (k.mb_info / page_size) b1)
        (omega (arith, f.glob)) i behind
    ∙ mark_used-Behind (k.mb_info / page_size) b1 (omega (arith, f.info)) i behind
    ∙ k1 i behind
    ∙ kept

-- Where all that it marks lies in the first 2 ^ 18 pages, and with more than 2 ^ 21 rounds, `pmm_init` fills the bitmap. For
-- each of these pages `pmm_is_alloced_glob` then holds exactly if the page is in use: if it is one of the first
-- 256, of the loader's data behind `bsp_stack`, of a module, the page of `mb_info` or of `modules_glob`, or of the
-- kernel. What lies behind the array is not changed.
pub is_alloced-mark_image :
    (rounds : ℕ) (k : Image) (m : Bitmap)
    → 2 ^ 21 < rounds
    → Fits k
    → (b : Bitmap) × (mark_image rounds k m ≡ some b)
      × ((p : ℕ) → p < 2 ^ 18 → is_alloced p b ≡ in_use k p)
      × ((i : ℕ) → 8192 ≤ i → b i ≡ m i)
unfolding mark_image
is_alloced-mark_image rounds k m enough f =
    let (b1, e1, h1, k1) =
      mark_while-Marks rounds k.kernel_start (k.kernel_end + 1) (all_free m)
        (omega (arith, f.kernel)) (omega (arith, f.kernel)) in
    let b2 = mark_used (k.modules_glob / page_size) (mark_used (k.mb_info / page_size) b1) in
    let (b3, e3, h3, k3) = mark_modules-Marks rounds k.modules b2 (omega arith) f.modules in
    let limit : ltb (stack_limit k) (2 ^ 31) ≡ true = ground (arith, f.limit) in
    let first : ltb (k.bsp_stack / page_size) (2 ^ 31) ≡ true = ground (arith, f.stack) in
    (
      mark_for 0 0x100 (
          mark_for (k.bsp_stack / page_size) (stack_limit k - k.bsp_stack / page_size)
            (mark_used (trampoline / page_size) (mark_used (tmp_pagebuf / page_size) b3))),
      rw (e1, e3, limit, first) refl,
      (λ p lt. after_all k m b1 b3 f p lt (h1 p) (h3 p)),
      after_all-Behind k m b1 b3 f k1 k3,
    )
