-- ===== src/Mm/FreeStack/Short.antt =====
-- `uvmm_find_freemem` where no range of the stack is wide enough.
use lizarx.Prelude.{ℕ, zero, suc, ◌+◌, ◌-◌, ◌≤◌, ◌<◌, ◌≡◌, arith, dec_le}
use lizarx.Mm.FreeStack.{Entry, Context, width, scan, take_found, find_freemem, Live}

-- Where no entry is wide enough, the one below the array included, nothing is found.
scan-miss :
    (stack : ℕ → Entry) (base pages cur free : ℕ)
    → ((k : ℕ) → base ≤ k + 1 → k < cur → width (stack k) < pages)
    → free < pages
    → (scan stack base pages cur free).1 < pages
unfolding scan
scan-miss stack base pages zero free small f = f
scan-miss stack base pages (suc cur) free small f = elim (dec_le base (suc cur)) [
  | yes p ↦ ground (
    arith,
    small cur,
    scan-miss stack base pages cur (width (stack cur)) (λ k b lt. small k b (omega arith)),
  )
  | no p ↦ ground arith
]

-- Where neither a range of the stack nor the entry below it is wide enough for the block, which is not empty,
-- `uvmm_find_freemem` returns 0 and changes nothing.
pub find_freemem-none :
    (c : Context) (pages : ℕ)
    → 0 < pages
    → ((k : ℕ) → c.base ≤ k + 1 → k < c.ptr → width (c.stack k) < pages)
    → find_freemem c pages ≡ (0, c)
unfolding find_freemem
find_freemem-none c pages p small = ground (arith, scan-miss c.stack c.base pages c.ptr 0 small p)

scan-below :
    (stack : ℕ → Entry) (base pages cur free : ℕ)
    → 0 < base
    → base ≤ cur
    → ((k : ℕ) → base ≤ k → k < cur → width (stack k) < pages)
    → pages ≤ width (stack (base - 1))
    → scan stack base pages cur free ≡ (base - 1, width (stack (base - 1)))
unfolding scan
scan-below stack base pages zero free p b small fit = absurd (omega arith)
scan-below stack base pages (suc cur) free p b small fit = elim (dec_le base cur) [
  | yes more ↦ ground (
    arith,
    small cur,
    scan-below stack base pages cur (width (stack cur)) p more (λ k b lt. small k b (omega arith))
        fit,
  )
  | no last ↦ let e : cur ≡ base - 1 = omega arith in rw e (ground arith)
]

-- Where no range of the stack is wide enough for the block and the entry below the array is, `uvmm_find_freemem`
-- returns the start of the entry below the array.
pub find_freemem-below :
    (c : Context) (pages : ℕ)
    → 0 < c.base
    → c.base ≤ c.ptr
    → ((k : ℕ) → Live c k → width (c.stack k) < pages)
    → pages ≤ width (c.stack (c.base - 1))
    → (find_freemem c pages).0 ≡ (c.stack (c.base - 1)).start
unfolding find_freemem
find_freemem-below c pages p b small fit =
    rw (scan-below c.stack c.base pages c.ptr 0 p b (λ k lo hi. small k (lo, hi)) fit, take_found)
      (ground arith)
