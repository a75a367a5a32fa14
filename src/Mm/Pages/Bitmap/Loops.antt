-- ===== src/Mm/Pages/Bitmap/Loops.antt =====
-- What the loops of `pmm_init` that mark pages do to the bitmap.
use Prim.Native.Nat.{bit_and}
use lizarx.Prelude.{
  ℕ, zero, suc, ◌+◌, ◌-◌, ◌*◌, ◌/◌, ◌%◌, ◌^◌, ◌≤◌, ◌<◌, ◌≡◌, ◌≢◌, refl, ap, sym, ◌∙◌, Bool, true,
  false, ◌&&◌, ◌||◌, Option, some, List, [], ◌∷◌, ltb, leb, ◌==◌, set, set-same, set-other, arith,
  ℕ_discrete, Bool-cases, ltb→lt, inl, inr,
}
use mathlib.Core.Bool.{or_assoc}
use lizarx.Prelude.Bits.{bit_and-cleared, bit_and-kept}
use lizarx.Mm.Pages.{page_size}
use lizarx.Mm.Pages.Bitmap.{
  Bitmap, mark_used, is_alloced, mark_while, mark_for, Module, mark_modules,
}

-- A page that is marked is in use, and the others are as they were.
pub is_alloced-mark_used :
    (p q : ℕ) (b : Bitmap) → is_alloced p (mark_used q b) ≡ ((p == q) || is_alloced p b)
unfolding is_alloced mark_used
is_alloced-mark_used p q b = elim (ℕ_discrete p q) [
  | yes same ↦
      let e : (p == q) ≡ true = ground arith in
      rw
        (
          e,
          same,
          set-same b (q / 32) (bit_and (b (q / 32)) (2 ^ 32 - 1 - 2 ^ (q % 32))),
          bit_and-cleared 32 (q % 32) (b (q / 32)) (omega arith),
        )
        refl
  | no ne ↦
      let e : (p == q) ≡ false = ground arith in rw e (other ne (ℕ_discrete (p / 32) (q / 32)))
]
  where
    other :
        p ≢ q
        → Dec (p / 32 ≡ q / 32)
        → (bit_and
              (set b (q / 32) (bit_and (b (q / 32)) (2 ^ 32 - 1 - 2 ^ (q % 32))) (p / 32))
              (2 ^ (p % 32))
            == 0)
          ≡ (bit_and (b (p / 32)) (2 ^ (p % 32)) == 0)
    other ne (yes word) =
        rw
          (
            word,
            set-same b (q / 32) (bit_and (b (q / 32)) (2 ^ 32 - 1 - 2 ^ (q % 32))),
            bit_and-kept 32 (q % 32) (p % 32) (b (q / 32)) (omega arith) (omega arith)
                (λ e. ne (omega (arith, word, e))),
          )
          refl
    other ne (no differ) =
        rw (set-other b (q / 32) (bit_and (b (q / 32)) (2 ^ 32 - 1 - 2 ^ (q % 32))) (p / 32) differ)
          refl

-- The pages that a loop from `addr` on marks.
abbrev pub covers : ℕ → ℕ → ℕ → Bool
covers addr end p = leb (addr / page_size) p && ltb (p * page_size + addr % page_size) end

covers-next :
    (addr end p : ℕ)
    → addr < end
    → covers addr end p ≡ (covers (addr + page_size) end p || (p == addr / page_size))
covers-next addr end p lt = ground arith

covers-done : (addr end p : ℕ) → end ≤ addr → covers addr end p ≡ false
covers-done addr end p le = ground arith

-- The words behind the array are as they were.
abbrev pub Behind : Bitmap → Bitmap → Type 0
Behind b b' = (i : ℕ) → 8192 ≤ i → b' i ≡ b i

pub mark_used-Behind : (page : ℕ) (b : Bitmap) → page < 2 ^ 18 → Behind b (mark_used page b)
unfolding mark_used
mark_used-Behind page b small i behind =
    set-other b (page / 32) (bit_and (b (page / 32)) (2 ^ 32 - 1 - 2 ^ (page % 32))) i (omega arith)

-- The marks that a loop makes.
abbrev pub Marks : (ℕ → Bool) → Bitmap → Option Bitmap → Type 0
Marks used b r =
    (b' : Bitmap) × (r ≡ some b')
    × ((p : ℕ) → is_alloced p b' ≡ (used p || is_alloced p b))
    × Behind b b'

mark_while-more :
    (rounds addr end : ℕ) (b : Bitmap)
    → ltb addr end ≡ true
    → mark_while (suc rounds) addr end b
      ≡ mark_while rounds ((addr + page_size) % 2 ^ 64) end (mark_used (addr / page_size) b)
unfolding mark_while
mark_while-more rounds addr end b more = rw (more, mark_while) refl

mark_while-done :
    (rounds addr end : ℕ) (b : Bitmap)
    → ltb addr end ≡ false
    → mark_while (suc rounds) addr end b ≡ some b
unfolding mark_while
mark_while-done rounds addr end b done = rw (done, mark_while) refl

pub mark_while-Marks :
    (rounds addr end : ℕ) (b : Bitmap)
    → (end - addr + (page_size - 1)) / page_size < rounds
    → end ≤ 2 ^ 30
    → Marks (covers addr end) b (mark_while rounds addr end b)
mark_while-Marks zero addr end b enough fits = absurd (omega arith)
mark_while-Marks (suc rounds) addr end b enough fits = elim (Bool-cases (ltb addr end)) [
  | inl more ↦
      let lt : addr < end = ltb→lt addr end more in
      let word : (addr + page_size) % 2 ^ 64 ≡ addr + page_size = omega arith in
      let (b', e, h, k) =
        mark_while-Marks rounds (addr + page_size) end (mark_used (addr / page_size) b)
          (omega arith) fits in
      (
        b',
        mark_while-more rounds addr end b more
            ∙ ap (λ a. mark_while rounds a end (mark_used (addr / page_size) b)) word
            ∙ e,
        λ p.
            h p
            ∙ ap (λ x. covers (addr + page_size) end p || x)
                (is_alloced-mark_used p (addr / page_size) b)
            ∙ sym (
                or_assoc (covers (addr + page_size) end p) (p == addr / page_size) (is_alloced p b))
            ∙ ap (λ x. x || is_alloced p b) (sym (covers-next addr end p lt)),
        λ i behind. k i behind ∙ mark_used-Behind (addr / page_size) b (omega arith) i behind,
      )
  | inr done ↦
      let le : end ≤ addr = ground arith in
      (
        b,
        mark_while-done rounds addr end b done,
        λ p. ap (λ x. x || is_alloced p b) (sym (covers-done addr end p le)),
        λ i behind. refl,
      )
]

-- The pages from `first` on that a counted loop marks.
abbrev pub spans : ℕ → ℕ → ℕ → Bool
spans first n p = leb first p && ltb p (first + n)

pub mark_for-Marks :
    (first n : ℕ) (b : Bitmap) (p : ℕ)
    → is_alloced p (mark_for first n b) ≡ (spans first n p || is_alloced p b)
unfolding mark_for
mark_for-Marks first zero b p = let e : spans first 0 p ≡ false = ground arith in rw e refl
mark_for-Marks first (suc n) b p =
    let e : spans first (suc n) p ≡ (spans (first + 1) n p || (p == first)) = ground arith in
    mark_for-Marks (first + 1) n (mark_used first b) p
    ∙ ap (λ x. spans (first + 1) n p || x) (is_alloced-mark_used p first b)
    ∙ sym (or_assoc (spans (first + 1) n p) (p == first) (is_alloced p b))
    ∙ ap (λ x. x || is_alloced p b) (sym e)

pub mark_for-Behind :
    (first n : ℕ) (b : Bitmap) → first + n ≤ 2 ^ 18 → Behind b (mark_for first n b)
unfolding mark_for
mark_for-Behind first zero b small i behind = refl
mark_for-Behind first (suc n) b small i behind =
    mark_for-Behind (first + 1) n (mark_used first b) (omega arith) i behind
    ∙ mark_used-Behind first b (omega arith) i behind

-- The pages of the modules.
abbrev pub in_modules : List Module → ℕ → Bool
in_modules [] p = false
in_modules (m ∷ ms) p = in_modules ms p || covers m.mod_start m.mod_end p

-- The modules lie in the first 2 ^ 18 pages.
abbrev pub Below : List Module → Type 0
Below [] = Unit
Below (m ∷ ms) = (m.mod_end ≤ 2 ^ 30) × Below ms

pub mark_modules-Marks :
    (rounds : ℕ) (ms : List Module) (b : Bitmap)
    → 2 ^ 20 < rounds
    → Below ms
    → Marks (in_modules ms) b (mark_modules rounds ms b)
unfolding mark_modules
mark_modules-Marks rounds [] b enough below = (b, refl, (λ p. refl), λ i behind. refl)
mark_modules-Marks rounds (m ∷ ms) b enough below =
    let (b1, e1, h1, k1) =
      mark_while-Marks rounds m.mod_start m.mod_end b (omega (arith, below.0))
        (omega (arith, below.0)) in
    let (b2, e2, h2, k2) = mark_modules-Marks rounds ms b1 enough below.1 in
    (
      b2,
      rw (e1, e2) refl,
      λ p.
          h2 p
          ∙ ap (λ x. in_modules ms p || x) (h1 p)
          ∙ sym (or_assoc (in_modules ms p) (covers m.mod_start m.mod_end p) (is_alloced p b)),
      λ i behind. k2 i behind ∙ k1 i behind,
    )
