-- ===== src/Console/Itoa/Value.antt =====
-- The digits that `itoa` writes stand for the number.
use lizarx.Prelude.{
  ℕ, zero, suc, ◌+◌, ◌-◌, ◌*◌, ◌/◌, ◌%◌, ◌^◌, ◌≤◌, ◌<◌, ◌≡◌, refl, ◌∙◌, none, some, List, [], ◌∷◌,
  ltb, if◌then◌else◌, arith, Bool-cases, inl, inr, ap,
}
use native.Mathlib.Nat.{pow-suc, pow-zero, one-le-pow}
use lizarx.Console.Itoa.{digit_char, itoa_loop, itoa}

-- The digit of a character.
abbrev pub char_digit : ℕ → ℕ
char_digit c = if ltb c b'a' then c - b'0' else c - b'a' + 10

-- The number that the digits stand for, behind the number `n`.
abbrev pub value : ℕ → List ℕ → ℕ → ℕ
value base [] n = n
value base (c ∷ cs) n = value base cs (n * base + char_digit c)

char_digit-digit_char : (d : ℕ) → d < 36 → char_digit (digit_char d) ≡ d
unfolding digit_char
char_digit-digit_char d h = ground arith

digits_of : (n base : ℕ) → 2 ≤ base → n / base * base + n % base ≡ n
digits_of n base h = grind arith

itoa_loop-value :
    (room n base : ℕ) (acc s : List ℕ)
    → 2 ≤ base
    → base ≤ 36
    → itoa_loop room n base acc ≡ some s
    → value base s 0 ≡ value base acc n
unfolding itoa_loop
itoa_loop-value zero n base acc s lo hi e = absurd (ground arith)
itoa_loop-value (suc room) n base acc s lo hi e = elim (Bool-cases (ltb 0 (n / base))) [
  | inl more ↦
      itoa_loop-value room (n / base) base (digit_char (n % base) ∷ acc) s lo hi (rw more at e)
      ∙ ap (value base acc) last
  | inr done ↦ written (ground arith) (rw done at e)
]
  where
    last : n / base * base + char_digit (digit_char (n % base)) ≡ n
    last = rw (char_digit-digit_char (n % base) (omega arith)) (digits_of n base lo)

    written :
        n / base ≡ 0
        → some (digit_char (n % base) ∷ acc) ≡ some s
        → value base s 0 ≡ value base acc n
    written q w =
        let same : digit_char (n % base) ∷ acc ≡ s = cc in
        rw (← same) (ap (value base acc) (rw q at last))

div_lt : (n base p : ℕ) → 2 ≤ base → n < p * base → n / base < p
div_lt n base p lo h = grind arith

div_small : (n base : ℕ) → 2 ≤ base → n < base ^ 0 * base → n / base ≡ 0
div_small n base lo h = let e : base ^ 0 ≡ 1 = pow-zero base in grind arith

itoa_loop-some :
    (room n base : ℕ) (acc : List ℕ)
    → 2 ≤ base
    → n < base ^ suc room
    → (s : List ℕ) × (itoa_loop (suc room) n base acc ≡ some s)
unfolding itoa_loop
itoa_loop-some zero n base acc lo h =
    let small : n / base ≡ 0 = div_small n base lo (rw pow-suc at h) in
    (digit_char (n % base) ∷ acc, rw small)
itoa_loop-some (suc room) n base acc lo h = elim (Bool-cases (ltb 0 (n / base))) [
  | inl more ↦ rw more (
      itoa_loop-some room (n / base) base (digit_char (n % base) ∷ acc) lo
        (div_lt n base (base ^ suc room) lo (rw pow-suc at h)))
  | inr done ↦ (digit_char (n % base) ∷ acc, rw done)
]

le_div : (n base p : ℕ) → 2 ≤ base → p * base ≤ n → p ≤ n / base
le_div n base p lo h = grind arith

pow_pos : (base k : ℕ) → 2 ≤ base → 1 ≤ base ^ k
pow_pos base k lo = one-le-pow k base (omega arith)

itoa_loop-none :
    (room n base : ℕ) (acc : List ℕ) → 2 ≤ base → base ^ room ≤ n → itoa_loop room n base acc ≡ none
unfolding itoa_loop
itoa_loop-none zero n base acc lo h = refl
itoa_loop-none (suc room) n base acc lo h =
    let big : base ^ room ≤ n / base = le_div n base (base ^ room) lo (rw pow-suc at h) in
    ground (
      arith,
      pow_pos base room lo,
      itoa_loop-none room (n / base) base (digit_char (n % base) ∷ acc) lo big,
    )

pub itoa-value :
    (n base : ℕ)
    → 2 ≤ base
    → base ≤ 36
    → n < base ^ 16
    → (s : List ℕ) × (itoa n base ≡ some s) × (value base s 0 ≡ n)
unfolding itoa
itoa-value n base lo hi h =
    let (s, e) = itoa_loop-some 15 n base [] lo h in (s, e, itoa_loop-value 16 n base [] s lo hi e)

-- For a number of more than sixteen digits `itoa` writes in front of its buffer.
pub itoa-overflow : (n base : ℕ) → 2 ≤ base → base ^ 16 ≤ n → itoa n base ≡ none
unfolding itoa
itoa-overflow n base lo h = itoa_loop-none 16 n base [] lo h
