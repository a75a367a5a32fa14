-- ===== src/Prelude/Bits.antt =====
-- The bits of a number under `bit_and`: a single bit, and all bits but one.
use Prim.Native.Nat.{
  ℕ, zero, suc, ◌+◌, ◌-◌, ◌*◌, ◌/◌, ◌%◌, ◌^◌, ◌≤◌, ◌<◌, min, bit_and, digits, bit_and-bitwise,
}
use Prim.Native.Nat.pow
use mathlib.Core.Path.{◌≡◌, refl, sym, ap, ◌∙◌}
use mathlib.Core.Logic.{◌≢◌}
use native.Mathlib.Omega.{arith}

-- The digits in base 2, from the lowest: any fuel from the first number on gives the same.
enough_digits :
    (x y : ℕ) (f g : ℕ)
    → x ≤ f
    → x ≤ g
    → digits (λ b. zero) min f x y ≡ digits (λ b. zero) min g x y
enough_digits zero y zero zero p q = refl
enough_digits zero y zero (suc g) p q = refl
enough_digits zero y (suc f) zero p q = refl
enough_digits zero y (suc f) (suc g) p q = refl
enough_digits (suc x) y zero g p q = absurd (omega arith)
enough_digits (suc x) y (suc f) zero p q = absurd (omega arith)
enough_digits (suc x) y (suc f) (suc g) p q =
    omega (arith, enough_digits (suc x / 2) (y / 2) f g (omega arith) (omega arith))

-- The lowest bit, and the others.
pub bit_and-halves : (x y : ℕ) → bit_and x y ≡ bit_and (x / 2) (y / 2) * 2 + min (x % 2) (y % 2)
bit_and-halves zero y = omega (arith, bit_and-bitwise 0 y, bit_and-bitwise 0 (y / 2))
bit_and-halves (suc x) y = omega (
  arith,
  bit_and-bitwise (suc x) y,
  bit_and-bitwise (suc x / 2) (y / 2),
  enough_digits (suc x / 2) (y / 2) x (suc x / 2) (omega arith) (omega arith),
)

bit_and-none : (fuel x : ℕ) → x ≤ fuel → bit_and x 0 ≡ 0
bit_and-none fuel zero h = bit_and-bitwise 0 0
bit_and-none zero (suc x) h = absurd (omega arith)
bit_and-none (suc fuel) (suc x) h =
    omega (arith, bit_and-halves (suc x) 0, bit_and-none fuel (suc x / 2) (omega arith))

bit_and-lowest : (x : ℕ) → bit_and x (2 ^ 0) ≡ x % 2
bit_and-lowest x = omega (arith, bit_and-halves x 1, bit_and-none (x / 2) (x / 2) (omega arith))

double : (k : ℕ) → 2 ^ suc k ≡ 2 ^ k * 2
double k = pow.suc 2 k

bit_and-higher : (x k : ℕ) → bit_and x (2 ^ suc k) ≡ bit_and (x / 2) (2 ^ k) * 2
bit_and-higher x k =
    let h : 2 ^ suc k / 2 ≡ 2 ^ k = omega (arith, double k) in
    omega (arith, bit_and-halves x (2 ^ suc k), double k, ap (bit_and (x / 2)) h)

pow_below : (j n : ℕ) → j < n → 2 ^ j * 2 ≤ 2 ^ n
pow_below j zero lt = absurd (omega arith)
pow_below zero (suc n) lt = omega (arith, double n, pow_pos n)
  where
    pow_pos : (n : ℕ) → 1 ≤ 2 ^ n
    pow_pos zero = omega arith
    pow_pos (suc n) = omega (arith, double n, pow_pos n)
pow_below (suc j) (suc n) lt = omega (arith, double n, double j, pow_below j n (omega arith))

-- A bit but the lowest, under a mask.
masked-higher :
    (x mask rest k : ℕ)
    → mask / 2 ≡ rest
    → bit_and (bit_and x mask) (2 ^ suc k) ≡ bit_and (bit_and (x / 2) rest) (2 ^ k) * 2
masked-higher x mask rest k e =
    let h : bit_and x mask / 2 ≡ bit_and (x / 2) rest =
      omega (arith, bit_and-halves x mask, ap (bit_and (x / 2)) e) in
    bit_and-higher (bit_and x mask) k ∙ ap (λ y. bit_and y (2 ^ k) * 2) h

-- The lowest bit under a mask.
masked-lowest : (x mask : ℕ) → bit_and (bit_and x mask) (2 ^ 0) ≡ min (x % 2) (mask % 2)
masked-lowest x mask = omega (arith, bit_and-lowest (bit_and x mask), bit_and-halves x mask)

-- All bits of a word of `n` bits are kept by a mask of `n` ones.
bit_and-ones : (n k x : ℕ) → k < n → bit_and (bit_and x (2 ^ n - 1)) (2 ^ k) ≡ bit_and x (2 ^ k)
bit_and-ones zero k x lt = absurd (omega arith)
bit_and-ones (suc n) zero x lt =
    omega
      (arith, masked-lowest x (2 ^ suc n - 1), bit_and-lowest x, double n, pow_below 0 (suc n) lt)
bit_and-ones (suc n) (suc k) x lt =
    masked-higher x (2 ^ suc n - 1) (2 ^ n - 1) k (omega (arith, double n))
    ∙ ap (λ y. y * 2) (bit_and-ones n k (x / 2) (omega arith))
    ∙ sym (bit_and-higher x k)

-- `~(1 << j)` in a word of `n` bits clears the bit `j`,
pub bit_and-cleared : (n j x : ℕ) → j < n → bit_and (bit_and x (2 ^ n - 1 - 2 ^ j)) (2 ^ j) ≡ 0
bit_and-cleared zero j x lt = absurd (omega arith)
bit_and-cleared (suc n) zero x lt =
    omega (arith, masked-lowest x (2 ^ suc n - 1 - 1), double n, pow_below 0 (suc n) lt)
bit_and-cleared (suc n) (suc j) x lt =
    masked-higher x (2 ^ suc n - 1 - 2 ^ suc j) (2 ^ n - 1 - 2 ^ j) j
      (omega (arith, double n, double j, pow_below j n (omega arith)))
    ∙ ap (λ y. y * 2) (bit_and-cleared n j (x / 2) (omega arith))

-- and keeps the other bits.
pub bit_and-kept :
    (n j k x : ℕ)
    → j < n
    → k < n
    → j ≢ k
    → bit_and (bit_and x (2 ^ n - 1 - 2 ^ j)) (2 ^ k) ≡ bit_and x (2 ^ k)
bit_and-kept zero j k x lt lt' ne = absurd (omega arith)
bit_and-kept (suc n) zero zero x lt lt' ne = absurd (ne refl)
bit_and-kept (suc n) zero (suc k) x lt lt' ne =
    masked-higher x (2 ^ suc n - 1 - 1) (2 ^ n - 1) k
      (omega (arith, double n, pow_below 0 (suc n) lt))
    ∙ ap (λ y. y * 2) (bit_and-ones n k (x / 2) (omega arith))
    ∙ sym (bit_and-higher x k)
bit_and-kept (suc n) (suc j) zero x lt lt' ne = omega (
  arith,
  masked-lowest x (2 ^ suc n - 1 - 2 ^ suc j),
  bit_and-lowest x,
  double n,
  double j,
  pow_below j n (omega arith),
  pow_below 0 (suc n) (omega arith),
)
bit_and-kept (suc n) (suc j) (suc k) x lt lt' ne =
    masked-higher x (2 ^ suc n - 1 - 2 ^ suc j) (2 ^ n - 1 - 2 ^ j) k
      (omega (arith, double n, double j, pow_below j n (omega arith)))
    ∙ ap (λ y. y * 2) (bit_and-kept n j k (x / 2) (omega arith) (omega arith) (omega arith))
    ∙ sym (bit_and-higher x k)
