-- ===== src/Console/Itoa.antt =====
-- src/kernel/lib/stdlib.c: `itoa` writes the digits of a number from the end of a buffer.
pub mod Value
use lizarx.Prelude.{
  ℕ, zero, suc, ◌+◌, ◌-◌, ◌/◌, ◌%◌, Option, none, some, List, [], ◌∷◌, ltb, if◌then◌else◌,
}

-- `new_str[15]` down to `new_str[0]`.
abbrev pub buffer_size : ℕ
buffer_size = 16

-- The character of a digit.
unfoldable pub digit_char : ℕ → ℕ
digit_char d = if ltb d 10 then d + b'0' else d - 10 + b'a'

-- The loop with `room` characters of the buffer left; `acc` is what stands behind them. `none` is the
-- write in front of the buffer, where `i` wraps round.
unfoldable pub itoa_loop : ℕ → ℕ → ℕ → List ℕ → Option (List ℕ)
unfolding digit_char
itoa_loop zero n base acc = none
itoa_loop (suc room) n base acc =
    let rest = itoa_loop room (n / base) base (digit_char (n % base) ∷ acc) in
    if ltb 0 (n / base) then rest else some (digit_char (n % base) ∷ acc)

-- `itoa`: the characters of the string up to the final NUL.
unfoldable pub itoa : ℕ → ℕ → Option (List ℕ)
unfolding itoa_loop
itoa n base = itoa_loop buffer_size n base []
