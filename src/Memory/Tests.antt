-- ===== src/Memory/Tests.antt =====
-- Runs of the block functions, and their theorems at overlapping blocks and odd lengths.
use lizarx.Prelude.{arith, [], ◌∷◌, ◌≡◌, refl, ◌==◌, if◌then◌else◌, some}
use lizarx.Prelude.Int.{ℤ, negsuc}
use lizarx.Memory.{Memory, memcpy, memmove, memset}
use lizarx.Memory.Strings.{strlen, strcmp, Compared, strcmp-Compared}
use lizarx.Memory.Move.{memmove-copied}

-- Every address holds itself.
abbrev identity : Memory
identity k = k

move_up : (memmove 102 100 6 identity 107 ≡ 105) × (memcpy 6 102 100 identity 107 ≡ 101)
unfolding memmove memcpy
move_up = (refl, refl)

move_longs_up : (memmove 104 96 16 identity 119 ≡ 111) × (memmove 104 96 16 identity 120 ≡ 120)
unfolding memmove
move_longs_up = (refl, refl)

-- Six bytes from 200 on: 204 and 205 keep their values, and 208 to 211 are overwritten.
set_six :
    (memset 200 0x04030201 6 identity 203 ≡ 4)
    × (memset 200 0x04030201 6 identity 204 ≡ 204)
    × (memset 200 0x04030201 6 identity 208 ≡ 1)
    × (memset 200 0x04030201 6 identity 210 ≡ 0)
unfolding memset
set_six = (refl, refl, refl, refl)

memmove-copied_example : memmove 102 100 6 identity 107 ≡ 105
memmove-copied_example = memmove-copied 102 100 6 identity 107

-- "ab" at 10 and "ac" at 20.
abbrev letters : Memory
letters k =
    if k == 10
    then b'a'
    else if k == 11
    then b'b'
    else if k == 20
    then b'a'
    else if k == 21
    then b'c'
    else 0

lengths : strlen 4 10 letters ≡ some 2
unfolding strlen
lengths = refl

before : strcmp 4 10 20 letters ≡ some (negsuc 0)
unfolding strcmp
before = refl

strcmp-Compared_example :
    (d : ℤ) × (strcmp 4 10 20 letters ≡ some d) × Compared (b'a' ∷ b'b' ∷ []) (b'a' ∷ b'c' ∷ []) d
strcmp-Compared_example =
    strcmp-Compared 4 10 20 letters (b'a' ∷ b'b' ∷ []) (b'a' ∷ b'c' ∷ [])
      (refl, omega arith, (refl, omega arith, refl)) (refl, omega arith, (refl, omega arith, refl))
      (omega arith)
