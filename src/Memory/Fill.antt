-- ===== src/Memory/Fill.antt =====
-- `memset` where the length is a multiple of four, and where it is not.
use lizarx.Prelude.{
  ℕ, zero, suc, ◌+◌, ◌-◌, ◌*◌, ◌/◌, ◌%◌, ◌^◌, ◌<◌, ◌≡◌, ◌≢◌, refl, ◌∙◌, ◌&&◌, inl, inr, ltb, leb,
  ◌==◌, if◌then◌else◌, arith, Bool-cases,
}
use lizarx.Memory.{Memory, byte, store_word, set_words, memset}

-- `n` words of `val` from `ptr` on.
abbrev pub filled : ℕ → ℕ → ℕ → Memory → Memory
filled n ptr val m k = if leb ptr k && ltb k (ptr + 4 * n) then byte val ((k - ptr) % 4) else m k

store_word-filled :
    (n ptr val : ℕ) (m : Memory) (k : ℕ)
    → filled n (ptr + 4) val (store_word m ptr val) k ≡ filled (suc n) ptr val m k
store_word-filled n ptr val m k = ground arith

set_words-filled :
    (n ptr val i : ℕ) (m : Memory) (k : ℕ)
    → set_words n ptr val i m k ≡ filled n (ptr + 4 * i) val m k
unfolding set_words
set_words-filled zero ptr val i m k = ground arith
set_words-filled (suc n) ptr val i m k =
    let e : ptr + 4 * (i + 1) ≡ ptr + 4 * i + 4 = omega arith in
    set_words-filled n ptr val (i + 1) (store_word m (ptr + 4 * i) val) k
    ∙ rw e (store_word-filled n (ptr + 4 * i) val m k)

-- For a length that is a multiple of four `memset` repeats the four bytes of the value over exactly the block.
pub memset-filled :
    (ptr val len : ℕ) (m : Memory) (k : ℕ)
    → len % 4 ≡ 0
    → memset ptr val len m k
      ≡ (if leb ptr k && ltb k (ptr + len) then byte val ((k - ptr) % 4) else m k)
unfolding memset
memset-filled ptr val len m k h =
    let four : 4 * (len / 4) ≡ len = omega arith in
    let at : ptr + 4 * 0 ≡ ptr = omega arith in
    rw h (set_words-filled (len / 4) ptr val 0 m k ∙ rw (at, four) refl)

-- For any other length `memset` fills the whole words of the block, leaves the bytes of the block behind them as they were, and
-- overwrites the four bytes from the next word on, which lie behind the block, with the rest of the value.
pub memset-partial :
    (ptr val len : ℕ) (m : Memory) (k : ℕ)
    → len % 4 ≢ 0
    → let next = ptr + 4 * (len / 4) + 4 in
      (ptr + len < next)
      × (memset ptr val len m k ≡ (
          if leb next k && ltb k (next + 4)
          then byte (val % 256 ^ (len % 4)) (k - next)
          else filled (len / 4) ptr val m k))
unfolding memset
memset-partial ptr val len m k h = elim (Bool-cases (len % 4 == 0)) [
  | inl zero_rest ↦ absurd (h (ground arith))
  | inr rest ↦
      let next : ptr + 4 * (len / 4 + 1) ≡ ptr + 4 * (len / 4) + 4 = omega arith in
      let at : ptr + 4 * 0 ≡ ptr = omega arith in
      (omega arith, rw (rest, next) (rw (set_words-filled (len / 4) ptr val 0 m k, at) refl))
]
