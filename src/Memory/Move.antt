-- ===== src/Memory/Move.antt =====
-- `memcpy` and `memmove` against the copy of a block.
use lizarx.Prelude.{
  ℕ, zero, suc, ◌+◌, ◌-◌, ◌*◌, ◌/◌, ◌%◌, ◌≤◌, ◌≡◌, ◌∙◌, ap, ◌&&◌, ◌⊎◌, inl, inr, ltb, leb, ◌==◌,
  if◌then◌else◌, arith, Bool-cases,
}
use lizarx.Memory.{Memory, store, memcpy, copy_long, move_longs, move_bytes, memmove}

-- The byte that belongs to address `k` after the block of `n` bytes at `src` in `m` was copied to `dest`.
abbrev pub copied : ℕ → ℕ → ℕ → Memory → Memory
copied n dest src m k = if leb dest k && ltb k (dest + n) then m (src + (k - dest)) else m k

pub memcpy-copied :
    (n dest src : ℕ) (m : Memory) (k : ℕ)
    → (dest ≤ src) ⊎ (src + n ≤ dest)
    → memcpy n dest src m k ≡ copied n dest src m k
unfolding memcpy
memcpy-copied zero dest src m k h = ground arith
memcpy-copied (suc n) dest src m k h =
    memcpy-copied n (dest + 1) (src + 1) (store m dest (m src)) k (ground arith) ∙ step
  where
    step : copied n (dest + 1) (src + 1) (store m dest (m src)) k ≡ copied (suc n) dest src m k
    step = ground arith

move_bytes-copied :
    (n dest src : ℕ) (m : Memory) (k : ℕ)
    → src ≤ dest
    → move_bytes n dest src m k ≡ copied n dest src m k
unfolding move_bytes
move_bytes-copied zero dest src m k h = ground arith
move_bytes-copied (suc n) dest src m k h =
    move_bytes-copied n dest src (store m (dest + n) (m (src + n))) k h ∙ step
  where
    step : copied n dest src (store m (dest + n) (m (src + n))) k ≡ copied (suc n) dest src m k
    step = ground arith

copy_long-copied :
    (n dest src : ℕ) (m : Memory) (k : ℕ)
    → src ≤ dest
    → copied (8 * n) dest src (copy_long dest src n m) k ≡ copied (8 * suc n) dest src m k
copy_long-copied n dest src m k h = ground arith

move_longs-copied :
    (n dest src : ℕ) (m : Memory) (k : ℕ)
    → src ≤ dest
    → move_longs n dest src m k ≡ copied (8 * n) dest src m k
unfolding move_longs
move_longs-copied zero dest src m k h = ground arith
move_longs-copied (suc n) dest src m k h =
    move_longs-copied n dest src (copy_long dest src n m) k h ∙ copy_long-copied n dest src m k h

-- `memmove` copies the block as it was before the call, also where the two blocks overlap, and changes nothing else.
pub memmove-copied :
    (dest src len : ℕ) (m : Memory) (k : ℕ) → memmove dest src len m k ≡ copied len dest src m k
unfolding memmove
memmove-copied dest src len m k = elim (Bool-cases (ltb dest src)) [
  | inl below ↦ rw below (memcpy-copied len dest src m k (inl (ground arith)))
  | inr above ↦ elim (Bool-cases (dest % 8 == 0 && src % 8 == 0 && len % 8 == 0)) [
    | inl whole ↦
        let e : 8 * (len / 8) ≡ len = ground arith in
        rw (above, whole)
          (move_longs-copied (len / 8) dest src m k (ground arith)
            ∙ ap (λ n. copied n dest src m k) e)
    | inr part ↦ rw (above, part) (move_bytes-copied len dest src m k (ground arith))
  ]
]
