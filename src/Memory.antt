-- ===== src/Memory.antt =====
-- src/kernel/lib/string.c: the functions on blocks of bytes, and in Memory.Strings those on strings.
-- An address is a number; blocks do not reach past the end of the address space, where the pointers
-- of the source would wrap.
pub mod Move
pub mod Fill
pub mod Strings
mod Tests
use lizarx.Prelude.{ℕ, zero, suc, ◌+◌, ◌-◌, ◌*◌, ◌/◌, ◌%◌, ◌^◌, ◌&&◌, ltb, leb, ◌==◌, if◌then◌else◌}

abbrev pub Memory : Type 0
Memory = ℕ → ℕ

abbrev pub store : Memory → ℕ → ℕ → Memory
store m a v k = if k == a then v else m k

-- `memcpy`: the loop with `n` bytes left.
unfoldable pub memcpy : ℕ → ℕ → ℕ → Memory → Memory
memcpy zero dest src m = m
memcpy (suc n) dest src m = memcpy n (dest + 1) (src + 1) (store m dest (m src))

-- `sizeof(long)`
abbrev pub long_size : ℕ
long_size = 8

-- `d[i] = s[i]` for two pointers to `long`.
abbrev pub copy_long : ℕ → ℕ → ℕ → Memory → Memory
copy_long dest src i m k =
    if leb (dest + long_size * i) k && ltb k (dest + long_size * i + long_size)
    then m (src + long_size * i + (k - (dest + long_size * i)))
    else m k

-- The loops of `memmove` that copy back to front, by words and by bytes.
unfoldable pub move_longs : ℕ → ℕ → ℕ → Memory → Memory
move_longs zero dest src m = m
move_longs (suc i) dest src m = move_longs i dest src (copy_long dest src i m)

unfoldable pub move_bytes : ℕ → ℕ → ℕ → Memory → Memory
move_bytes zero dest src m = m
move_bytes (suc i) dest src m = move_bytes i dest src (store m (dest + i) (m (src + i)))

unfoldable pub memmove : ℕ → ℕ → ℕ → Memory → Memory
unfolding memcpy move_longs move_bytes
memmove dest src len m =
    if ltb dest src
    then memcpy len dest src m
    else if dest % long_size == 0 && src % long_size == 0 && len % long_size == 0
    then move_longs (len / long_size) dest src m
    else move_bytes len dest src m

-- The byte `j` of a word, the lowest first.
abbrev pub byte : ℕ → ℕ → ℕ
byte v j = v / 256 ^ j % 256

-- `p[i] = val` for a pointer to `uint32_t`.
abbrev pub store_word : Memory → ℕ → ℕ → Memory
store_word m a v k = if leb a k && ltb k (a + 4) then byte v (k - a) else m k

-- The loop of `memset` with `n` words left from word `i` on.
unfoldable pub set_words : ℕ → ℕ → ℕ → ℕ → Memory → Memory
set_words zero ptr val i m = m
set_words (suc n) ptr val i m = set_words n ptr val (i + 1) (store_word m (ptr + 4 * i) val)

-- `memset`: `i` is `len / 4` behind the loop, and `val` loses all but its low `len % 4` bytes.
unfoldable pub memset : ℕ → ℕ → ℕ → Memory → Memory
unfolding set_words
memset ptr val len m =
    let filled = set_words (len / 4) ptr val 0 m in
    if len % 4 == 0
    then filled
    else store_word filled (ptr + 4 * (len / 4 + 1)) (val % 256 ^ (len % 4))
