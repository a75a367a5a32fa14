-- ===== src/Ld/Lookup.antt =====
-- `get_sym_by_name` of a library whose hash table holds all its symbols.
use lizarx.Prelude.{
  ℕ, ◌+◌, ◌*◌, ◌%◌, ◌<◌, ◌≤◌, ◌≡◌, ◌≢◌, ◌⊎◌, inl, inr, ap, sym, ◌∙◌, false, some, List, [], ◌∷◌,
  ◌==◌, arith, length,
}
use lizarx.Ld.{Image, Dynamic, symbol_size, get_sym_by_name}
use lizarx.Ld.Names.{
  IsString, hash_of, elf_hash-string, Links, HasNames, NoneNamed, FirstNamed, chain_from-Finds,
}

abbrev pub IsIn : ℕ → List ℕ → Type 0
IsIn x [] = ⊥
IsIn x (y ∷ ys) = (x ≡ y) ⊎ IsIn x ys

-- The bucket of a name.
abbrev pub bucket_of : Image → Dynamic → List ℕ → ℕ
bucket_of image dyn xs = hash_of 0 xs % image.hashes dyn.hash

-- The hash table of a library with `count` symbols, the first of which is none: each bucket has a chain of at most `longest` symbols more than one, and a
-- symbol is on the chain of its name.
pub record HashTable (image : Image) (dyn : Dynamic) (names : ℕ → List ℕ) (count longest : ℕ)
    : Type 0 where
  pub buckets : image.hashes dyn.hash ≢ 0
  pub chains : ℕ → List ℕ
  pub short : (b : ℕ) → length (chains b) ≤ longest
  pub first : ℕ → ℕ
  pub starts :
      (b : ℕ) → b < image.hashes dyn.hash → image.hashes (dyn.hash + 2 * 4 + b * 4) ≡ first b
  pub links :
      (b : ℕ)
      → b < image.hashes dyn.hash
      → Links image.hashes (dyn.hash + (2 + image.hashes dyn.hash) * 4) (first b) (chains b)
  pub named : (b : ℕ) → b < image.hashes dyn.hash → HasNames image dyn names (first b ∷ chains b)
  pub complete :
      (y : ℕ)
      → 0 < y
      → y < count
      → IsIn y (first (bucket_of image dyn (names y)) ∷ chains (bucket_of image dyn (names y)))

-- The symbol of a name, or NULL where no symbol has it.
abbrev pub Located : Dynamic → (ℕ → List ℕ) → ℕ → List ℕ → ℕ → Type 0
Located dyn names count xs r =
    ((r ≡ 0) × ((y : ℕ) → 0 < y → y < count → names y ≢ xs))
    ⊎ ((y : ℕ) × (xs ≡ names y) × (r ≡ dyn.sym + y * symbol_size))

not_named :
    (names : ℕ → List ℕ) (xs ys : List ℕ) (y : ℕ) → NoneNamed names xs ys → IsIn y ys → names y ≢ xs
not_named names xs [] y n (h) = absurd h
not_named names xs (z ∷ zs) y n (inl same) = λ e. n.0 (sym e ∙ ap names same)
not_named names xs (z ∷ zs) y n (inr later) = not_named names xs zs y n.1 later

Finds-Located :
    (image : Image) (dyn : Dynamic) (names : ℕ → List ℕ) (count longest : ℕ) (xs : List ℕ) (s : ℕ)
    → (t : HashTable image dyn names count longest)
    → FirstNamed dyn names xs
        (t.first (bucket_of image dyn xs) ∷ t.chains (bucket_of image dyn xs))
        s
    → Located dyn names count xs s
Finds-Located image dyn names count longest xs s t (inl (z, n)) = inl (
  z,
  λ y live lt e.
      let here : IsIn y (t.first (bucket_of image dyn xs) ∷ t.chains (bucket_of image dyn xs)) =
        rw (sym e) (t.complete y live lt) in
      not_named names xs (t.first (bucket_of image dyn xs) ∷ t.chains (bucket_of image dyn xs)) y n
        here e,
)
Finds-Located image dyn names count longest xs s t (inr (pre, y, post, split, e, at, n)) =
    inr (y, e, at)

-- Where the hash table of a library holds all its symbols, and the rounds suffice for its chains and for the name,
-- `get_sym_by_name` returns a symbol with that name, and NULL only if none of the symbols has it.
pub get_sym_by_name-Located :
    (steps fuel : ℕ) (image : Image) (dyn : Dynamic) (names : ℕ → List ℕ)
    (count longest sym_name : ℕ) (xs : List ℕ)
    → HashTable image dyn names count longest
    → IsString image.strings sym_name xs
    → length xs < steps
    → longest < fuel
    → (r : ℕ) × (get_sym_by_name steps image fuel dyn sym_name ≡ some r)
      × Located dyn names count xs r
unfolding get_sym_by_name
get_sym_by_name-Located steps fuel image dyn names count longest sym_name xs t s lt f =
    let b = bucket_of image dyn xs in
    let small : b < image.hashes dyn.hash = omega (arith, t.buckets) in
    let some_bucket : (image.hashes dyn.hash == 0) ≡ false = ground (arith, t.buckets) in
    let (r, e, h) =
      chain_from-Finds steps image dyn names (dyn.hash + (2 + image.hashes dyn.hash) * 4) sym_name
        xs fuel (t.first b) (t.chains b) s lt (t.links b small) (t.named b small)
        (omega (arith, t.short b, f)) in
    (
      r,
      rw (elf_hash-string steps image.strings 0 sym_name xs s lt, some_bucket, t.starts b small) e,
      Finds-Located image dyn names count longest xs r t h,
    )
