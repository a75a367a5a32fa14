-- ===== src/Ld/Names.antt =====
-- `get_sym_by_name` against the names of the symbols on a chain of the hash table.
use lizarx.Prelude.{
  ℕ, zero, suc, ◌+◌, ◌*◌, ◌<◌, ◌≡◌, ◌≢◌, ◌⊎◌, inl, inr, refl, ap, Bool, true, false, Option, some,
  List, [], ◌∷◌, ◌++◌, ◌==◌, arith, length, ℕ_discrete,
}
pub use lizarx.Memory.Strings.{IsString}
use lizarx.Ld.{Image, Dynamic, symbol_size, mix, elf_hash, strings_equal, chain_from}

abbrev pub hash_of : ℕ → List ℕ → ℕ
hash_of h [] = h
hash_of h (x ∷ xs) = hash_of (mix h x) xs

pub elf_hash-string :
    (fuel : ℕ) (bytes : ℕ → ℕ) (h p : ℕ) (xs : List ℕ)
    → IsString bytes p xs
    → length xs < fuel
    → elf_hash fuel bytes h p ≡ some (hash_of h xs)
unfolding elf_hash
elf_hash-string zero bytes h p xs s lt = absurd (omega arith)
elf_hash-string (suc fuel) bytes h p [] s lt =
    let e : (bytes p == 0) ≡ true = ground (arith, s) in rw e refl
elf_hash-string (suc fuel) bytes h p (x ∷ xs) s lt =
    let e : (bytes p == 0) ≡ false = ground (arith, s.0, s.1) in
    rw (e, s.0) (elf_hash-string fuel bytes (mix h x) (p + 1) xs s.2 (omega arith))

-- The comparison of two strings, both ways.
abbrev pub Compared : List ℕ → List ℕ → Option Bool → Type 0
Compared xs ys r = ((xs ≡ ys) × (r ≡ some true)) ⊎ ((xs ≢ ys) × (r ≡ some false))

strings_equal-Compared :
    (fuel : ℕ) (bytes : ℕ → ℕ) (p q : ℕ) (xs ys : List ℕ)
    → IsString bytes p xs
    → IsString bytes q ys
    → length xs < fuel
    → Compared xs ys (strings_equal fuel bytes p q)
unfolding strings_equal
strings_equal-Compared zero bytes p q xs ys s t lt = absurd (omega arith)
strings_equal-Compared (suc fuel) bytes p q [] [] s t lt = inl (refl, ground (arith, s, t))
strings_equal-Compared (suc fuel) bytes p q [] (y ∷ ys) s t lt =
    inr (λ e. ap_empty e, ground (arith, s, t.0, t.1))
  where
    ap_empty : {zs : List ℕ} {z : ℕ} → [] ≡ z ∷ zs → ⊥
    ap_empty e = cc
strings_equal-Compared (suc fuel) bytes p q (x ∷ xs) [] s t lt =
    inr (λ e. ap_empty e, ground (arith, s.0, s.1, t))
  where
    ap_empty : {zs : List ℕ} {z : ℕ} → z ∷ zs ≡ [] → ⊥
    ap_empty e = cc
strings_equal-Compared (suc fuel) bytes p q (x ∷ xs) (y ∷ ys) s t lt =
    by (ℕ_discrete x y)
      (strings_equal-Compared fuel bytes (p + 1) (q + 1) xs ys s.2 t.2 (omega arith))
  where
    tails : {u v : ℕ} {us vs : List ℕ} → u ∷ us ≡ v ∷ vs → (u ≡ v) × (us ≡ vs)
    tails e = (cc, cc)

    live : (bytes p == 0) ≡ false
    live = ground (arith, s.0, s.1)

    by :
        Dec (x ≡ y)
        → Compared xs ys (strings_equal fuel bytes (p + 1) (q + 1))
        → Compared (x ∷ xs) (y ∷ ys) (strings_equal (suc fuel) bytes p q)
    by (no ne) rest =
        let differ : (bytes p == bytes q) ≡ false = ground (arith, s.0, t.0) in
        inr (λ e. ne (tails e).0, rw (live, differ) refl)
    by (yes same) (inl (e, r)) =
        let equal : (bytes p == bytes q) ≡ true = ground (arith, s.0, t.0, same) in
        inl (cc, rw (live, equal) r)
    by (yes same) (inr (n, r)) =
        let equal : (bytes p == bytes q) ≡ true = ground (arith, s.0, t.0, same) in
        inr (λ e. n (tails e).1, rw (live, equal) r)

-- The chain of the hash table from the symbol `y` on.
abbrev pub Links : (ℕ → ℕ) → ℕ → ℕ → List ℕ → Type 0
Links hashes chain y [] = hashes (chain + y * 4) ≡ 0
Links hashes chain y (z ∷ zs) = (hashes (chain + y * 4) ≡ z) × (z ≢ 0) × Links hashes chain z zs

-- The symbols of a library have the names.
abbrev pub HasNames : Image → Dynamic → (ℕ → List ℕ) → List ℕ → Type 0
HasNames image dyn names [] = Unit
HasNames image dyn names (y ∷ ys) =
    IsString image.strings (dyn.str + (image.symbols (dyn.sym + y * symbol_size)).name) (names y)
    × HasNames image dyn names ys

abbrev pub NoneNamed : (ℕ → List ℕ) → List ℕ → List ℕ → Type 0
NoneNamed names xs [] = Unit
NoneNamed names xs (y ∷ ys) = (xs ≢ names y) × NoneNamed names xs ys

-- The address of the first symbol on the chain that has the name, or NULL where none has it.
abbrev pub FirstNamed : Dynamic → (ℕ → List ℕ) → List ℕ → List ℕ → ℕ → Type 0
FirstNamed dyn names xs ys r =
    ((r ≡ 0) × NoneNamed names xs ys)
    ⊎ ((pre : List ℕ) × (y : ℕ) × (post : List ℕ) × (ys ≡ pre ++ y ∷ post)
        × (xs ≡ names y)
        × (r ≡ dyn.sym + y * symbol_size)
        × NoneNamed names xs pre)

module _ (steps : ℕ) (image : Image) (dyn : Dynamic) (names : ℕ → List ℕ) (chain sym_name : ℕ)
    (xs : List ℕ) where
  -- The loop returns such a symbol.
  abbrev pub Finds : List ℕ → Option ℕ → Type 0
  Finds ys r = (s : ℕ) × (r ≡ some s) × FirstNamed dyn names xs ys s

  Finds-later : (y : ℕ) (ys : List ℕ) (r : Option ℕ) → xs ≢ names y → Finds ys r → Finds (y ∷ ys) r
  Finds-later y ys r ne (s, e, inl (z, n)) = (s, e, inl (z, (ne, n)))
  Finds-later y ys r ne (s, e, inr (pre, w, post, split, h, at, n)) =
      (s, e, inr (y ∷ pre, w, post, ap (λ l. y ∷ l) split, h, at, (ne, n)))

  pub chain_from-Finds :
      (fuel y : ℕ) (ys : List ℕ)
      → IsString image.strings sym_name xs
      → length xs < steps
      → Links image.hashes chain y ys
      → HasNames image dyn names (y ∷ ys)
      → length ys < fuel
      → Finds (y ∷ ys) (chain_from steps image fuel dyn chain sym_name y)
  unfolding chain_from
  chain_from-Finds zero y ys s lt l h f = absurd (omega arith)
  chain_from-Finds (suc fuel) y [] s lt l h f =
      elim (strings_equal-Compared steps image.strings sym_name
        (dyn.str + (image.symbols (dyn.sym + y * symbol_size)).name) xs (names y) s h.0 lt) [
          | inl (e, r) ↦ (dyn.sym + y * symbol_size, rw r refl, inr ([], y, [], refl, e, refl, tt))
          | inr (n, r) ↦ (0, rw (r, l) refl, inl (refl, (n, tt)))
        ]
  chain_from-Finds (suc fuel) y (z ∷ zs) s lt l h f =
      let more = chain_from-Finds fuel z zs s lt l.2 h.1 (omega arith) in
      let going : (z == 0) ≡ false = ground (arith, l.1) in
      elim (strings_equal-Compared steps image.strings sym_name
        (dyn.str + (image.symbols (dyn.sym + y * symbol_size)).name) xs (names y) s h.0 lt) [
          | inl (e, r) ↦
              (dyn.sym + y * symbol_size, rw r refl, inr ([], y, z ∷ zs, refl, e, refl, tt))
          | inr (n, r) ↦
              rw (r, l.0, going)
                (Finds-later y (z ∷ zs) (chain_from steps image fuel dyn chain sym_name z) n more)
        ]
