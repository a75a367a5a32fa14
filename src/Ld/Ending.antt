-- ===== src/Ld/Ending.antt =====
-- The linking of a library comes to an end.
use lizarx.Prelude.{
  ◌>>=◌, true, ltb, ◌^◌, arith, ℕ, ◌+◌, ◌*◌, ◌<◌, ◌≡◌, inl, inr, refl, Bool, not, ◌&&◌, ◌||◌,
  Option, none, some, List, [], ◌∷◌, ◌==◌, length, Bool-cases,
}
use lizarx.Ld.{
  ElfRela, Image, Dynamic, name_at, search_elfs, find_symbol, resolve, resolve_references, jmp_slot,
  glob_data, rel_32, without_addend,
}
use lizarx.Ld.Names.{IsString}
use lizarx.Ld.Lookup.{HashTable, get_sym_by_name-Located}
use lizarx.Ld.Relocs.{resolve_from-Resolved}

-- Each library has a hash table of all its symbols, with chains of at most `longest` links.
abbrev pub AllTabled : Image → ℕ → List Dynamic → Type 0
AllTabled image longest [] = Unit
AllTabled image longest (d ∷ ds) =
    ((names : ℕ → List ℕ) × (count : ℕ) × HashTable image d names count longest)
    × AllTabled image longest ds

abbrev Ends : {A : Type 0} → Option A → Type 0
Ends {A = A} r = (a : A) × (r ≡ some a)

then-Ends :
    {A B : Type 0} (r : Option A) (f : A → Option B)
    → Ends r
    → ((a : A) → Ends (f a))
    → Ends (r >>= f)
then-Ends r f (a, e) more = let (b, e') = more a in (b, rw e e')

search_elfs-Ends :
    (steps fuel : ℕ) (image : Image) (longest sym_name : ℕ) (xs : List ℕ) (elfs : List Dynamic)
    → AllTabled image longest elfs
    → IsString image.strings sym_name xs
    → length xs < steps
    → longest < fuel
    → Ends (search_elfs steps image fuel elfs sym_name)
unfolding search_elfs
search_elfs-Ends steps fuel image longest sym_name xs [] t s lt f = (none, refl)
search_elfs-Ends steps fuel image longest sym_name xs (d ∷ ds) t s lt f =
    let (r, e, h) =
      get_sym_by_name-Located steps fuel image d t.0.0 t.0.1 longest sym_name xs t.0.2 s lt f in
    let (v, e') = search_elfs-Ends steps fuel image longest sym_name xs ds t.1 s lt f in
    elim (Bool-cases (not (r == 0) && not ((image.symbols r).section_index == 0))) [
      | inl found ↦ (some ((image.symbols r).value + d.runtime_addr), rw (e, found) refl)
      | inr missing ↦ (v, rw (e, missing) e')
    ]

resolve-Ends :
    (accepts : ℕ → Bool) (entry_at : ℕ → ElfRela) (find : ℕ → Option (Option ℕ))
    (runtime_addr base count : ℕ) (bytes : ℕ → ℕ)
    → ((k : ℕ) → Ends (find k))
    → count < 2 ^ 31
    → Ends (resolve accepts entry_at find runtime_addr base count bytes)
resolve-Ends accepts entry_at find runtime_addr base count bytes total small =
    elim (Bool-cases (base == 0)) [
      | inl null ↦ (bytes, rw null refl)
      | inr there ↦
          let d =
            resolve_from-Resolved accepts entry_at (λ k. (total k).0) runtime_addr find count 0
              bytes (λ k. (total k).1) (omega arith) in
          let signed : ltb count (2 ^ 63) ≡ true = ground arith in
          (d.after, rw (there, signed) d.result)
    ]

-- Where each library has a hash table of all its symbols, every symbol number has a name that ends, and the rounds suffice
-- for the names and the chains, `resolve_references` ends if each of the four arrays of the library holds fewer than
-- 2 ^ 31 relocations.
pub resolve_references-Ends :
    (steps fuel : ℕ) (image : Image) (longest : ℕ) (d : Dynamic) (elfs : List Dynamic)
    (bytes : ℕ → ℕ)
    → AllTabled image longest elfs
    → ((k : ℕ)
        → (xs : List ℕ) × IsString image.strings (name_at image d k) xs × (length xs < steps))
    → longest < fuel
    → (d.jmp_rel_count < 2 ^ 31)
      × (d.dyn_rel_count < 2 ^ 31)
      × (d.jmp_rela_count < 2 ^ 31)
      × (d.dyn_rela_count < 2 ^ 31)
    → (after : ℕ → ℕ) × (resolve_references steps fuel image d elfs bytes ≡ some after)
unfolding resolve_references find_symbol
resolve_references-Ends steps fuel image longest d elfs bytes t names f small =
    let find = find_symbol steps fuel image d elfs in
    let total : (k : ℕ) → Ends (find k) = λ k.
      search_elfs-Ends steps fuel image longest (name_at image d k) (names k).0 elfs t (names k).1
        (names k).2 f in
    then-Ends _ _
      (resolve-Ends (λ t. t == jmp_slot) (without_addend (λ i. image.rels (d.jmp_rel + i * 16)))
        find d.runtime_addr d.jmp_rel d.jmp_rel_count bytes total small.0)
      (λ w1.
        then-Ends _ _
          (resolve-Ends (λ t. t == glob_data)
            (without_addend (λ i. image.rels (d.dyn_rel + i * 16))) find d.runtime_addr d.dyn_rel
            d.dyn_rel_count w1 total small.1)
          (λ w2.
            then-Ends _ _
              (resolve-Ends (λ t. t == jmp_slot)
                (without_addend (λ i. image.relas (d.jmp_rela + i * 24))) find d.runtime_addr
                d.jmp_rela d.jmp_rela_count w2 total small.2)
              (λ w3.
                resolve-Ends (λ t. t == glob_data || t == rel_32)
                  (λ i. image.relas (d.dyn_rela + i * 24)) find d.runtime_addr d.dyn_rela
                  d.dyn_rela_count w3 total small.3)))
