-- ===== src/AList/Lookup.antt =====
-- The searches of the array list against the list that it stands for.
use lizarx.Prelude.{
  ℕ, ◌+◌, ◌-◌, ◌%◌, ◌^◌, ◌≤◌, ◌≡◌, ◌≢◌, refl, sym, ap, ◌∙◌, Option, none, some, List, [], ◌∷◌, ◌++◌,
  arith, ◌==◌, length, length-append, get_elem?, inl, inr, Bool-cases,
}
use lizarx.Prelude.Int.{ℤ, pos}
use lizarx.AList.{
  AList, index_slots, index_from, get_by_index, position_slots, position_from, get_index,
  entry_slots, get_by_entry, get_entry_n_from, get_entry_n,
}
use lizarx.AList.Contents.{live, contents, Counted, IsValid, find_index}

index_slots-live :
    (ps : List ℕ) (index j : ℕ) (next : ℕ → Option ℕ) (rest : List ℕ)
    → ((k : ℕ) → k ≤ index → next k ≡ get_elem? rest (index - k))
    → j ≤ index
    → index_slots ps index j next ≡ get_elem? (live ps ++ rest) (index - j)
unfolding index_slots
index_slots-live [] index j next rest h le = h j le
index_slots-live (p ∷ ps) index j next rest h le =
    ground (
      arith,
      index_slots-live ps index j next rest h,
      index_slots-live ps index (j + 1) next rest h,
    )

index_from-contents :
    (l : AList) (index j : ℕ)
    → j ≤ index
    → index_from l index j ≡ get_elem? (contents l) (index - j)
unfolding index_from
index_from-contents [] index j le = refl
index_from-contents (n ∷ l) index j le =
    index_slots-live n.pointer index j (λ k. index_from l index k) (contents l)
      (λ k h. index_from-contents l index k h) le

-- `alist_get_by_index` returns the entry with that index of the contents, and NULL behind the end.
pub get_by_index-contents :
    (l : AList) (index : ℕ) → get_by_index l index ≡ get_elem? (contents l) index
unfolding get_by_index
get_by_index-contents l index =
    index_from-contents l index 0 (omega arith) ∙ ap (get_elem? (contents l)) (omega arith)

position_slots-live :
    (ps : List ℕ) (entry j : ℕ) (next : ℕ → ℤ) (rest : List ℕ)
    → entry ≢ 0
    → ((k : ℕ) → next k ≡ find_index rest entry k)
    → position_slots ps entry j next ≡ find_index (live ps ++ rest) entry j
unfolding position_slots
position_slots-live [] entry j next rest ne h = h j
position_slots-live (p ∷ ps) entry j next rest ne h = ground (
  arith,
  position_slots-live ps entry j next rest ne h,
  position_slots-live ps entry (j + 1) next rest ne h,
)

position_from-contents :
    (l : AList) (entry j : ℕ)
    → entry ≢ 0
    → position_from l entry j ≡ find_index (contents l) entry j
unfolding position_from
position_from-contents [] entry j ne = refl
position_from-contents (n ∷ l) entry j ne =
    position_slots-live n.pointer entry j (λ k. position_from l entry k) (contents l) ne
      (λ k. position_from-contents l entry k ne)

-- `alist_get_index` of an entry that is not NULL is its first position in the contents, or -1.
pub get_index-contents :
    (l : AList) (entry : ℕ) → entry ≢ 0 → get_index l entry ≡ find_index (contents l) entry 0
unfolding get_index
get_index-contents l entry ne = position_from-contents l entry 0 ne

-- The entry at the position that a search returned.
get_elem?-find_index :
    (xs : List ℕ) (entry j i : ℕ)
    → find_index xs entry j ≡ pos i
    → (j ≤ i) × (get_elem? xs (i - j) ≡ some entry)
get_elem?-find_index [] entry j i e = absurd (ground arith)
get_elem?-find_index (x ∷ xs) entry j i e = ground (arith, get_elem?-find_index xs entry (j + 1) i)

-- `alist_get_by_index` at the index that `alist_get_index` returned gives the entry back.
pub get_by_index-get_index :
    (l : AList) (entry i : ℕ)
    → entry ≢ 0
    → get_index l entry ≡ pos i
    → get_by_index l i ≡ some entry
get_by_index-get_index l entry i ne e =
    get_by_index-contents l i
    ∙ ap (get_elem? (contents l)) (omega arith)
    ∙ (get_elem?-find_index (contents l) entry 0 i (sym (get_index-contents l entry ne) ∙ e)).1

get_entry_n_from-length :
    (l : AList) (n : ℕ)
    → Counted l
    → get_entry_n_from l (n % 2 ^ 64) ≡ (n + length (contents l)) % 2 ^ 64
unfolding get_entry_n_from
get_entry_n_from-length [] n v = omega arith
get_entry_n_from-length (m ∷ l) n v =
    ground (
      arith,
      get_entry_n_from-length l (n + m.used) v.1,
      length-append (live m.pointer) (contents l),
    )

-- `alist_get_entry_n` of a well-formed list is the number of its entries, as a 64-bit word.
pub get_entry_n-length : (l : AList) → IsValid l → get_entry_n l ≡ length (contents l) % 2 ^ 64
unfolding get_entry_n
get_entry_n-length l v = ground (arith, get_entry_n_from-length l 0 v.counted)

-- The field at `off` of every entry of `xs` differs from `val`.
abbrev pub NoneHas : (ℕ → ℕ) → ℕ → ℕ → List ℕ → Type 0
NoneHas load off val [] = Unit
NoneHas load off val (x ∷ xs) = (load ((x + off) % 2 ^ 64) ≢ val) × NoneHas load off val xs

-- What a search by a field found in `xs`: the first entry with that field, or none has it.
abbrev pub Found : (ℕ → ℕ) → ℕ → ℕ → List ℕ → Option ℕ → Type 0
Found load off val xs none = NoneHas load off val xs
Found load off val xs (some p) =
    (ys zs : List ℕ) × (xs ≡ ys ++ (p ∷ zs))
    × NoneHas load off val ys
    × (load ((p + off) % 2 ^ 64) ≡ val)

module _ (load : ℕ → ℕ) (off val : ℕ) where
  Found-cons :
      (x : ℕ) (xs : List ℕ) (r : Option ℕ)
      → load ((x + off) % 2 ^ 64) ≢ val
      → Found load off val xs r
      → Found load off val (x ∷ xs) r
  Found-cons x xs none ne f = (ne, f)
  Found-cons x xs (some p) ne (ys, zs, e, none_has, hit) =
      (x ∷ ys, zs, ap (λ l. x ∷ l) e, (ne, none_has), hit)

  entry_slots-Found :
      (ps : List ℕ) (next : Option ℕ) (rest : List ℕ)
      → Found load off val rest next
      → Found load off val (live ps ++ rest) (entry_slots load off val ps next)
  unfolding entry_slots
  entry_slots-Found [] next rest f = f
  entry_slots-Found (p ∷ ps) next rest f = elim (Bool-cases (p == 0)) [
    | inl e ↦ rw e (entry_slots-Found ps next rest f)
    | inr ne ↦ rw ne (elim (Bool-cases (load ((p + off) % 2 ^ 64) == val)) [
      | inl hit ↦ rw hit ([], live ps ++ rest, refl, tt, ground arith)
      | inr miss ↦ rw miss (
          Found-cons p (live ps ++ rest) (entry_slots load off val ps next) (ground arith)
            (entry_slots-Found ps next rest f))
    ])
  ]

  -- `alist_get_by_entry` returns the first entry whose field at `off` is `val`, and NULL exactly
  -- when no entry has it.
  pub get_by_entry-Found :
      (l : AList) → Found load off val (contents l) (get_by_entry load off val l)
  unfolding get_by_entry
  get_by_entry-Found [] = tt
  get_by_entry-Found (n ∷ l) =
      entry_slots-Found n.pointer (get_by_entry load off val l) (contents l) (get_by_entry-Found l)
