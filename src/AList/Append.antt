-- ===== src/AList/Append.antt =====
-- `alist_add` on a list that nothing was removed from.
use mathlib.Core.List.{append_assoc, append-nil}
use lizarx.Prelude.{
  ℕ, ◌+◌, ◌<◌, ◌%◌, ◌^◌, ◌≡◌, ◌≢◌, refl, ap, sym, ◌∙◌, true, false, some, List, [], ◌∷◌, ◌++◌,
  length, arith, ◌==◌, Bool-cases, inl, inr,
}
use lizarx.AList.{AList, Node, entrys_per_array, fill, place, extend, add}
use lizarx.AList.Contents.{live, contents, Counted, HasRoom}

-- Behind the first NULL of an array there are only NULLs.
abbrev pub Compact : List ℕ → Type 0
Compact [] = Unit
Compact (p ∷ ps) = (p ≡ 0 → live ps ≡ []) × Compact ps

-- All nodes but the last one are full.
abbrev pub Packed : AList → Type 0
Packed [] = Unit
Packed (n ∷ []) = Compact n.pointer
Packed (n ∷ m ∷ l) = (n.used ≡ entrys_per_array) × Packed (m ∷ l)

-- An array with a free slot takes the entry behind those that it has.
fill-Compact :
    (ps : List ℕ) (p : ℕ)
    → p ≢ 0
    → Compact ps
    → length (live ps) < length ps
    → (qs : List ℕ) × (fill ps p ≡ some qs) × (live qs ≡ live ps ++ (p ∷ [])) × Compact qs
unfolding fill
fill-Compact [] p nz c lt = absurd (omega arith)
fill-Compact (q ∷ qs) p nz c lt = elim (Bool-cases (q == 0)) [
  | inl e ↦
      let none_left : live qs ≡ [] = c.0 (ground arith) in
      let set_now : (p == 0) ≡ false = ground arith in
      (
        p ∷ qs,
        rw e refl,
        rw (e, set_now, none_left) refl,
        (λ z. absurd (ground (arith, z, nz)), c.1),
      )
  | inr ne ↦
      let (rs, found, after, compact) = fill-Compact qs p nz c.1 (ground arith) in
      (
        q ∷ rs,
        rw (ne, found) refl,
        rw ne (ap (λ xs. q ∷ xs) after),
        (λ z. absurd (ground (arith, z, ne)), compact),
      )
]

-- A full node in front of nodes that hold an entry.
cons-Packed :
    (n : Node) (l : AList) (xs : List ℕ) (p : ℕ)
    → n.used ≡ entrys_per_array
    → contents l ≡ xs ++ (p ∷ [])
    → Packed l
    → Packed (n ∷ l)
cons-Packed n [] [] p full e packed = absurd (ground (arith, e))
cons-Packed n [] (x ∷ xs) p full e packed = absurd (ground (arith, e))
cons-Packed n (m ∷ l) xs p full e packed = (full, packed)

-- The last node with its new entry.
extend-Packed :
    (n : Node)
    → Compact n.pointer
    → Packed (extend n []) × (contents (extend n []) ≡ live n.pointer)
extend-Packed n compact = elim (Bool-cases (n.used == entrys_per_array)) [
  | inl full ↦ rw full (
    (
      ground (arith, full),
      ((λ z. refl), ((λ z. refl), ((λ z. refl), ((λ z. refl), ((λ z. refl), tt))))),
    ),
    append-nil (live n.pointer),
  )
  | inr more ↦ rw more (compact, append-nil (live n.pointer))
]

place-fill :
    (n : Node) (l : AList) (p : ℕ) (qs : List ℕ)
    → fill n.pointer p ≡ some qs
    → place n l p ≡ extend (record { used = (n.used + 1) % 2 ^ 8; pointer = qs }) l
unfolding place
place-fill n l p qs found = rw (place, found) refl

-- The new entry is the last one.
pub add-Packed :
    (l : AList) (p : ℕ)
    → Counted l
    → HasRoom l
    → Packed l
    → p ≢ 0
    → (l' : AList) × (add l p ≡ some l') × Packed l' × (contents l' ≡ contents l ++ (p ∷ []))
unfolding add place fill
add-Packed [] p c room packed nz = absurd room
add-Packed (n ∷ []) p c room packed nz =
    let free : (n.used == entrys_per_array) ≡ false = ground arith in
    let (qs, found, after, compact) =
      fill-Compact n.pointer p nz packed (omega (arith, c.0.count, c.0.size, room)) in
    let last = extend-Packed (record { used = (n.used + 1) % 2 ^ 8; pointer = qs }) compact in
    (
      extend (record { used = (n.used + 1) % 2 ^ 8; pointer = qs }) [],
      rw (free, place-fill n [] p qs found) refl,
      last.0,
      last.1 ∙ after ∙ ap (λ xs. xs ++ (p ∷ [])) (sym (append-nil (live n.pointer))),
    )
add-Packed (n ∷ m ∷ l) p c room packed nz =
    let full : (n.used == entrys_per_array) ≡ true = ground (arith, packed.0) in
    let (l', e, packed', after) = add-Packed (m ∷ l) p c.1 room packed.1 nz in
    (
      n ∷ l',
      rw (full, e) refl,
      cons-Packed n l' (contents (m ∷ l)) p packed.0 after packed',
      ap (λ xs. live n.pointer ++ xs) after
          ∙ sym (append_assoc (live n.pointer) (contents (m ∷ l)) (p ∷ [])),
    )
