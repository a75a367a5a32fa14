-- ===== src/AList/Add.antt =====
-- `alist_add`: where the entry goes, and that the list stays well formed.
use mathlib.Core.Option
use mathlib.Core.List.{append_assoc}
use mathlib.Core.Path.{subst}
use lizarx.Prelude.{
  ℕ, suc, ◌+◌, ◌<◌, ◌^◌, ◌%◌, Bool, ◌&&◌, ◌≡◌, ◌≢◌, refl, ap, ◌∙◌, true, false, Option, none, some,
  List, [], ◌∷◌, ◌++◌, arith, ◌==◌, length, length-append, inl, inr, Bool-cases,
}
use lizarx.AList.{AList, Node, entrys_per_array, fill, extend, place, add}
use lizarx.AList.Contents.{live, contents, IsNode, Counted, HasRoom, IsValid, length-live}

-- `ys` is `xs` with one more `p` somewhere.
abbrev pub Inserted : ℕ → List ℕ → List ℕ → Type 0
Inserted p xs ys = (front back : List ℕ) × (xs ≡ front ++ back) × (ys ≡ front ++ (p ∷ back))

Inserted-cons : (p x : ℕ) (xs ys : List ℕ) → Inserted p xs ys → Inserted p (x ∷ xs) (x ∷ ys)
Inserted-cons p x xs ys (front, back, e, f) =
    (x ∷ front, back, ap (λ l. x ∷ l) e, ap (λ l. x ∷ l) f)

Inserted-append_left :
    (p : ℕ) (zs xs ys : List ℕ) → Inserted p xs ys → Inserted p (zs ++ xs) (zs ++ ys)
Inserted-append_left p [] xs ys i = i
Inserted-append_left p (z ∷ zs) xs ys i =
    Inserted-cons p z (zs ++ xs) (zs ++ ys) (Inserted-append_left p zs xs ys i)

Inserted-append_right :
    (p : ℕ) (xs ys zs : List ℕ) → Inserted p xs ys → Inserted p (xs ++ zs) (ys ++ zs)
Inserted-append_right p xs ys zs (front, back, e, f) = (
  front,
  back ++ zs,
  ap (λ l. l ++ zs) e ∙ append_assoc front back zs,
  ap (λ l. l ++ zs) f ∙ append_assoc front (p ∷ back) zs,
)

pub length-Inserted : (p : ℕ) (xs ys : List ℕ) → Inserted p xs ys → length ys ≡ length xs + 1
length-Inserted p xs ys (front, back, e, f) =
    ground
      (arith, length-append front back, length-append front (p ∷ back), ap length e, ap length f)

-- What `fill` does to the live pointers of an array.
abbrev Filled : ℕ → List ℕ → Option (List ℕ) → Type 0
Filled p ps none = length (live ps) ≡ length ps
Filled p ps (some qs) = Inserted p (live ps) (live qs) × (length qs ≡ length ps)

Filled-cons :
    (p q : ℕ) (qs : List ℕ) (r : Option (List ℕ))
    → (q == 0) ≡ false
    → Filled p qs r
    → Filled p (q ∷ qs) (Option.map (λ rs. q ∷ rs) r)
Filled-cons p q qs none ne f = rw ne (omega arith)
Filled-cons p q qs (some rs) ne f = rw ne (Inserted-cons p q (live qs) (live rs) f.0, ap suc f.1)

fill-Filled : (p : ℕ) (ps : List ℕ) → p ≢ 0 → Filled p ps (fill ps p)
unfolding fill
fill-Filled p [] ne = refl
fill-Filled p (q ∷ qs) ne = elim (Bool-cases (q == 0)) [
  | inl e ↦ rw e (([], live qs, ground arith, ground arith), refl)
  | inr ne' ↦ rw ne' (Filled-cons p q qs (fill qs p) ne' (fill-Filled p qs ne))
]

-- What `alist_add` promises: the entry is in, and the list is well formed.
pub record Added (p : ℕ) (l l' : AList) : Type 0 where
  pub inserted : Inserted p (contents l) (contents l')
  pub valid : IsValid l'

-- The node that got the entry is counted again.
Filled-IsNode :
    (n : Node) (p : ℕ) (qs : List ℕ)
    → IsNode n
    → Filled p n.pointer (some qs)
    → IsNode (record { used = (n.used + 1) % 2 ^ 8; pointer = qs }) × (n.used < entrys_per_array)
Filled-IsNode n p qs v (i, e) =
    ground (arith, length-Inserted p (live n.pointer) (live qs) i, length-live qs, v.size, v.count)

and_false : (b : Bool) → (b && false) ≡ false
and_false true = refl
and_false false = refl

cons-HasRoom : (n : Node) (l : AList) → HasRoom l → HasRoom (n ∷ l)
cons-HasRoom n [] r = absurd r
cons-HasRoom n (m ∷ l) r = r

extend-Added :
    (n : Node) (l : AList) (p : ℕ) (qs : List ℕ)
    → IsNode n
    → Counted l
    → HasRoom (n ∷ l)
    → Filled p n.pointer (some qs)
    → Added p (n ∷ l) (extend (record { used = (n.used + 1) % 2 ^ 8; pointer = qs }) l)
extend-Added n [] p qs v c room f = elim (Bool-cases ((n.used + 1) % 2 ^ 8 == entrys_per_array)) [
  | inl full ↦ rw full (record {
    inserted = Inserted-append_right p (live n.pointer) (live qs) [] f.0;
    valid = record {
      counted = ((Filled-IsNode n p qs v f).0, (record { size = refl; count = refl }, tt));
      room = omega arith;
    };
  })
  | inr more ↦ rw more (record {
    inserted = Inserted-append_right p (live n.pointer) (live qs) [] f.0;
    valid = record {
      counted = ((Filled-IsNode n p qs v f).0, tt);
      room = ground (arith, Filled-IsNode n p qs v f);
    };
  })
]
extend-Added n (m ∷ l) p qs v c room f =
    rw (and_false ((n.used + 1) % 2 ^ 8 == entrys_per_array)) (record {
      inserted = Inserted-append_right p (live n.pointer) (live qs) (contents (m ∷ l)) f.0;
      valid = record { counted = ((Filled-IsNode n p qs v f).0, c); room = room };
    })

place-Added :
    (n : Node) (l : AList) (p : ℕ)
    → p ≢ 0
    → IsNode n
    → Counted l
    → HasRoom (n ∷ l)
    → n.used ≢ entrys_per_array
    → Added p (n ∷ l) (place n l p)
unfolding place
place-Added n l p ne v c room free = go (fill n.pointer p) refl
  where
    go : (r : Option (List ℕ)) → fill n.pointer p ≡ r → Added p (n ∷ l) (place n l p)
    go none e =
        absurd (free (v.count ∙ subst (Filled p n.pointer) e (fill-Filled p n.pointer ne) ∙ v.size))
    go (some qs) e =
        rw (e, place)
          (extend-Added n l p qs v c room
            (subst (Filled p n.pointer) e (fill-Filled p n.pointer ne)))

-- `alist_add` of an entry to a well-formed list dereferences no NULL, puts the entry between two parts of
-- the contents, and leaves a well-formed list.
pub add-Added :
    (l : AList) (p : ℕ) → IsValid l → p ≢ 0 → (l' : AList) × (add l p ≡ some l') × Added p l l'
unfolding add
add-Added [] p v ne = absurd v.room
add-Added (n ∷ []) p v ne = (
  place n [] p,
  ground arith,
  place-Added n [] p ne v.counted.0 tt v.room (omega (arith, v.room)),
)
add-Added (n ∷ m ∷ l) p v ne = elim (Bool-cases (n.used == entrys_per_array)) [
  | inl full ↦
      let (l', e, a) = add-Added (m ∷ l) p (record { counted = v.counted.1; room = v.room }) ne in
      (
        n ∷ l',
        rw (full, e),
        record {
          inserted =
              Inserted-append_left p (live n.pointer) (contents (m ∷ l)) (contents l') a.inserted;
          valid = record {
            counted = (v.counted.0, a.valid.counted);
            room = cons-HasRoom n l' a.valid.room;
          };
        },
      )
  | inr free ↦ (
    place n (m ∷ l) p,
    rw free,
    place-Added n (m ∷ l) p ne v.counted.0 v.counted.1 v.room (ground arith),
  )
]
