-- ===== src/AList/Remove.antt =====
-- `alist_remove`: the first occurrence of the entry goes, and the list stays well formed.
use mathlib.Core.Option
use mathlib.Core.Path.{subst}
use lizarx.Prelude.{
  ℕ, suc, ◌+◌, ◌<◌, ◌^◌, ◌%◌, ◌||◌, ◌≡◌, ◌≢◌, refl, ap, true, false, Option, none, some, List, [],
  ◌∷◌, ◌++◌, arith, ◌==◌, if◌then◌else◌, length, inl, inr, Bool-cases,
}
use lizarx.Prelude.Int.{ℤ, pos, minus_one}
use lizarx.AList.{AList, Node, clear, remove}
use lizarx.AList.Contents.{
  live, contents, IsNode, Counted, HasRoom, IsValid, has, erase, length-live,
}

has-append : (xs ys : List ℕ) (p : ℕ) → has (xs ++ ys) p ≡ (has xs p || has ys p)
has-append [] ys p = refl
has-append (x ∷ xs) ys p = ground (arith, has-append xs ys p)

erase-append :
    (xs ys : List ℕ) (p : ℕ)
    → erase (xs ++ ys) p ≡ (if has xs p then erase xs p ++ ys else xs ++ erase ys p)
erase-append [] ys p = refl
erase-append (x ∷ xs) ys p = ground (arith, erase-append xs ys p)

erase_of_not_has : (xs : List ℕ) (p : ℕ) → has xs p ≡ false → erase xs p ≡ xs
erase_of_not_has [] p h = refl
erase_of_not_has (x ∷ xs) p h = ground (arith, erase_of_not_has xs p)

length-erase : (xs : List ℕ) (p : ℕ) → has xs p ≡ true → length (erase xs p) + 1 ≡ length xs
length-erase [] p h = ground arith
length-erase (x ∷ xs) p h = ground (arith, length-erase xs p)

-- What `clear` does to the live pointers of an array.
abbrev Cleared : ℕ → List ℕ → Option (List ℕ) → Type 0
Cleared p ps none = has (live ps) p ≡ false
Cleared p ps (some qs) =
    (has (live ps) p ≡ true) × (live qs ≡ erase (live ps) p) × (length qs ≡ length ps)

Cleared-cons :
    (p q : ℕ) (qs : List ℕ) (r : Option (List ℕ))
    → q ≢ p
    → Cleared p qs r
    → Cleared p (q ∷ qs) (Option.map (λ rs. q ∷ rs) r)
Cleared-cons p q qs none ne c = ground arith
Cleared-cons p q qs (some rs) ne c = (ground arith, ground arith, ground arith)

clear-Cleared : (p : ℕ) (ps : List ℕ) → p ≢ 0 → Cleared p ps (clear ps p)
unfolding clear
clear-Cleared p [] ne = refl
clear-Cleared p (q ∷ qs) ne = elim (Bool-cases (q == p)) [
  | inl e ↦ rw e (ground arith, ground arith, refl)
  | inr ne' ↦ rw ne' (Cleared-cons p q qs (clear qs p) (ground arith) (clear-Cleared p qs ne))
]

-- The same for a whole chain.
record Chain (p : ℕ) (l : AList) (r : ℤ × AList) : Type 0 where
  status : r.0 ≡ (if has (contents l) p then pos 0 else minus_one)
  erased : contents r.1 ≡ erase (contents l) p
  counted : Counted r.1
  size : length r.1 ≡ length l
  room : (before : Node) → HasRoom (before ∷ l) → HasRoom (before ∷ r.1)

cons-Removed :
    (n : Node) (l : AList) (p : ℕ) (r : ℤ × AList)
    → IsNode n
    → has (live n.pointer) p ≡ false
    → Chain p l r
    → Chain p (n ∷ l) (r.0, n ∷ r.1)
cons-Removed n l p r v miss rest = record {
  status = rw (has-append (live n.pointer) (contents l) p, miss) rest.status;
  erased =
      rw (erase-append (live n.pointer) (contents l) p, miss)
        (ap (λ xs. live n.pointer ++ xs) rest.erased);
  counted = (v, rest.counted);
  size = ap suc rest.size;
  room = λ before h. rest.room n h;
}

clear-Removed :
    (n : Node) (l : AList) (p : ℕ) (qs : List ℕ)
    → IsNode n
    → Counted l
    → Cleared p n.pointer (some qs)
    → Chain p (n ∷ l) (pos 0, record { used = (n.used + 255) % 2 ^ 8; pointer = qs } ∷ l)
clear-Removed n l p qs v c (hit, e, size) = record {
  status = rw (has-append (live n.pointer) (contents l) p, hit);
  erased = rw (erase-append (live n.pointer) (contents l) p, hit, e);
  counted = (used.0, c);
  size = refl;
  room = λ before h. room l h;
}
  where
    used :
        IsNode (record { used = (n.used + 255) % 2 ^ 8; pointer = qs })
        × (n.used ≡ suc (length (live qs)))
    used =
        ground
          (arith, v.size, v.count, length-live qs, length-erase (live n.pointer) p, ap length e)

    room :
        (l : AList)
        → HasRoom (n ∷ l)
        → HasRoom (record { used = (n.used + 255) % 2 ^ 8; pointer = qs } ∷ l)
    room [] h = omega (arith, used)
    room (m ∷ l) h = h

Chain-Removed : (l : AList) (p : ℕ) → Counted l → p ≢ 0 → Chain p l (remove l p)
unfolding remove
Chain-Removed [] p c ne = record {
  status = refl;
  erased = refl;
  counted = tt;
  size = refl;
  room = λ x h. h;
}
Chain-Removed (n ∷ l) p c ne = go (clear n.pointer p) refl (Chain-Removed l p c.1 ne)
  where
    go :
        (r : Option (List ℕ))
        → clear n.pointer p ≡ r
        → Chain p l (remove l p)
        → Chain p (n ∷ l) (remove (n ∷ l) p)
    go none e rest =
        rw (e, remove)
          (cons-Removed n l p (remove l p) c.0
            (subst (Cleared p n.pointer) e (clear-Cleared p n.pointer ne)) rest)
    go (some qs) e rest =
        rw (e, remove)
          (clear-Removed n l p qs c.0 c.1
            (subst (Cleared p n.pointer) e (clear-Cleared p n.pointer ne)))

HasRoom-of_cons : (n : Node) (l : AList) → 0 < length l → HasRoom (n ∷ l) → HasRoom l
HasRoom-of_cons n [] h r = absurd (omega arith)
HasRoom-of_cons n (m ∷ l) h r = r

Chain-HasRoom :
    (l : AList) (r : AList)
    → length r ≡ length l
    → ((b : Node) → HasRoom (b ∷ l) → HasRoom (b ∷ r))
    → HasRoom l
    → HasRoom r
Chain-HasRoom [] r e f h = absurd h
Chain-HasRoom (n ∷ l) r e f h = HasRoom-of_cons n r (omega arith) (f n h)

-- What `alist_remove` promises: the status says whether the entry was there, its first occurrence
-- is gone from the contents and nothing else is, and a well-formed list stays so.
pub record Removed (p : ℕ) (l : AList) (r : ℤ × AList) : Type 0 where
  pub status : r.0 ≡ (if has (contents l) p then pos 0 else minus_one)
  pub erased : contents r.1 ≡ erase (contents l) p
  pub valid : IsValid r.1

-- `alist_remove` of an entry that is not NULL from a well-formed list returns 0 if it was there and -1 if
-- not, takes its first occurrence and nothing else out of the contents, and leaves a well-formed list.
pub remove-Removed : (l : AList) (p : ℕ) → IsValid l → p ≢ 0 → Removed p l (remove l p)
remove-Removed l p v ne = record {
  status = c.status;
  erased = c.erased;
  valid = record {
    counted = c.counted;
    room = Chain-HasRoom l (remove l p).1 c.size c.room v.room;
  };
}
  where
    c : Chain p l (remove l p)
    c = Chain-Removed l p v.counted ne
