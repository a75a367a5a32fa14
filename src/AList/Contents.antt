-- ===== src/AList/Contents.antt =====
-- What an array list stands for: the pointers that are not NULL, in the order of the arrays.
use lizarx.Prelude.{
  ℕ, ◌+◌, ◌<◌, ◌≤◌, arith, ◌≡◌, Bool, true, false, List, [], ◌∷◌, ◌++◌, ◌==◌, if◌then◌else◌, length,
}
use lizarx.Prelude.Int.{ℤ, pos, minus_one}
use lizarx.AList.{AList, Node, entrys_per_array}

-- The pointers of one array that are not NULL.
abbrev pub live : List ℕ → List ℕ
live [] = []
live (p ∷ ps) = if p == 0 then live ps else p ∷ live ps

abbrev pub contents : AList → List ℕ
contents [] = []
contents (n ∷ l) = live n.pointer ++ contents l

-- `used` counts the pointers of the array that are set.
pub record IsNode (n : Node) : Type 0 where
  pub size : length n.pointer ≡ entrys_per_array
  pub count : n.used ≡ length (live n.pointer)

abbrev pub Counted : AList → Type 0
Counted [] = Unit
Counted (n ∷ l) = IsNode n × Counted l

-- The last node of the chain has a free slot.
abbrev pub HasRoom : AList → Type 0
HasRoom [] = ⊥
HasRoom (n ∷ []) = n.used < entrys_per_array
HasRoom (n ∷ m ∷ l) = HasRoom (m ∷ l)

pub record IsValid (l : AList) : Type 0 where
  pub counted : Counted l
  pub room : HasRoom l

pub length-live : (ps : List ℕ) → length (live ps) ≤ length ps
length-live [] = omega arith
length-live (p ∷ ps) = ground (arith, length-live ps)

-- The position of the first `entry`, counted from `j`, or -1.
abbrev pub find_index : List ℕ → ℕ → ℕ → ℤ
find_index [] entry j = minus_one
find_index (x ∷ xs) entry j = if x == entry then pos j else find_index xs entry (j + 1)

abbrev pub has : List ℕ → ℕ → Bool
has [] p = false
has (x ∷ xs) p = if x == p then true else has xs p

-- The list without the first `p`.
abbrev pub erase : List ℕ → ℕ → List ℕ
erase [] p = []
erase (x ∷ xs) p = if x == p then xs else x ∷ erase xs p
