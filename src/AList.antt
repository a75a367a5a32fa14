-- ===== src/AList.antt =====
-- src/kernel/lib/libOS/list.c and list.h: the kernel's array list, a chain of arrays of five
-- pointers. A chain is the list of its nodes from the one that `list` points to; the empty list is
-- the NULL after the last node. A pointer is a number, NULL is 0.
pub mod Add
pub mod Append
pub mod Contents
pub mod Lookup
pub mod Remove
mod Tests
use mathlib.Core.Option
use lizarx.Prelude.{
  ℕ, ◌+◌, ◌%◌, ◌^◌, Bool, true, false, not, ◌&&◌, Option, none, some, List, [], ◌∷◌, ◌==◌,
  if◌then◌else◌, replicate,
}
use lizarx.Prelude.Int.{ℤ, pos, minus_one}

-- ENTRYS_PER_ARRAY
abbrev pub entrys_per_array : ℕ
entrys_per_array = 5

-- `struct alist_st` without its `next`, which is the rest of the chain.
pub record Node : Type 0 where
  pub used : ℕ
  pub pointer : List ℕ

-- `alist_t`
abbrev pub AList : Type 0
AList = List Node

-- A node that `memset` has cleared.
abbrev pub empty_node : Node
empty_node = record { used = 0; pointer = replicate entrys_per_array 0 }

abbrev pub is_nil : AList → Bool
is_nil [] = true
is_nil (n ∷ l) = false

-- The `for` loop of `alist_get_by_index` over one array, from the count `j`; `next` is the rest of
-- the `do` loop.
pub index_slots : List ℕ → ℕ → ℕ → (ℕ → Option ℕ) → Option ℕ
index_slots [] index j next = next j
index_slots (p ∷ ps) index j next =
    if not (p == 0) && j == index
    then some p
    else index_slots ps index (if p == 0 then j else j + 1) next

pub index_from : AList → ℕ → ℕ → Option ℕ
unfolding index_slots
index_from [] index j = none
index_from (n ∷ l) index j = index_slots n.pointer index j (λ k. index_from l index k)

-- `alist_get_by_index`; NULL is `none`.
unfoldable pub get_by_index : AList → ℕ → Option ℕ
unfolding index_from
get_by_index l index = index_from l index 0

-- The `for` loop of `alist_get_index` over one array.
pub position_slots : List ℕ → ℕ → ℕ → (ℕ → ℤ) → ℤ
position_slots [] entry j next = next j
position_slots (p ∷ ps) entry j next =
    if p == entry then pos j else position_slots ps entry (if p == 0 then j else j + 1) next

pub position_from : AList → ℕ → ℕ → ℤ
unfolding position_slots
position_from [] entry j = minus_one
position_from (n ∷ l) entry j = position_slots n.pointer entry j (λ k. position_from l entry k)

-- `alist_get_index`
unfoldable pub get_index : AList → ℕ → ℤ
unfolding position_from
get_index l entry = position_from l entry 0

-- `load` reads memory at the width of the caller: a byte in `alist_get_by_entry8`, a word in
-- `alist_get_by_entry`, an `int` in `alist_get_by_entry_s`.
module _ (load : ℕ → ℕ) (off val : ℕ) where
  pub entry_slots : List ℕ → Option ℕ → Option ℕ
  entry_slots [] next = next
  entry_slots (p ∷ ps) next =
      if not (p == 0) && load ((p + off) % 2 ^ 64) == val then some p else entry_slots ps next

  -- `alist_get_by_entry`, `alist_get_by_entry8` and `alist_get_by_entry_s`.
  unfoldable pub get_by_entry : AList → Option ℕ
  unfolding entry_slots
  get_by_entry [] = none
  get_by_entry (n ∷ l) = entry_slots n.pointer (get_by_entry l)

-- The first NULL of an array is overwritten by `p`; `none` if there is none.
pub fill : List ℕ → ℕ → Option (List ℕ)
fill [] p = none
fill (q ∷ qs) p = if q == 0 then some (p ∷ qs) else Option.map (λ rs. q ∷ rs) (fill qs p)

-- A node that is full and has no successor gets one.
abbrev pub extend : Node → AList → AList
extend n l = if n.used == entrys_per_array && is_nil l then n ∷ empty_node ∷ [] else n ∷ l

-- `list->pointer[i] = to_add; list->used++` in the first node that is not full, `used` being a
-- `uint8_t`.
pub place : Node → AList → ℕ → AList
unfolding fill
place n l p = elim (fill n.pointer p) [
  | none ↦ n ∷ l
  | some ps ↦ extend (record { used = (n.used + 1) % 2 ^ 8; pointer = ps }) l
]

-- `alist_add`; `none` is the NULL that is dereferenced behind a chain of full nodes.
unfoldable pub add : AList → ℕ → Option AList
unfolding place
add [] p = none
add (n ∷ l) p =
    if n.used == entrys_per_array then Option.map (λ l'. n ∷ l') (add l p) else some (place n l p)

-- The first slot that holds `p` is set to NULL; `none` if there is none.
pub clear : List ℕ → ℕ → Option (List ℕ)
clear [] p = none
clear (q ∷ qs) p = if q == p then some (0 ∷ qs) else Option.map (λ rs. q ∷ rs) (clear qs p)

-- `alist_remove`: the status and the new chain, `used` being a `uint8_t`.
unfoldable pub remove : AList → ℕ → ℤ × AList
unfolding clear
remove [] p = (minus_one, [])
remove (n ∷ l) p =
    let (s, l') = remove l p in
    elim (clear n.pointer p) [
      | none ↦ (s, n ∷ l')
      | some ps ↦ (pos 0, record { used = (n.used + 255) % 2 ^ 8; pointer = ps } ∷ l)
    ]

-- `alist_get_entry_n`, with `uint_t` a 64-bit word.
unfoldable pub get_entry_n_from : AList → ℕ → ℕ
get_entry_n_from [] n = n
get_entry_n_from (m ∷ l) n = get_entry_n_from l ((n + m.used) % 2 ^ 64)

unfoldable pub get_entry_n : AList → ℕ
unfolding get_entry_n_from
get_entry_n l = get_entry_n_from l 0
