-- ===== src/AList/Tests.antt =====
-- Runs of the array list, and its theorems at a chain of a full array and one with a hole.
use lizarx.Prelude.{◌≡◌, refl, ◌/◌, none, some, [], ◌∷◌, arith}
use lizarx.Prelude.Int.{pos, minus_one}
use lizarx.AList.{
  AList, Node, empty_node, get_by_index, get_index, get_by_entry, add, remove, get_entry_n,
}
use lizarx.AList.Contents.{contents, IsValid}
use lizarx.AList.Lookup.{get_by_index-contents, get_index-contents, Found, get_by_entry-Found}
use lizarx.AList.Add.{Added, add-Added}
use lizarx.AList.Remove.{Removed, remove-Removed}

abbrev full : Node
full = record { used = 5; pointer = 10 ∷ 20 ∷ 30 ∷ 40 ∷ 50 ∷ [] }

abbrev holed : Node
holed = record { used = 1; pointer = 0 ∷ 60 ∷ 0 ∷ 0 ∷ 0 ∷ [] }

abbrev sample : AList
sample = full ∷ holed ∷ []

abbrev four : AList
four = record { used = 4; pointer = 10 ∷ 20 ∷ 0 ∷ 40 ∷ 50 ∷ [] } ∷ []

sample-IsValid : IsValid sample
sample-IsValid = record {
  counted = ((record { size = refl; count = refl }), ((record { size = refl; count = refl }), tt));
  room = omega arith;
}

-- The entry goes into the hole, in front of one that was added before it.
add_into_hole :
    add sample 70 ≡ some (full ∷ record { used = 2; pointer = 70 ∷ 60 ∷ 0 ∷ 0 ∷ 0 ∷ [] } ∷ [])
unfolding add
add_into_hole = refl

-- A node that gets full gets a successor.
add_extends :
    add four 30
    ≡ some (record { used = 5; pointer = 10 ∷ 20 ∷ 30 ∷ 40 ∷ 50 ∷ [] } ∷ empty_node ∷ [])
unfolding add
add_extends = refl

-- Behind a full last node NULL is dereferenced.
add_faults : add (full ∷ []) 60 ≡ none
unfolding add
add_faults = refl

remove_first :
    remove sample 10
    ≡ (pos 0, record { used = 4; pointer = 0 ∷ 20 ∷ 30 ∷ 40 ∷ 50 ∷ [] } ∷ holed ∷ [])
unfolding remove
remove_first = refl

remove_missing : remove sample 11 ≡ (minus_one, sample)
unfolding remove
remove_missing = refl

-- Taking a NULL out of an array with no entry wraps the count round.
remove_null :
    remove (empty_node ∷ []) 0
    ≡ (pos 0, record { used = 255; pointer = 0 ∷ 0 ∷ 0 ∷ 0 ∷ 0 ∷ [] } ∷ [])
unfolding remove
remove_null = refl

searches :
    (get_by_index sample 5 ≡ some 60)
    × (get_by_index sample 6 ≡ none)
    × (get_index sample 40 ≡ pos 3)
    × (get_index sample 41 ≡ minus_one)
    × (get_entry_n sample ≡ 6)
    × (get_by_entry (λ a. a / 2) 8 24 sample ≡ some 40)
unfolding get_by_index get_index get_entry_n get_by_entry
searches = (refl, refl, refl, refl, refl, refl)

get_by_index-contents_example : get_by_index sample 5 ≡ some 60
get_by_index-contents_example = get_by_index-contents sample 5

get_index-contents_example : get_index sample 60 ≡ pos 5
get_index-contents_example = get_index-contents sample 60 (omega arith)

get_by_entry-Found_example :
    Found (λ a. a) 8 48 (contents sample) (get_by_entry (λ a. a) 8 48 sample)
get_by_entry-Found_example = get_by_entry-Found (λ a. a) 8 48 sample

add-Added_example : (l' : AList) × (add sample 70 ≡ some l') × Added 70 sample l'
add-Added_example = add-Added sample 70 sample-IsValid (omega arith)

remove-Removed_example : Removed 60 sample (remove sample 60)
remove-Removed_example = remove-Removed sample 60 sample-IsValid (omega arith)
