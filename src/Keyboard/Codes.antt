-- ===== src/Keyboard/Codes.antt =====
-- Each keycode belongs to one scancode.
use lizarx.Prelude.{
  ℕ, zero, suc, ◌-◌, ◌≡◌, ◌≢◌, refl, ap, sym, ◌∙◌, Bool, true, ◌&&◌, ◌||◌, ◌==◌, Bool-cases, inl,
  inr, Option, none, some, List, [], ◌∷◌, length, get_elem?, get_elem?-within, get_or, ltb,
  if◌then◌else◌, arith,
}
use lizarx.Prelude.Bounded.{holds_below, of_holds_below}
use lizarx.Keyboard.{normal_codes, extended0_codes, translate_scancode}

-- The set and the scancode that a keycode comes from.
abbrev set_of : ℕ → ℕ
set_of kc = if kc == 119 then 2 else if ltb kc 89 then 0 else 1

abbrev scancode_of : ℕ → ℕ
scancode_of kc =
    if kc == 119
    then 0x451d
    else if kc == 84
    then 83
    else if ltb kc 89
    then kc
    else get_or (28 ∷ 29 ∷ 0 ∷ 53 ∷ 56 ∷ 0 ∷ 71 ∷ 72 ∷ 73 ∷ 75 ∷ 77 ∷ 79 ∷ 80 ∷ 81 ∷ 82 ∷ 83 ∷ [])
        (kc - 96) 0

-- An entry of a table leads back to its place.
leads_back : ℕ → ℕ → Option ℕ → Bool
leads_back set scancode none = true
leads_back set scancode (some kc) = kc == 0 || (set_of kc == set && scancode_of kc == scancode)

table-leads_back :
    (set : ℕ) (codes : List ℕ) (scancode kc : ℕ)
    → holds_below (length codes) (λ i. leads_back set i (get_elem? codes i)) ≡ true
    → get_elem? codes scancode ≡ some kc
    → kc ≢ 0
    → (set_of kc ≡ set) × (scancode_of kc ≡ scancode)
unfolding leads_back
table-leads_back set codes scancode kc all e nz =
    let back =
      of_holds_below (length codes) (λ i. leads_back set i (get_elem? codes i)) scancode all
        (get_elem?-within codes scancode kc e) in
    let own : leads_back set scancode (some kc) ≡ true =
      sym (ap (leads_back set scancode) e) ∙ back in
    ground (arith, own)

-- The place of a keycode that a scancode gives.
origin :
    (set scancode kc : ℕ)
    → translate_scancode set scancode ≡ some kc
    → kc ≢ 0
    → (set_of kc ≡ set) × (scancode_of kc ≡ scancode)
unfolding translate_scancode leads_back holds_below
origin zero scancode kc e nz = table-leads_back 0 normal_codes scancode kc refl e nz
origin (suc zero) scancode kc e nz = table-leads_back 1 extended0_codes scancode kc refl e nz
origin (suc (suc zero)) scancode kc e nz = elim (Bool-cases (scancode == 0x451d)) [
  | inl same ↦
      let own : 119 ≡ kc = ground (arith, e, same) in
      let at : 0x451d ≡ scancode = ground (arith, same) in
      (sym (ap set_of own), sym (ap scancode_of own) ∙ at)
  | inr other ↦ absurd (ground (arith, e, other, nz))
]
origin (suc (suc (suc set))) scancode kc e nz = absurd (ground (arith, e, nz))

-- A keycode that is not 0, the answer for a scancode that is not known, comes from one scancode of one set only.
pub translate_scancode-injective :
    (set set' scancode scancode' kc : ℕ)
    → translate_scancode set scancode ≡ some kc
    → translate_scancode set' scancode' ≡ some kc
    → kc ≢ 0
    → (set ≡ set') × (scancode ≡ scancode')
translate_scancode-injective set set' scancode scancode' kc e e' nz =
    let l = origin set scancode kc e nz in
    let l' = origin set' scancode' kc e' nz in (sym l.0 ∙ l'.0, sym l.1 ∙ l'.1)
