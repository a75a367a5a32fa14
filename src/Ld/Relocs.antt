-- ===== src/Ld/Relocs.antt =====
-- What a loop over relocations writes.
use mathlib.Core.Path.{subst}
use lizarx.Prelude.{
  ◌-◌, ◌*◌, ◌/◌, ◌⊎◌, ◌&&◌, ltb, leb, ℕ, zero, suc, ◌+◌, ◌%◌, ◌^◌, ◌<◌, ◌≤◌, ◌≡◌, ◌≢◌, inl, inr,
  refl, ap, sym, ◌∙◌, Bool, true, Option, none, some, if◌then◌else◌, arith, ℕ_discrete, Bool-cases,
}
use lizarx.Ld.{ElfRela, rel_type, rel_bind, put_word, fill_field, resolve_from}

put_word-other :
    (at w : ℕ) (bytes : ℕ → ℕ) (a : ℕ) → (a < at) ⊎ (at + 8 ≤ a) → put_word at w bytes a ≡ bytes a
unfolding put_word
put_word-other at w bytes a away = ground arith

put_word-own :
    (at w : ℕ) (bytes : ℕ → ℕ) (k : ℕ)
    → k < 8
    → put_word at w bytes (at + k) ≡ w / 2 ^ (8 * k) % 2 ^ 8
unfolding put_word
put_word-own at w bytes k lt =
    let inside : (leb at (at + k) && ltb (at + k) (at + 8)) ≡ true = ground arith in
    let off : at + k - at ≡ k = omega arith in rw (inside, off) refl

module _ (accepts : ℕ → Bool) (entry_at : ℕ → ElfRela) (value : ℕ → Option ℕ)
    (runtime_addr : ℕ) where
  -- The field of a relocation.
  abbrev pub field : ℕ → ℕ
  field j = ((entry_at j).offset + runtime_addr) % 2 ^ 64

  abbrev pub applies : ℕ → Bool
  applies j = accepts (rel_type (entry_at j).info)

  -- No relocation from `i` up to `stop` whose symbol is found writes to the byte at `a`.
  abbrev pub Untouched : ℕ → ℕ → ℕ → Type 0
  Untouched i stop a =
      (j : ℕ)
      → i ≤ j
      → j < stop
      → applies j ≡ true
      → value (rel_bind (entry_at j).info) ≢ none
      → (a < field j) ⊎ (field j + 8 ≤ a)

  -- The bytes after the relocations from `i` up to `stop`: those of each field, unless a later relocation wrote there too, and
  -- the others as they were.
  pub record Resolved (i stop : ℕ) (bytes : ℕ → ℕ) (r : Option (ℕ → ℕ)) : Type 0 where
    pub after : ℕ → ℕ
    pub result : r ≡ some after
    pub filled :
        (j v k : ℕ)
        → i ≤ j
        → j < stop
        → applies j ≡ true
        → value (rel_bind (entry_at j).info) ≡ some v
        → k < 8
        → Untouched (j + 1) stop (field j + k)
        → after (field j + k) ≡ (v + (entry_at j).addend) % 2 ^ 64 / 2 ^ (8 * k) % 2 ^ 8
    pub frame : (a : ℕ) → Untouched i stop a → after a ≡ bytes a

  -- The bytes after the relocation `i`.
  abbrev stepped : ℕ → (ℕ → ℕ) → ℕ → ℕ
  stepped i bytes =
      if applies i
      then fill_field (field i) (entry_at i).addend bytes (value (rel_bind (entry_at i).info))
      else bytes

  stepped-other :
      (i : ℕ) (bytes : ℕ → ℕ) (a : ℕ)
      → (applies i ≡ true
          → value (rel_bind (entry_at i).info) ≢ none
          → (a < field i) ⊎ (field i + 8 ≤ a))
      → stepped i bytes a ≡ bytes a
  stepped-other i bytes a away = elim (Bool-cases (applies i)) [
    | inr off ↦ rw off refl
    | inl on ↦ rw on (filled_other (value (rel_bind (entry_at i).info)) (away on))
  ]
    where
      filled_other :
          (v : Option ℕ)
          → (v ≢ none → (a < field i) ⊎ (field i + 8 ≤ a))
          → fill_field (field i) (entry_at i).addend bytes v a ≡ bytes a
      filled_other none d = refl
      filled_other (some v) d =
          put_word-other (field i) ((v + (entry_at i).addend) % 2 ^ 64) bytes a
            (d (λ e. ground (arith, e)))

  stepped-own :
      (i : ℕ) (bytes : ℕ → ℕ) (v k : ℕ)
      → applies i ≡ true
      → value (rel_bind (entry_at i).info) ≡ some v
      → k < 8
      → stepped i bytes (field i + k) ≡ (v + (entry_at i).addend) % 2 ^ 64 / 2 ^ (8 * k) % 2 ^ 8
  stepped-own i bytes v k on e lt =
      rw (on, e) (put_word-own (field i) ((v + (entry_at i).addend) % 2 ^ 64) bytes k lt)

  then-Resolved :
      (i stop : ℕ) (bytes : ℕ → ℕ) (r : Option (ℕ → ℕ))
      → i < stop
      → Resolved (i + 1) stop (stepped i bytes) r
      → Resolved i stop bytes r
  then-Resolved i stop bytes r lt d = record {
    after = d.after;
    result = d.result;
    filled = λ j v k le lt' on e small clear. elim (ℕ_discrete j i) [
      | yes same ↦
          let on' : applies i ≡ true = ap applies (sym same) ∙ on in
          let e' : value (rel_bind (entry_at i).info) ≡ some v =
            ap (λ k. value (rel_bind (entry_at k).info)) (sym same) ∙ e in
          let at : field j + k ≡ field i + k = ap (λ j. field j + k) same in
          let clear' : Untouched (i + 1) stop (field i + k) =
            subst (λ j. Untouched (j + 1) stop (field j + k)) same clear in
          ap d.after at
          ∙ d.frame (field i + k) clear'
          ∙ stepped-own i bytes v k on' e' small
          ∙ ap (λ j. (v + (entry_at j).addend) % 2 ^ 64 / 2 ^ (8 * k) % 2 ^ 8) (sym same)
      | no differ ↦ d.filled j v k (omega (arith, differ, le)) lt' on e small clear
    ];
    frame = λ a clear.
        d.frame a (λ j le lt' on. clear j (omega arith) lt' on)
        ∙ stepped-other i bytes a (λ on. clear i (omega arith) lt on);
  }

  -- A loop over relocations which are fewer than 2 ^ 31, where the search for every symbol ends, ends as well. Each byte of
  -- the field of a relocation of the right type whose symbol was found then holds that byte of the value of
  -- the symbol and the addend, unless a later one with a symbol that was found wrote there too. Every byte
  -- that is not in the field of such a relocation is as it was.
  pub resolve_from-Resolved :
      (find : ℕ → Option (Option ℕ)) (n i : ℕ) (bytes : ℕ → ℕ)
      → ((k : ℕ) → find k ≡ some (value k))
      → i + n < 2 ^ 31
      → Resolved i (i + n) bytes (resolve_from accepts entry_at find runtime_addr n i bytes)
  unfolding resolve_from
  resolve_from-Resolved find zero i bytes total small = record {
    after = bytes;
    result = refl;
    filled = λ j v k le lt on e eight clear. absurd (omega arith);
    frame = λ a clear. refl;
  }
  resolve_from-Resolved find (suc n) i bytes total small =
      let rest = resolve_from-Resolved find n (i + 1) (stepped i bytes) total (omega arith) in
      let moved : i + 1 + n ≡ i + suc n = omega arith in
      let rest' : Resolved (i + 1) (i + suc n) (stepped i bytes)
          (resolve_from accepts entry_at find runtime_addr n (i + 1) (stepped i bytes)) =
        rw (sym moved) rest in
      let counts : ltb (i + 1) (2 ^ 31) ≡ true = ground arith in
      let step : resolve_from accepts entry_at find runtime_addr (suc n) i bytes
          ≡ resolve_from accepts entry_at find runtime_addr n (i + 1) (stepped i bytes) =
        elim (Bool-cases (applies i)) [
          | inl on ↦ rw (counts, resolve_from, on, total (rel_bind (entry_at i).info)) refl
          | inr off ↦ rw (counts, resolve_from, off) refl
        ] in
      then-Resolved i (i + suc n) bytes
        (resolve_from accepts entry_at find runtime_addr (suc n) i bytes) (omega arith)
        (rw step rest')
