-- ===== src/Vfs/Search.antt =====
-- Where `find` and `find_last` find a word.
use lizarx.Prelude.{
  ℕ, zero, suc, ◌+◌, ◌-◌, ◌<◌, ◌≤◌, ◌≡◌, ◌≢◌, ◌⊎◌, inl, inr, refl, sym, true, false, if◌then◌else◌,
  arith, ℕ_discrete, Bool-cases,
}
use lizarx.Prelude.Int.{ℤ, pos, minus_one}
use lizarx.Memory.{Memory}
use lizarx.Vfs.{word_from, word_at, find_from, find, find_last_from, find_last}

module _ (bytes : Memory) (at to_search to_search_length : ℕ) where
  word_from-true :
      (left j : ℕ)
      → left + j ≡ to_search_length
      → word_from bytes at to_search to_search_length left j ≡ true
      → (k : ℕ) → j ≤ k
      → k < to_search_length
      → bytes (at + k) ≡ bytes (to_search + k)
  unfolding word_from
  word_from-true zero j e h k lo hi = absurd (omega arith)
  word_from-true (suc left) j e h k lo hi = elim (ℕ_discrete j k) [
    | yes same ↦ rw (sym same) (ground (arith, h))
    | no other ↦ word_from-true left (j + 1) (omega arith) (ground (arith, h)) k (omega arith) hi
  ]

  word_from-false :
      (left j : ℕ)
      → left + j ≡ to_search_length
      → 0 < left
      → word_from bytes at to_search to_search_length left j ≡ false
      → (k : ℕ) × (k < to_search_length) × (bytes (at + k) ≢ bytes (to_search + k))
  unfolding word_from
  word_from-false zero j e lt h = absurd (omega arith)
  word_from-false (suc left) j e lt h = elim (ℕ_discrete (bytes (at + j)) (bytes (to_search + j))) [
    | no differ ↦ (j, omega arith, differ)
    | yes same ↦ word_from-false left (j + 1) (omega arith) (ground (arith, h)) (ground (arith, h))
  ]

module _ (bytes : Memory) (strlen : ℕ → Memory → ℕ) (to_search search_in : ℕ) where
  -- The word is at the place `i` of the name.
  abbrev pub Occurs : ℕ → Type 0
  Occurs i =
      (k : ℕ) → k < strlen to_search bytes → bytes (search_in + i + k) ≡ bytes (to_search + k)

  abbrev pub Fits : ℕ → Type 0
  Fits i = i + strlen to_search bytes ≤ strlen search_in bytes

  at-Occurs : (i : ℕ) → word_at bytes strlen to_search search_in i ≡ true → Occurs i
  at-Occurs i h k less =
      word_from-true bytes (search_in + i) to_search (strlen to_search bytes)
        (strlen to_search bytes) 0 (omega arith) h k (omega arith) less

  at-absent :
      0 < strlen to_search bytes
      → (i : ℕ) → word_at bytes strlen to_search search_in i ≡ false
      → ¬ Occurs i
  at-absent lt i h o =
      let (k, less, differ) =
        word_from-false bytes (search_in + i) to_search (strlen to_search bytes)
          (strlen to_search bytes) 0 (omega arith) lt h in
      differ (o k less)

  -- What a search among the places from `i` on found: the first place of the word, or there is none.
  abbrev pub First : ℕ → ℤ → Type 0
  First i r =
      ((n : ℕ) × (r ≡ pos n) × (i ≤ n) × Fits n × Occurs n × ((k : ℕ) → i ≤ k → k < n → ¬ Occurs k))
      ⊎ ((r ≡ minus_one) × ((k : ℕ) → i ≤ k → Fits k → ¬ Occurs k))

  find_from-First :
      0 < strlen to_search bytes
      → (left i : ℕ)
      → ((left ≡ 0) × (strlen search_in bytes < i + strlen to_search bytes))
        ⊎ (left + i + strlen to_search bytes ≡ strlen search_in bytes + 1)
      → First i (find_from bytes strlen to_search search_in left i)
  unfolding find_from
  find_from-First lt zero i e = inr (refl, λ k lo fits. absurd (ground arith))
  find_from-First lt (suc left) i e =
      elim (Bool-cases (word_at bytes strlen to_search search_in i)) [
        | inl here ↦ rw here (
            inl (
              i,
              refl,
              omega arith,
              ground arith,
              at-Occurs i here,
              λ k lo hi. absurd (omega arith),
            ))
        | inr not_here ↦ rw not_here (elim (find_from-First lt left (i + 1) (ground arith)) [
          | inl (n, r, lo, fits, o, before) ↦ inl (
            n,
            r,
            omega arith,
            fits,
            o,
            λ k lo' hi. elim (ℕ_discrete i k) [
              | yes same ↦ rw (sym same) (at-absent lt i not_here)
              | no other ↦ before k (omega arith) hi
            ],
          )
          | inr (r, absent) ↦ inr (
            r,
            λ k lo' fits. elim (ℕ_discrete i k) [
              | yes same ↦ rw (sym same) (at-absent lt i not_here)
              | no other ↦ absent k (omega arith) fits
            ],
          )
        ])
      ]

  -- For a word that is not empty, `find` returns the first place of the name at which the word is, and -1 only where it is
  -- nowhere in the name.
  pub find-First : 0 < strlen to_search bytes → First 0 (find bytes strlen to_search search_in)
  unfolding find
  find-First lt =
      find_from-First lt (strlen search_in bytes + 1 - strlen to_search bytes) 0 (ground arith)

  -- What a search among the places below `stop` found: the last place of the word, or there is none.
  abbrev pub Last : ℕ → ℤ → Type 0
  Last stop r =
      ((n : ℕ) × (r ≡ pos n) × (n < stop) × Occurs n × ((k : ℕ) → n < k → k < stop → ¬ Occurs k))
      ⊎ ((r ≡ minus_one) × ((k : ℕ) → k < stop → ¬ Occurs k))

  Last-step :
      0 < strlen to_search bytes
      → (i : ℕ) (r : ℤ) → Last i r
      → Last (i + 1) (if word_at bytes strlen to_search search_in i then pos i else r)
  Last-step lt i r l = elim (Bool-cases (word_at bytes strlen to_search search_in i)) [
    | inl here ↦
        rw here (inl (i, refl, omega arith, at-Occurs i here, λ k lo hi. absurd (omega arith)))
    | inr not_here ↦ rw not_here (elim l [
      | inl (n, e, lt', o, behind) ↦ inl (
        n,
        e,
        omega arith,
        o,
        λ k lo hi. elim (ℕ_discrete i k) [
          | yes same ↦ rw (sym same) (at-absent lt i not_here)
          | no other ↦ behind k lo (omega arith)
        ],
      )
      | inr (e, absent) ↦ inr (
        e,
        λ k hi. elim (ℕ_discrete i k) [
          | yes same ↦ rw (sym same) (at-absent lt i not_here)
          | no other ↦ absent k (omega arith)
        ],
      )
    ])
  ]

  find_last_from-Last :
      0 < strlen to_search bytes
      → (left i stop : ℕ) (found_at : ℤ) → i + left ≡ stop
      → Last i found_at
      → Last stop (find_last_from bytes strlen to_search search_in left i found_at)
  unfolding find_last_from
  find_last_from-Last lt zero i stop found_at e l = let e' : stop ≡ i = omega arith in rw e' l
  find_last_from-Last lt (suc left) i stop found_at e l =
      find_last_from-Last lt left (i + 1) stop
        (if word_at bytes strlen to_search search_in i then pos i else found_at) (omega arith)
        (Last-step lt i found_at l)

  -- For a word that is not empty, `find_last` returns the last place of the name at which the word is, and -1 only where it
  -- is nowhere in the name.
  pub find_last-Last :
      0 < strlen to_search bytes
      → Last
          (strlen search_in bytes + 1 - strlen to_search bytes)
          (find_last bytes strlen to_search search_in)
  unfolding find_last
  find_last-Last lt =
      find_last_from-Last lt (strlen search_in bytes + 1 - strlen to_search bytes) 0
        (strlen search_in bytes + 1 - strlen to_search bytes) minus_one (omega arith)
        (inr (refl, λ k hi. absurd (omega arith)))
