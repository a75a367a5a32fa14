-- ===== src/Memory/Strings.antt =====
-- src/kernel/lib/string.c: `strlen` and `strcmp`. A loop that runs longer than its rounds is `none`.
use lizarx.Prelude.{
  ℕ, zero, suc, ◌+◌, ◌-◌, ◌<◌, ◌≡◌, ◌≢◌, ◌⊎◌, inl, inr, refl, ap, ◌∙◌, false, not, ◌&&◌, ◌==◌, leb,
  Option, none, some, List, [], ◌∷◌, length, arith, if◌then◌else◌, Bool-cases,
}
use lizarx.Prelude.Int.{ℤ, pos, negsuc}
use lizarx.Memory.{Memory}

-- The loop of `strlen` with `n` letters behind it, and `strlen`.
unfoldable pub strlen_from : ℕ → ℕ → ℕ → Memory → Option ℕ
strlen_from zero s n m = none
strlen_from (suc rounds) s n m =
    let rest = strlen_from rounds (s + 1) (n + 1) m in if m s == 0 then some n else rest

unfoldable pub strlen : ℕ → ℕ → Memory → Option ℕ
unfolding strlen_from
strlen rounds s m = strlen_from rounds s 0 m

-- `a - b` of two bytes, an `int`.
abbrev pub difference : ℕ → ℕ → ℤ
difference a b = if leb b a then pos (a - b) else negsuc (b - a - 1)

-- `strcmp`
unfoldable pub strcmp : ℕ → ℕ → ℕ → Memory → Option ℤ
strcmp zero s1 s2 m = none
strcmp (suc rounds) s1 s2 m =
    let rest = strcmp rounds (s1 + 1) (s2 + 1) m in
    if not (m s1 == 0) && m s1 == m s2 then rest else some (difference (m s1) (m s2))

-- A string of C.
abbrev pub IsString : (ℕ → ℕ) → ℕ → List ℕ → Type 0
IsString bytes p [] = bytes p ≡ 0
IsString bytes p (x ∷ xs) = (bytes p ≡ x) × (x ≢ 0) × IsString bytes (p + 1) xs

strlen_from-length :
    (rounds s n : ℕ) (m : Memory) (xs : List ℕ)
    → IsString m s xs
    → length xs < rounds
    → strlen_from rounds s n m ≡ some (n + length xs)
unfolding strlen_from
strlen_from-length zero s n m xs h lt = absurd (omega arith)
strlen_from-length (suc rounds) s n m [] h lt = ground (arith, h)
strlen_from-length (suc rounds) s n m (x ∷ xs) h lt =
    ground (arith, h.0, h.1, strlen_from-length rounds (s + 1) (n + 1) m xs h.2 (omega arith))

-- `strlen` of a string counts its letters, with a round more than it has.
pub strlen-length :
    (rounds s : ℕ) (m : Memory) (xs : List ℕ)
    → IsString m s xs
    → length xs < rounds
    → strlen rounds s m ≡ some (length xs)
unfolding strlen
strlen-length rounds s m xs h lt = strlen_from-length rounds s 0 m xs h lt ∙ ap some (omega arith)

-- The order of a dictionary.
abbrev pub Less : List ℕ → List ℕ → Type 0
Less [] [] = ⊥
Less [] (y ∷ ys) = Unit
Less (x ∷ xs) [] = ⊥
Less (x ∷ xs) (y ∷ ys) = (x < y) ⊎ ((x ≡ y) × Less xs ys)

abbrev pub IsNegative : ℤ → Type 0
IsNegative (pos n) = ⊥
IsNegative (negsuc n) = Unit

-- What a difference says of two strings.
pub record Compared (xs ys : List ℕ) (d : ℤ) : Type 0 where
  pub same : d ≡ pos 0 → xs ≡ ys
  pub equal : xs ≡ ys → d ≡ pos 0
  pub less : IsNegative d → Less xs ys
  pub negative : Less xs ys → IsNegative d

-- Two first letters that differ settle it.
settled : (x y : ℕ) (xs ys : List ℕ) → x ≢ y → Compared (x ∷ xs) (y ∷ ys) (difference x y)
settled x y xs ys ne = elim (Bool-cases (leb y x)) [
  | inl above ↦ rw above (record {
    same = λ d. absurd (ground (arith, above, d, ne));
    equal = λ e. absurd (ne (heads e));
    less = λ none. absurd none;
    negative =
        λ l. elim l [ inl lt ↦ absurd (ground (arith, above, lt)) | inr (e, rest) ↦ absurd (ne e) ];
  })
  | inr below ↦ rw below (record {
    same = λ d. absurd (ground (arith, d));
    equal = λ e. absurd (ne (heads e));
    less = λ t. inl (ground (arith, below));
    negative = λ l. tt;
  })
]
  where
    heads : x ∷ xs ≡ y ∷ ys → x ≡ y
    heads e = ground (arith, e)

-- Two first letters that are the same leave it to the rest.
Compared-cons :
    (x y : ℕ) (xs ys : List ℕ) (d : ℤ) → x ≡ y → Compared xs ys d → Compared (x ∷ xs) (y ∷ ys) d
Compared-cons x y xs ys d e c = record {
  same = λ z. cc (e, c.same z);
  equal = λ w. c.equal (ground (arith, w));
  less = λ l. inr (e, c.less l);
  negative =
      λ l. elim l [ inl lt ↦ absurd (omega (arith, lt, e)) | inr (_, rest) ↦ c.negative rest ];
}

-- `strcmp` of two strings of bytes returns, with a round more than the first one has letters: 0 exactly if they are the
-- same, and a negative number exactly if the first one comes before the second one in the order of a dictionary.
pub strcmp-Compared :
    (rounds s1 s2 : ℕ) (m : Memory) (xs ys : List ℕ)
    → IsString m s1 xs
    → IsString m s2 ys
    → length xs < rounds
    → (d : ℤ) × (strcmp rounds s1 s2 m ≡ some d) × Compared xs ys d
unfolding strcmp
strcmp-Compared zero s1 s2 m xs ys h h' lt = absurd (omega arith)
strcmp-Compared (suc rounds) s1 s2 m [] [] h h' lt = (
  pos 0,
  ground (arith, h, h'),
  record { same = λ d. refl; equal = λ e. refl; less = λ n. n; negative = λ n. n },
)
strcmp-Compared (suc rounds) s1 s2 m [] (y ∷ ys) h h' lt = (
  negsuc (y - 1),
  ground (arith, h, h'.0, h'.1),
  record {
    same = λ d. absurd (ground (arith, d));
    equal = λ e. absurd (ground (arith, e));
    less = λ n. tt;
    negative = λ n. tt;
  },
)
strcmp-Compared (suc rounds) s1 s2 m (x ∷ xs) [] h h' lt = (
  pos x,
  ground (arith, h.0, h.1, h'),
  record {
    same = λ d. absurd (ground (arith, d, h.1));
    equal = λ e. absurd (ground (arith, e));
    less = λ n. n;
    negative = λ n. n;
  },
)
strcmp-Compared (suc rounds) s1 s2 m (x ∷ xs) (y ∷ ys) h h' lt =
    let live : (m s1 == 0) ≡ false = ground (arith, h.0, h.1) in
    elim (Bool-cases (m s1 == m s2)) [
      | inl e ↦
          let (d, found, c) =
            strcmp-Compared rounds (s1 + 1) (s2 + 1) m xs ys h.2 h'.2 (omega arith) in
          (d, rw (live, e) found, Compared-cons x y xs ys d (ground (arith, e, h.0, h'.0)) c)
      | inr ne ↦ (
        difference x y,
        rw (live, ne, h.0, h'.0) refl,
        settled x y xs ys (ground (arith, ne, h.0, h'.0)),
      )
    ]
