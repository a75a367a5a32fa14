-- ===== src/Console/Format/Laws.antt =====
-- What a format prints.
use lizarx.Prelude.{
  ◌>>=◌, ℕ, ◌^◌, ◌≤◌, ◌<◌, ◌≡◌, ◌≢◌, refl, Option, none, some, List, [], ◌∷◌, ◌++◌, ◌==◌,
  if◌then◌else◌, arith, ◌*◌, ◌⊎◌, inl, inr,
}
use lizarx.Console.{Screen, video_x, video_y, kputs}
use lizarx.Console.Bounds.{IsValid, kputs_safe}
use lizarx.Console.Itoa.{itoa}
use lizarx.Console.Itoa.Value.{value, itoa-value, itoa-overflow}
use lizarx.Console.Format.{Arg, word, take_word, directive, format, kprintf}

-- A text with no directive.
abbrev pub NoPercent : List ℕ → Type 0
NoPercent [] = Unit
NoPercent (c ∷ cs) = (c ≢ b'%') × NoPercent cs

-- The directive of a base.
abbrev pub directive_of : ℕ → ℕ
directive_of base = if base == 10 then b'd' else b'x'

-- Text in front of a directive is printed as it stands.
format-text :
    (pre : List ℕ) (d : ℕ) (fmt : List ℕ) (args : List Arg) (s : List ℕ)
    → NoPercent pre
    → format (b'%' ∷ d ∷ fmt) args ≡ some s
    → format (pre ++ (b'%' ∷ d ∷ fmt)) args ≡ some (pre ++ s)
unfolding format
format-text [] d fmt args s p e = e
format-text (c ∷ []) d fmt args s p e = ground (arith, e)
format-text (c ∷ c' ∷ pre) d fmt args s p e =
    ground (arith, format-text (c' ∷ pre) d fmt args s p.1 e)

directive-word :
    (base : ℕ) (n : ℕ) (args : List Arg)
    → (base ≡ 10) ⊎ (base ≡ 16)
    → directive (directive_of base) (word n ∷ args) ≡ take_word base (word n ∷ args)
unfolding directive
directive-word base n args (inl e) = rw e
directive-word base n args (inr e) = rw e

-- The loop at a directive.
format-percent :
    (d : ℕ) (fmt : List ℕ) (args : List Arg)
    → format (b'%' ∷ d ∷ fmt) args
      ≡ (directive d args >>= λ r. (format fmt r.1 >>= λ s. some (r.0 ++ s)))
unfolding format
format-percent d fmt args = refl

-- A number behind text with no `%`: the text, digits that stand for the number, and what the rest of the format
-- prints. This goes for `%d` below 10 ^ 16 and for `%x` on every word.
pub format-word :
    (pre : List ℕ) (base n : ℕ) (fmt : List ℕ) (args : List Arg) (s : List ℕ)
    → NoPercent pre
    → (base ≡ 10) ⊎ (base ≡ 16)
    → n < base ^ 16
    → format fmt args ≡ some s
    → (digits : List ℕ) × (format (pre ++ (b'%' ∷ directive_of base ∷ fmt)) (word n ∷ args)
        ≡ some (pre ++ (digits ++ s)))
      × (value base digits 0 ≡ n)
format-word pre base n fmt args s p b small e =
    let (digits, i, v) = itoa-value n base (omega arith) (omega arith) small in
    (
      digits,
      format-text pre (directive_of base) fmt (word n ∷ args) (digits ++ s) p (printed digits i),
      v,
    )
  where
    printed :
        (digits : List ℕ)
        → itoa n base ≡ some digits
        → format (b'%' ∷ directive_of base ∷ fmt) (word n ∷ args) ≡ some (digits ++ s)
    printed digits i =
        rw (
          format-percent (directive_of base) fmt (word n ∷ args),
          directive-word base n args b,
          i,
          e,
        )

-- `%d` of a number of more than sixteen digits makes `itoa` write in front of its buffer.
pub format-overflow :
    (n : ℕ) (fmt : List ℕ) (args : List Arg)
    → 10 ^ 16 ≤ n
    → format (b'%' ∷ b'd' ∷ fmt) (word n ∷ args) ≡ none
format-overflow n fmt args h = rw (
  format-percent b'd' fmt (word n ∷ args),
  directive-word 10 n args (inl refl),
  itoa-overflow n 10 (omega arith) h,
)

-- `kprintf` never writes a cell behind the screen, and leaves the cursor in range.
pub kprintf_safe :
    (low font : ℕ) (fmt : List ℕ) (args : List Arg) (s t : Screen) (k : ℕ)
    → IsValid s
    → video_x * video_y ≤ k
    → kprintf low font fmt args s ≡ some t
    → IsValid t × (t.video k ≡ s.video k)
unfolding kprintf
kprintf_safe low font fmt args s t k v h e = go (format fmt args) e
  where
    go :
        (r : Option (List ℕ))
        → (r >>= λ cs. some (kputs low cs font s)) ≡ some t
        → IsValid t × (t.video k ≡ s.video k)
    go none e = absurd (ground arith)
    go (some cs) e =
        let same : kputs low cs font s ≡ t = cc in rw (← same) (kputs_safe low font cs s k v h)
