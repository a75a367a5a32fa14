-- ===== src/Console/Format.antt =====
-- `kprintfstrcol_scr`: the characters that a format prints. The arguments of the caller are a list;
-- `none` where the code reads an argument that is not there or of another kind, or `itoa` leaves its
-- buffer.
pub mod Laws
use lizarx.Prelude.{
  ◌>>=◌, ℕ, ◌+◌, Option, none, some, List, [], ◌∷◌, ◌++◌, ◌==◌, if◌then◌else◌, ◌||◌,
}
use lizarx.Console.{Screen, kputs}
use lizarx.Console.Itoa.{itoa}

-- An argument behind the format: a string, or a machine word.
pub data Arg : Type 0 where
  text : List ℕ → Arg
  word : ℕ → Arg

-- `%s`
abbrev pub take_text : List Arg → Option (List ℕ × List Arg)
take_text (text s ∷ args) = some (s, args)
take_text _ = none

-- `kprintn_scr` of the next argument.
abbrev pub take_word : ℕ → List Arg → Option (List ℕ × List Arg)
take_word base [] = none
take_word base (text s ∷ args) = none
take_word base (word n ∷ args) = itoa n base >>= λ s. some (s, args)

-- The character behind a `%`: what it prints, and the arguments left.
unfoldable pub directive : ℕ → List Arg → Option (List ℕ × List Arg)
directive c args =
    if c == b's'
    then take_text args
    else if c == b'd' || c == b'u'
    then take_word 10 args
    else if c == b'x' || c == b'p'
    then take_word 16 args
    else if c == b'%'
    then some (b'%' ∷ [], args)
    else some (b'%' ∷ c ∷ [], args)

-- The loop over the format, which ends at its NUL, also behind a `%`.
unfoldable pub format : List ℕ → List Arg → Option (List ℕ)
unfolding directive
format [] args = some []
format (c ∷ []) args = some (if c == b'%' then [] else c ∷ [])
format (c ∷ d ∷ fmt) args =
    let plain = format (d ∷ fmt) args >>= λ s. some (c ∷ s) in
    let formatted = directive d args >>= λ r. (format fmt r.1 >>= λ s. some (r.0 ++ s)) in
    if c == b'%' then formatted else plain

-- `kprintfstrcol_scr`: it prints each character by `kput` as it comes.
unfoldable pub kprintf : ℕ → ℕ → List ℕ → List Arg → Screen → Option Screen
kprintf low font fmt args s = format fmt args >>= λ cs. some (kputs low cs font s)
