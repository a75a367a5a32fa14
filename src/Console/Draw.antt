-- ===== src/Console/Draw.antt =====
-- What printed text leaves on the screen.
use lizarx.Prelude.{
  ℕ, zero, suc, ap, dec_lt, ℕ_discrete, ◌+◌, ◌-◌, ◌*◌, ◌^◌, ◌≤◌, ◌<◌, ◌≡◌, ◌≢◌, refl, ◌∙◌, true,
  ◌&&◌, List, [], ◌∷◌, ltb, leb, ◌==◌, if◌then◌else◌, arith, length, get_or,
}
use lizarx.Console.{Screen, video_x, video_y, offset, kput, kputs}

-- A character that `kput` draws.
abbrev pub Plain : ℕ → Type 0
Plain c = (c ≢ b'\n') × (c ≢ b'\t') × (c ≢ 8)

abbrev pub AllPlain : List ℕ → Type 0
AllPlain [] = Unit
AllPlain (c ∷ cs) = Plain c × AllPlain cs

-- The cell of a character.
abbrev pub figure : ℕ → ℕ → ℕ
figure chr font = chr + 2 ^ 8 * font

-- What `kput` did to a screen with room at the cursor.
record Drawn (chr font : ℕ) (s t : Screen) : Type 0 where
  curx : t.curx ≡ s.curx + 1
  cury : t.cury ≡ s.cury
  cell : (k : ℕ) → t.video k ≡ (if k == offset s then figure chr font else s.video k)

kput-Drawn :
    (low chr font : ℕ) (s : Screen)
    → s.curx < video_x
    → s.cury < video_y
    → Plain chr
    → Drawn chr font s (kput low chr font s)
unfolding kput
kput-Drawn low chr font s x y p = record {
  curx = ground arith;
  cury = ground arith;
  cell = λ k. ground arith;
}

get_or-cons : (c : ℕ) (cs : List ℕ) (i : ℕ) → 0 < i → get_or (c ∷ cs) i 0 ≡ get_or cs (i - 1) 0
get_or-cons c cs zero h = absurd (omega arith)
get_or-cons c cs (suc i) h = ap (λ j. get_or cs j 0) (omega arith)

-- The cells `video` with a text drawn from `off` on.
abbrev pub lined : ℕ → List ℕ → ℕ → (ℕ → ℕ) → ℕ → ℕ
lined off cs font video k =
    if leb off k && ltb k (off + length cs) then figure (get_or cs (k - off) 0) font else video k

lined-cons :
    (off c font : ℕ) (cs : List ℕ) (video : ℕ → ℕ) (k v : ℕ)
    → v ≡ (if k == off then figure c font else video k)
    → (if leb (off + 1) k && ltb k (off + 1 + length cs)
        then figure (get_or cs (k - (off + 1)) 0) font
        else v)
      ≡ lined off (c ∷ cs) font video k
lined-cons off c font cs video k v e = elim (dec_lt off k) [
  | yes behind ↦
      let i : k - off - 1 ≡ k - (off + 1) = omega arith in
      rw (get_or-cons c cs (k - off) (omega arith), i) (ground arith)
  | no before ↦ elim (ℕ_discrete k off) [
    | yes here ↦ let z : k - off ≡ 0 = omega arith in rw z (ground arith)
    | no ne ↦ ground arith
  ]
]

-- A text of plain characters that fits into the rest of the line is drawn from the cursor on, the cursor stands behind it on the
-- same line, and no other cell changes.
pub kputs-line :
    (low font : ℕ) (cs : List ℕ) (s : Screen) (k : ℕ)
    → s.curx + length cs ≤ video_x
    → s.cury < video_y
    → AllPlain cs
    → let t = kputs low cs font s in
      (t.curx ≡ s.curx + length cs)
      × (t.cury ≡ s.cury)
      × (t.video k ≡ lined (offset s) cs font s.video k)
unfolding kputs
kputs-line low font [] s k x y p = (omega arith, refl, ground arith)
kputs-line low font (c ∷ cs) s k x y p =
    let d = kput-Drawn low c font s (omega arith) y p.0 in
    let r =
      kputs-line low font cs (kput low c font s) k (omega (arith, d.curx)) (omega (arith, d.cury))
        p.1 in
    let at : offset (kput low c font s) ≡ offset s + 1 = omega (arith, d.curx, d.cury) in
    (
      omega (arith, r.0, d.curx),
      omega (arith, r.1, d.cury),
      (rw at at r.2)
          ∙ lined-cons (offset s) c font cs s.video k ((kput low c font s).video k) (d.cell k),
    )

-- A plain character behind the last cell of the screen: every line goes up by one, the last line is cleared, and the character
-- stands at its start.
pub kput-scrolls :
    (low chr font : ℕ) (s : Screen) (k : ℕ)
    → s.scr_enb ≡ true
    → s.curx ≡ video_x
    → s.cury ≡ video_y - 1
    → Plain chr
    → let t = kput low chr font s in
      (t.curx ≡ 1)
      × (t.cury ≡ video_y - 1)
      × (t.video k ≡ (
          if k == video_x * (video_y - 1)
          then figure chr font
          else if ltb k (video_x * (video_y - 1))
          then s.video (k + video_x)
          else if ltb k (video_x * video_y)
          then 0
          else s.video k))
unfolding kput
kput-scrolls low chr font s k e x y p = (ground arith, ground arith, ground arith)
