-- ===== src/Console/Tests.antt =====
-- Runs of the console, and its theorems on a cleared screen and at its last cell.
use lizarx.Prelude.{◌≡◌, refl, true, some, [], ◌∷◌, arith}
use lizarx.Console.{Screen, clrscr, kput, kputs}
use lizarx.Console.Bounds.{IsValid, kputs_safe}
use lizarx.Console.Itoa.{itoa}
use lizarx.Console.Format.{text, word, format}

abbrev noise : Screen
noise = record { curx = 7; cury = 3; scr_enb = true; video = λ k. k }

abbrev corner : Screen
corner = record { curx = 80; cury = 24; scr_enb = true; video = λ k. k }

noise-IsValid : IsValid noise
noise-IsValid = record { scrolls = refl; column = omega arith; row = omega arith }

corner-IsValid : IsValid corner
corner-IsValid = record { scrolls = refl; column = omega arith; row = omega arith }

cleared : ((clrscr 15 0 noise).video 5 ≡ 15) × ((clrscr 15 0 noise).cury ≡ 0)
unfolding clrscr
cleared = (refl, refl)

tab : ((kputs 0 (b'a' ∷ b'\t' ∷ b'b' ∷ []) 15 noise).curx ≡ 17) × ((kput 0 8 15 noise).curx ≡ 6)
unfolding kput kputs
tab = (refl, refl)

digits :
    (itoa 2026 10 ≡ some (b'2' ∷ b'0' ∷ b'2' ∷ b'6' ∷ []))
    × (itoa 0xbe 16 ≡ some (b'b' ∷ b'e' ∷ []))
unfolding itoa
digits = (refl, refl)

printed :
    format (b'r' ∷ b'%' ∷ b's' ∷ b'%' ∷ b'd' ∷ b'%' ∷ []) (text (b'i' ∷ []) ∷ word 14 ∷ [])
    ≡ some (b'r' ∷ b'i' ∷ b'1' ∷ b'4' ∷ [])
unfolding format itoa
printed = refl

kputs_safe_example :
    IsValid (kputs 0 (b'x' ∷ b'\n' ∷ []) 15 corner)
    × ((kputs 0 (b'x' ∷ b'\n' ∷ []) 15 corner).video 2000 ≡ 2000)
kputs_safe_example = kputs_safe 0 15 (b'x' ∷ b'\n' ∷ []) corner 2000 corner-IsValid (omega arith)
