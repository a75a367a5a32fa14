-- ===== src/Console/Bounds.antt =====
-- The cursor stays on the screen or at its edges, and nothing behind the screen is written.
use lizarx.Prelude.{ℕ, ◌*◌, ◌≤◌, ◌<◌, ◌≡◌, refl, ◌∙◌, true, List, [], ◌∷◌, arith}
use lizarx.Console.{Screen, video_x, video_y, make_room, put_char, kput, kputs}

-- Scrolling is on, and the cursor is at most one step off the screen.
pub record IsValid (s : Screen) : Type 0 where
  pub scrolls : s.scr_enb ≡ true
  pub column : s.curx ≤ video_x
  pub row : s.cury ≤ video_y

-- The cursor stands on a cell of the screen.
record IsReady (s : Screen) : Type 0 where
  scrolls : s.scr_enb ≡ true
  column : s.curx < video_x
  row : s.cury < video_y

make_room-IsReady : (s : Screen) → IsValid s → IsReady (make_room s)
unfolding make_room
make_room-IsReady s v = ground arith

make_room-behind : (s : Screen) (k : ℕ) → video_x * video_y ≤ k → (make_room s).video k ≡ s.video k
unfolding make_room
make_room-behind s k h = ground arith

put_char-IsValid : (low chr font : ℕ) (s : Screen) → IsReady s → IsValid (put_char low chr font s)
unfolding put_char
put_char-IsValid low chr font s r = ground arith

put_char-behind :
    (low chr font : ℕ) (s : Screen) (k : ℕ)
    → IsReady s
    → video_x * video_y ≤ k
    → (put_char low chr font s).video k ≡ s.video k
unfolding put_char
put_char-behind low chr font s k r h = ground arith

-- `kput` keeps the cursor in range.
pub kput-IsValid : (low chr font : ℕ) (s : Screen) → IsValid s → IsValid (kput low chr font s)
unfolding kput
kput-IsValid low chr font s v = put_char-IsValid low chr font (make_room s) (make_room-IsReady s v)

kput-behind :
    (low chr font : ℕ) (s : Screen) (k : ℕ)
    → IsValid s
    → video_x * video_y ≤ k
    → (kput low chr font s).video k ≡ s.video k
unfolding kput
kput-behind low chr font s k v h =
    put_char-behind low chr font (make_room s) k (make_room-IsReady s v) h ∙ make_room-behind s k h

-- Whatever text is printed, with tabs, line ends and backspaces, the cursor stays in range and no cell behind the screen is written.
pub kputs_safe :
    (low font : ℕ) (cs : List ℕ) (s : Screen) (k : ℕ)
    → IsValid s
    → video_x * video_y ≤ k
    → IsValid (kputs low cs font s) × ((kputs low cs font s).video k ≡ s.video k)
unfolding kputs
kputs_safe low font [] s k v h = (v, refl)
kputs_safe low font (c ∷ cs) s k v h =
    let r = kputs_safe low font cs (kput low c font s) k (kput-IsValid low c font s v) h in
    (r.0, r.1 ∙ kput-behind low c font s k v h)
