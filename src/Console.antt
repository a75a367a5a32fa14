-- ===== src/Console.antt =====
-- src/kernel/drv/vga-txt_graphics/vram.c: the text console. A cell of the video memory is a 16-bit
-- `figure`, the character in the low byte and the attribute in the high one; `video` gives the cell at
-- each offset from 0xB8000, also behind the screen.
pub mod Bounds
pub mod Draw
pub mod Format
pub mod Itoa
mod Tests
use Prim.Native.Nat.{bit_or}
use lizarx.Prelude.{
  ℕ, ◌+◌, ◌-◌, ◌*◌, ◌/◌, ◌%◌, ◌^◌, ◌≤◌, Bool, true, false, not, ◌&&◌, ◌||◌, List, [], ◌∷◌, ltb, leb,
  ◌==◌, if◌then◌else◌,
}

-- VIDEO_X and VIDEO_Y
abbrev pub video_x : ℕ
video_x = 80

abbrev pub video_y : ℕ
video_y = 25

-- The variables `curx`, `cury` (`uint8_t`), `scr_enb` and the video memory.
pub record Screen : Type 0 where
  pub curx : ℕ
  pub cury : ℕ
  pub scr_enb : Bool
  pub video : ℕ → ℕ

-- `newline`
unfoldable pub newline : Screen → Screen
newline s = record s { curx = 0; cury = (s.cury + 1) % 2 ^ 8 }

-- `scroll(by)`: the cells go up by `by` lines, and the last lines are cleared.
unfoldable pub scroll : ℕ → Screen → Screen
scroll by s = record s {
  video = λ k.
      if ltb k (video_x * video_y - video_x * by)
      then s.video (k + video_x * by)
      else if ltb k (video_x * video_y)
      then 0
      else s.video k;
}

-- `clrscr`
unfoldable pub clrscr : ℕ → ℕ → Screen → Screen
clrscr forgcol backcol s = record s {
  curx = 0;
  cury = 0;
  video = λ k.
      if ltb k (video_x * video_y) then bit_or forgcol (backcol / 2 ^ 4) % 2 ^ 16 else s.video k;
}

-- The cell that the cursor stands on.
abbrev pub offset : Screen → ℕ
offset s = s.cury * video_x + s.curx

-- A cell of the video memory is written.
abbrev pub draw : ℕ → ℕ → Screen → Screen
draw at fig s = record s { video = λ k. if k == at then fig else s.video k }

-- What `kput` does before it looks at the character: the line is ended, the screen scrolled.
unfoldable pub make_room : Screen → Screen
unfolding newline scroll
make_room s =
    let s' = if leb video_x s.curx && ltb s.cury (video_y - 1) then newline s else s in
    if s'.scr_enb && s'.cury == video_y
    then record (scroll 1 s') { cury = s'.cury - 1; curx = 0 }
    else if s'.scr_enb && (s'.cury == video_y - 1 && s'.curx == video_x)
    then record (scroll 1 s') { curx = 0 }
    else s'

-- The rest of `kput`. A backspace copies the cell that lies at the address 0, `low`.
unfoldable pub put_char : ℕ → ℕ → ℕ → Screen → Screen
unfolding newline
put_char low chr font s =
    if chr == b'\n'
    then newline s
    else if chr == b'\t'
    then record s { curx = (s.curx - s.curx % 8 + 8) % 2 ^ 8 }
    else if chr == 8
    then (let s' = if s.curx == 0 then s else record s { curx = s.curx - 1 } in
        draw (offset s') low s')
    else record (draw (offset s) (chr + 2 ^ 8 * font) s) { curx = (s.curx + 1) % 2 ^ 8 }

-- `kput`, for a character and an attribute of one byte.
unfoldable pub kput : ℕ → ℕ → ℕ → Screen → Screen
unfolding make_room put_char
kput low chr font s = put_char low chr font (make_room s)

-- `kputs`, on the characters before the final NUL.
unfoldable pub kputs : ℕ → List ℕ → ℕ → Screen → Screen
unfolding kput
kputs low [] font s = s
kputs low (c ∷ cs) font s = kputs low cs font (kput low c font s)
