-- ===== src/Video.antt =====
-- The text console on a framebuffer: kernel/video/fb.c. The framebuffer is a function from positions to
-- 16-bit cells, a character with its color; numbers of `struct fb_data` are below 2^32, and color below
-- 2^8. The ports that move the cursor are a list of what is written to them.
pub mod Screen
pub mod Behind
pub mod Colors
use sdx.Prelude.{
  ℕ, zero, suc, Option, none, some, List, ltb, ◌+◌, ◌-◌, ◌*◌, ◌/◌, ◌%◌, ◌^◌, ◌∷◌, ◌==◌,
  if◌then◌else◌,
}

-- `struct fb_data`, with the cells at `addr` and the written ports, the last one first.
pub record Fb : Type 0 where
  pub width : ℕ
  pub height : ℕ
  pub x : ℕ
  pub y : ℕ
  pub color : ℕ
  pub cells : ℕ → ℕ
  pub ports : List (ℕ × ℕ)

abbrev pub u32 : ℕ → ℕ
u32 n = n % 2 ^ 32

unfoldable pub set_cell : (i value : ℕ) → (ℕ → ℕ) → ℕ → ℕ
set_cell i value cells j = if j == i then value else cells j

-- `__fb_cursor_pos`
unfoldable pub cursor_pos : Fb → ℕ
cursor_pos s = u32 (s.y * s.width + s.x)

-- The cell of `__fb_pos`, a position in bytes, of which a cell has two.
unfoldable pub char_pos : Fb → ℕ
char_pos s = u32 (s.y * (s.width * 2) + s.x * 2) / 2

-- A loop that clears `count` cells from one on.
unfoldable pub clear_cells : (count i : ℕ) → (ℕ → ℕ) → ℕ → ℕ
clear_cells zero i cells = cells
clear_cells (suc count) i cells = clear_cells count (i + 1) (set_cell i 0 cells)

-- `fb_clear`
unfoldable pub fb_clear : Fb → Fb
fb_clear s = record s { x = 0; y = 0; cells = clear_cells (u32 (s.width * s.height)) 0 s.cells }

-- The loop that moves `count` cells from one on up by a line.
unfoldable pub copy_cells : (width count i : ℕ) → (ℕ → ℕ) → ℕ → ℕ
copy_cells width zero i cells = cells
copy_cells width (suc count) i cells =
    copy_cells width count (i + 1) (set_cell i (cells (i + width)) cells)

-- The loop over `count` lines from one on; the last line is cleared.
unfoldable pub move_lines : (width count line : ℕ) → (ℕ → ℕ) → ℕ → ℕ
move_lines width zero line cells = cells
move_lines width (suc zero) line cells = clear_cells width (line * width) cells
move_lines width (suc (suc count)) line cells =
    move_lines width (suc count) (line + 1) (copy_cells width width (line * width) cells)

-- `__fb_scroll`; `none` where the fuel runs out.
unfoldable pub fb_scroll : (fuel : ℕ) → Fb → Option Fb
fb_scroll zero s = none
fb_scroll (suc fuel) s =
    let rest =
      fb_scroll fuel (record s { y = s.y - 1; cells = move_lines s.width s.height 0 s.cells }) in
    if ltb s.y s.height then some s else rest

-- `__fb_cursor_update` after the scrolling: the color of an empty cell, and the ports of the cursor.
unfoldable pub show_cursor : Fb → Fb
show_cursor s =
    let p = cursor_pos s in
    record s {
      cells = if s.cells p % 2 ^ 8 == 0 then set_cell p (s.color * 2 ^ 8) s.cells else s.cells;
      ports =
          (0x3D5, p / 2 ^ 8 % 2 ^ 8) ∷ (0x3D4, 0x0E) ∷ (0x3D5, p % 2 ^ 8) ∷ (0x3D4, 0x0F) ∷ s.ports;
    }

-- `__fb_cursor_update`: scrolling takes a line off at a time.
unfoldable pub cursor_update : Fb → Option Fb
cursor_update s = elim (fb_scroll (suc s.y) s) [ none ↦ none | some s' ↦ some (show_cursor s') ]

-- The branch of fb_write for a character that is shown.
unfoldable pub put_char : (c : ℕ) → Fb → Fb
put_char c s =
    let cells = set_cell (char_pos s) (c + s.color * 2 ^ 8) s.cells in
    if ltb (s.width - 1) (s.x + 1)
    then record s { x = 0; y = s.y + 1; cells = cells }
    else record s { x = s.x + 1; cells = cells }

-- `fb_write`
unfoldable pub fb_write : (c : ℕ) → Fb → Option Fb
fb_write c s =
    if c == 10
    then cursor_update (record s { x = 0; y = s.y + 1 })
    else if c == 13
    then cursor_update (record s { x = 0 })
    else if c == 0
    then some s
    else cursor_update (put_char c s)

-- The loop of fb_cursor_set_pos: the column and the line.
unfoldable pub wrap_column : (fuel width x y : ℕ) → Option (ℕ × ℕ)
wrap_column zero width x y = none
wrap_column (suc fuel) width x y =
    let rest = wrap_column fuel width (x - width) (y + 1) in
    if ltb width x then rest else some (x, y)

-- `fb_cursor_set_pos`
unfoldable pub cursor_set_pos : (x y : ℕ) → Fb → Option Fb
cursor_set_pos x y s = elim (wrap_column (suc x) s.width x y) [
  | none ↦ none
  | some (x', y') ↦ cursor_update (record s { x = x'; y = y' })
]

-- `fb_cursor_get_pos`: the column twice.
unfoldable pub cursor_get_pos : Fb → ℕ × ℕ
cursor_get_pos s = (s.x, s.x)
