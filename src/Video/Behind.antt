-- ===== src/Video/Behind.antt =====
-- How the cursor gets behind the screen.
use sdx.Prelude.{
  ℕ, zero, suc, refl, ap, true, some, arith, ltb, ◌+◌, ◌-◌, ◌*◌, ◌%◌, ◌^◌, ◌<◌, ◌≡◌, ◌∙◌,
}
use sdx.Video.{
  Fb, cursor_pos, fb_scroll, show_cursor, set_cell, cursor_update, wrap_column, cursor_set_pos,
}
use sdx.Video.Screen.{OnScreen}

wrap_column-last : (width y : ℕ) → wrap_column (suc width) width width y ≡ some (width, y)
unfolding wrap_column
wrap_column-last width y = ground arith

scroll_none : (s : Fb) → ltb s.y s.height ≡ true → fb_scroll (suc s.y) s ≡ some s
unfolding fb_scroll
scroll_none s on = rw on refl

before_line : (h w : ℕ) → 0 < h → (h - 1) * w + w ≡ h * w
before_line zero w some_line = absurd (omega (arith, some_line))
before_line (suc h) w some_line =
    let less : suc h - 1 ≡ h = omega arith in ap (λ m. m * w + w) less ∙ omega arith

cursor_pos-behind :
    (s : Fb)
    → OnScreen s
    → cursor_pos (record s { x = s.width; y = s.height - 1 }) ≡ s.height * s.width
unfolding cursor_pos
cursor_pos-behind s on =
    let end = before_line s.height s.width (omega (arith, on.line)) in omega (arith, end, on.area)

show_cursor-color :
    (s : Fb) (p : ℕ)
    → cursor_pos s ≡ p
    → s.cells p % 2 ^ 8 ≡ 0
    → (show_cursor s).cells p ≡ s.color * 2 ^ 8
unfolding show_cursor set_cell
show_cursor-color s p here no_char = rw here ground (arith, no_char)

-- The column behind the last one passes the test of fb_cursor_set_pos: in the last line of the screen,
-- with a first cell behind the screen that has no character, the color is written to that cell.
pub cursor_set_pos-behind :
    (s : Fb)
    → OnScreen s
    → s.cells (s.height * s.width) % 2 ^ 8 ≡ 0
    → (s' : Fb) × (cursor_set_pos s.width (s.height - 1) s ≡ some s')
      × (s'.cells (s.height * s.width) ≡ s.color * 2 ^ 8)
unfolding cursor_set_pos cursor_update
cursor_set_pos-behind s on no_char =
    let t : Fb = record s { x = s.width; y = s.height - 1 } in
    let stays : wrap_column (suc s.width) s.width s.width (s.height - 1)
        ≡ some (s.width, s.height - 1) =
      wrap_column-last s.width (s.height - 1) in
    let on_line : ltb (s.height - 1) s.height ≡ true = ground (arith, on.line) in
    let here : cursor_pos t ≡ s.height * s.width = cursor_pos-behind s on in
    (
      show_cursor t,
      rw (cursor_set_pos, stays) rw (cursor_update, scroll_none t on_line) refl,
      show_cursor-color t (s.height * s.width) here no_char,
    )
