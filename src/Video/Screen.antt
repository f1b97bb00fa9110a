-- ===== src/Video/Screen.antt =====
-- The console stays on the screen.
use native.Mathlib.Nat.{mul-le-mul_right, mul_assoc}
use sdx.Prelude.{
  ℕ, zero, suc, refl, sym, inl, inr, Option, some, arith, ltb, Bool-cases, ◌+◌, ◌-◌, ◌*◌, ◌%◌, ◌^◌,
  ◌≤◌, ◌<◌, ◌≡◌, ◌∙◌, ◌==◌,
}
use sdx.Video.{
  char_pos, fb_write, put_char, cursor_update, Fb, set_cell, cursor_pos, clear_cells, copy_cells,
  move_lines, fb_scroll, show_cursor,
}

-- The cursor is on a screen whose cells have 32-bit numbers.
pub record OnScreen (s : Fb) : Type 0 where
  pub column : s.x < s.width
  pub line : s.y < s.height
  pub area : s.height * s.width < 2 ^ 32

-- The screen is the same one, and the cells behind it are as before.
pub record Kept (s s' : Fb) : Type 0 where
  pub width : s'.width ≡ s.width
  pub height : s'.height ≡ s.height
  pub outside : (i : ℕ) → s.height * s.width ≤ i → s'.cells i ≡ s.cells i

Kept-chain : (a b c : Fb) → Kept a b → Kept b c → Kept a c
Kept-chain a b c k l = record {
  width = l.width ∙ k.width;
  height = l.height ∙ k.height;
  outside = λ i le. l.outside i (rw (k.width, k.height) le) ∙ k.outside i le;
}

set_cell-other : (i value j : ℕ) (cells : ℕ → ℕ) → i < j → set_cell i value cells j ≡ cells j
unfolding set_cell
set_cell-other i value j cells less = ground (arith, less)

clear_cells-outside :
    (count i j : ℕ) (cells : ℕ → ℕ) → i + count ≤ j → clear_cells count i cells j ≡ cells j
unfolding clear_cells
clear_cells-outside zero i j cells le = refl
clear_cells-outside (suc count) i j cells le =
    clear_cells-outside count (i + 1) j (set_cell i 0 cells) (omega (arith, le))
    ∙ set_cell-other i 0 j cells (omega (arith, le))

copy_cells-outside :
    (width count i j : ℕ) (cells : ℕ → ℕ)
    → i + count ≤ j
    → copy_cells width count i cells j ≡ cells j
unfolding copy_cells
copy_cells-outside width zero i j cells le = refl
copy_cells-outside width (suc count) i j cells le =
    copy_cells-outside width count (i + 1) j (set_cell i (cells (i + width)) cells)
      (omega (arith, le))
    ∙ set_cell-other i _ j cells (omega (arith, le))

move_lines-outside :
    (width count line j : ℕ) (cells : ℕ → ℕ)
    → (line + count) * width ≤ j
    → move_lines width count line cells j ≡ cells j
unfolding move_lines
move_lines-outside width zero line j cells le = refl
move_lines-outside width (suc zero) line j cells le =
    clear_cells-outside width (line * width) j cells (omega (arith, le))
move_lines-outside width (suc (suc count)) line j cells le =
    move_lines-outside width (suc count) (line + 1) j (copy_cells width width (line * width) cells)
      (omega (arith, le))
    ∙ copy_cells-outside width width (line * width) j cells (omega (arith, le))

-- Scrolling ends with the cursor's line on the screen.
fb_scroll-Kept :
    (fuel : ℕ) (s : Fb)
    → 0 < s.height
    → s.y < fuel
    → (s' : Fb) × (fb_scroll fuel s ≡ some s') × Kept s s' × (s'.x ≡ s.x) × (s'.y < s'.height)
unfolding fb_scroll
fb_scroll-Kept zero s some_line enough = absurd (omega (arith, enough))
fb_scroll-Kept (suc fuel) s some_line enough = elim (Bool-cases (ltb s.y s.height)) [
  | inl on ↦ (
    s,
    rw on refl,
    record { width = refl; height = refl; outside = λ i le. refl },
    refl,
    ground (arith, on),
  )
  | inr off ↦
      let up : Fb = record s { y = s.y - 1; cells = move_lines s.width s.height 0 s.cells } in
      let first : Kept s up = record {
        width = refl;
        height = refl;
        outside = λ i le. move_lines-outside s.width s.height 0 i s.cells (omega (arith, le));
      } in
      let below : s.height ≤ s.y = ground (arith, off) in
      let (s', eq, kept, same, line) =
        fb_scroll-Kept fuel up some_line (omega (arith, below, some_line, enough)) in
      (s', rw off eq, Kept-chain s up s' first kept, same, line)
]

cell_on : (x y w h : ℕ) → x < w → y < h → y * w + x < h * w
cell_on x y w h column line =
    let lines : suc y * w ≤ h * w = mul-le-mul_right w line in omega (arith, lines, column)

cursor_pos-on : (s : Fb) → OnScreen s → cursor_pos s < s.height * s.width
unfolding cursor_pos
cursor_pos-on s on =
    let less = cell_on s.x s.y s.width s.height on.column on.line in omega (arith, less, on.area)

char_pos-on : (s : Fb) → OnScreen s → char_pos s < s.height * s.width
unfolding char_pos
char_pos-on s on =
    let less = cell_on s.x s.y s.width s.height on.column on.line in
    let bytes : s.y * (s.width * 2) ≡ s.y * s.width * 2 = sym (mul_assoc s.y s.width 2) in
    omega (arith, less, bytes)

show_cursor-Kept : (s : Fb) → OnScreen s → Kept s (show_cursor s)
unfolding show_cursor
show_cursor-Kept s on =
    let less = cursor_pos-on s on in
    record {
      width = refl;
      height = refl;
      outside = λ i le. elim (Bool-cases (s.cells (cursor_pos s) % 2 ^ 8 == 0)) [
        | inl e ↦
            rw e
              (set_cell-other (cursor_pos s) (s.color * 2 ^ 8) i s.cells (omega (arith, le, less)))
        | inr e ↦ rw e refl
      ];
    }

-- A write ends, and leaves the cursor on the same screen and the cells behind the screen alone.
abbrev pub Written : Fb → Option Fb → Type 0
Written s r = (s' : Fb) × (r ≡ some s') × OnScreen s' × Kept s s'

cursor_update-Written :
    (s t : Fb)
    → Kept s t
    → t.x < t.width
    → 0 < t.height
    → t.height * t.width < 2 ^ 32
    → Written s (cursor_update t)
unfolding cursor_update show_cursor
cursor_update-Written s t before column some_line area =
    let (t', eq, kept, same, line) = fb_scroll-Kept (suc t.y) t some_line (omega arith) in
    let on : OnScreen t' = record {
      column = rw (same, kept.width) column;
      line = line;
      area = rw (kept.width, kept.height) area;
    } in
    (
      show_cursor t',
      rw (cursor_update, eq) refl,
      record { column = on.column; line = on.line; area = on.area },
      Kept-chain s t (show_cursor t') before
          (Kept-chain t t' (show_cursor t') kept (show_cursor-Kept t' on)),
    )

moved : (s : Fb) (x y : ℕ) → Kept s (record s { x = x; y = y })
moved s x y = record { width = refl; height = refl; outside = λ i le. refl }

drawn :
    (s : Fb) (x y value : ℕ)
    → OnScreen s
    → Kept s (record s { x = x; y = y; cells = set_cell (char_pos s) value s.cells })
drawn s x y value on = record {
  width = refl;
  height = refl;
  outside =
      λ i le. set_cell-other (char_pos s) value i s.cells (omega (arith, le, char_pos-on s on));
}

put_char-Written : (c : ℕ) (s : Fb) → OnScreen s → Written s (cursor_update (put_char c s))
unfolding put_char
put_char-Written c s on =
    let cells = set_cell (char_pos s) (c + s.color * 2 ^ 8) s.cells in
    let kept = λ (x y : ℕ). drawn s x y (c + s.color * 2 ^ 8) on in
    elim (Bool-cases (ltb (s.width - 1) (s.x + 1))) [
      | inl full ↦ rw full (
          cursor_update-Written s (record s { x = 0; y = s.y + 1; cells = cells })
            (kept 0 (s.y + 1)) (omega (arith, on.column)) (omega (arith, on.line)) on.area)
      | inr more ↦ rw more (
          cursor_update-Written s (record s { x = s.x + 1; cells = cells }) (kept (s.x + 1) s.y)
            (ground (arith, more, on.column)) (omega (arith, on.line)) on.area)
    ]

-- Writing a character, whatever it is, ends: the cursor stays on the screen, also where the text goes
-- on behind the last line, and no cell behind the screen changes.
pub fb_write-Written : (c : ℕ) (s : Fb) → OnScreen s → Written s (fb_write c s)
unfolding fb_write
fb_write-Written c s on =
    let some_line : 0 < s.height = omega (arith, on.line) in
    let some_column : 0 < s.width = omega (arith, on.column) in
    elim (Bool-cases (c == 10)) [
      | inl newline ↦ rw newline (
          cursor_update-Written s (record s { x = 0; y = s.y + 1 }) (moved s 0 (s.y + 1))
            some_column some_line on.area)
      | inr c1 ↦ elim (Bool-cases (c == 13)) [
        | inl return ↦
            rw (c1, return)
              (cursor_update-Written s (record s { x = 0 }) (moved s 0 s.y) some_column some_line
                on.area)
        | inr c2 ↦ elim (Bool-cases (c == 0)) [
          | inl nul ↦ rw (c1, c2, nul) (s, refl, on, moved s s.x s.y)
          | inr c3 ↦ rw (c1, c2, c3) (put_char-Written c s on)
        ]
      ]
    ]
