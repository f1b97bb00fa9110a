-- ===== src/Tests/Video.antt =====
-- kernel/video/fb.c at concrete inputs.
use sdx.Prelude.{refl, some, [], arith, ◌-◌, ◌*◌, ◌^◌, ◌≡◌}
use sdx.Video.{Fb, fb_write, cursor_set_pos}
use sdx.Video.Screen.{OnScreen, Written, fb_write-Written}
use sdx.Video.Behind.{cursor_set_pos-behind}
use sdx.Video.Colors.{fg_set, bg_set, fg_get, bg_get, fg_set-bg_set}

-- A screen of three columns and two lines, with the cursor at its last cell.
abbrev screen : Fb
screen = record { width = 3; height = 2; x = 2; y = 1; color = 0x1f; cells = λ i. 0; ports = [] }

on_screen : OnScreen screen
on_screen = record { column = omega arith; line = omega arith; area = omega arith }

fb_write-Written_example : Written screen (fb_write 97 screen)
fb_write-Written_example = fb_write-Written 97 screen on_screen

cursor_set_pos-behind_example :
    (s' : Fb) × (cursor_set_pos 3 (2 - 1) screen ≡ some s') × (s'.cells (2 * 3) ≡ 0x1f * 2 ^ 8)
cursor_set_pos-behind_example = cursor_set_pos-behind screen on_screen refl

abbrev black_screen : Fb
black_screen = record screen { color = 0 }

fg_set-bg_set_example :
    ((s1 : Fb) × (s2 : Fb) × (fg_set 2 black_screen ≡ some s1)
      × (bg_set 3 s1 ≡ some s2)
      × (fg_get s2 ≡ 2)
      × (bg_get s2 ≡ 3))
    × ((t1 : Fb) × (t2 : Fb) × (bg_set 3 black_screen ≡ some t1)
        × (fg_set 2 t1 ≡ some t2)
        × (fg_get t2 ≡ 0)
        × (bg_get t2 ≡ 0))
fg_set-bg_set_example =
    fg_set-bg_set 2 3 black_screen (omega arith) (omega arith) (λ e. omega (arith, e)) (omega arith)
