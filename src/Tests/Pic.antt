-- ===== src/Tests/Pic.antt =====
-- kernel/core/pic.c at concrete inputs.
use sdx.Prelude.{ℕ, refl, true, ◌≡◌}
use sdx.Pic.{Io, pic_init, out8_each, add_handlers}

-- Ports that all read and write one byte.
abbrev one_byte : Io
one_byte = record {
  State = ℕ;
  in8 = λ port s. s;
  out8_wait = λ port value s. (true, value);
  add_handler = λ vector s. s;
}

init_run : pic_init one_byte 0 ≡ (true, 1)
unfolding pic_init out8_each add_handlers
init_run = refl
