-- ===== src/Video/Colors.antt =====
-- The colors of kernel/video/fb.c.
use sdx.Prelude.{
  ℕ, zero, suc, refl, true, false, not, Option, none, some, List, [], arith, ltb, get_elem?, ◌+◌,
  ◌*◌, ◌/◌, ◌%◌, ◌<◌, ◌≡◌, ◌≢◌, ◌||◌, ◌∷◌, ◌==◌, if◌then◌else◌,
}
use sdx.Video.{Fb}

-- `fb_color_map`
abbrev pub color_map : List ℕ
color_map = 0x0 ∷ 0xf ∷ 0x1 ∷ 0x2 ∷ 0x4 ∷ 0x6 ∷ 0xe ∷ 0x9 ∷ 0xa ∷ 0xc ∷ []

-- The loop over the map: the first number with a color, from `i` on.
unfoldable pub color_from : (map : List ℕ) (color i : ℕ) → ℕ
color_from [] color i = 0
color_from (c ∷ cs) color i =
    let later = color_from cs color (i + 1) in if c == color then i else later

unfoldable pub fg_get : Fb → ℕ
fg_get s = color_from color_map (s.color % 16) 0

unfoldable pub bg_get : Fb → ℕ
bg_get s = color_from color_map (s.color / 16 % 16) 0

-- `fb_fg_set`; by the precedence of the macro the test is of the background too. `none` is a read
-- behind the map.
unfoldable pub fg_set : (c : ℕ) → Fb → Option Fb
fg_set c s =
    if not (s.color / 16 == 0) || ltb 10 c
    then some (record s { color = 0 })
    else elim (get_elem? color_map c) [ none ↦ none | some v ↦ some (record s { color = v }) ]

-- `fb_bg_set`
unfoldable pub bg_set : (c : ℕ) → Fb → Option Fb
bg_set c s =
    if ltb 10 c then some (record s { color = s.color % 16 }) else elim (get_elem? color_map c) [
      | none ↦ none
      | some v ↦ some (record s { color = s.color % 16 + v * 16 })
    ]

-- A color's value in the map, from which its number is found again.
record MapsTo (c v : ℕ) : Type 0 where
  found : get_elem? color_map c ≡ some v
  small : v < 16
  back : color_from color_map v 0 ≡ c
  not_black : c ≢ 0 → v ≢ 0

color_value : (c : ℕ) → c < 10 → (v : ℕ) × MapsTo c v
unfolding color_from
color_value zero less = (
  0,
  record { found = refl; small = omega arith; back = refl; not_black = λ ne. ground (arith, ne) },
)
color_value (suc zero) less = (
  15,
  record { found = refl; small = omega arith; back = refl; not_black = λ ne. ground (arith, ne) },
)
color_value (suc (suc zero)) less = (
  1,
  record { found = refl; small = omega arith; back = refl; not_black = λ ne. ground (arith, ne) },
)
color_value (suc (suc (suc zero))) less = (
  2,
  record { found = refl; small = omega arith; back = refl; not_black = λ ne. ground (arith, ne) },
)
color_value (suc (suc (suc (suc zero)))) less = (
  4,
  record { found = refl; small = omega arith; back = refl; not_black = λ ne. ground (arith, ne) },
)
color_value (suc (suc (suc (suc (suc zero))))) less = (
  6,
  record { found = refl; small = omega arith; back = refl; not_black = λ ne. ground (arith, ne) },
)
color_value (suc (suc (suc (suc (suc (suc zero)))))) less = (
  14,
  record { found = refl; small = omega arith; back = refl; not_black = λ ne. ground (arith, ne) },
)
color_value (suc (suc (suc (suc (suc (suc (suc zero))))))) less = (
  9,
  record { found = refl; small = omega arith; back = refl; not_black = λ ne. ground (arith, ne) },
)
color_value (suc (suc (suc (suc (suc (suc (suc (suc zero)))))))) less = (
  10,
  record { found = refl; small = omega arith; back = refl; not_black = λ ne. ground (arith, ne) },
)
color_value (suc (suc (suc (suc (suc (suc (suc (suc (suc zero))))))))) less = (
  12,
  record { found = refl; small = omega arith; back = refl; not_black = λ ne. ground (arith, ne) },
)
color_value (suc (suc (suc (suc (suc (suc (suc (suc (suc (suc n)))))))))) less =
    absurd (omega arith)

-- For two colors, the second one not black, on a black background: setting the color of the text and
-- then the one of the background sets both; the other way around fb_fg_set makes text and background
-- black.
pub fg_set-bg_set :
    (c b : ℕ) (s : Fb)
    → c < 10
    → b < 10
    → b ≢ 0
    → s.color < 16
    → ((s1 : Fb) × (s2 : Fb) × (fg_set c s ≡ some s1)
        × (bg_set b s1 ≡ some s2)
        × (fg_get s2 ≡ c)
        × (bg_get s2 ≡ b))
      × ((t1 : Fb) × (t2 : Fb) × (bg_set b s ≡ some t1)
          × (fg_set c t1 ≡ some t2)
          × (fg_get t2 ≡ 0)
          × (bg_get t2 ≡ 0))
unfolding fg_set bg_set fg_get bg_get color_from
fg_set-bg_set c b s lc lb ne black =
    let (v, cv) = color_value c lc in
    let (w, bw) = color_value b lb in
    let vs = cv.small in
    let ws = bw.small in
    let low : (s.color / 16 == 0) ≡ true = ground (arith, black) in
    let in_c : ltb 10 c ≡ false = ground (arith, lc) in
    let in_b : ltb 10 b ≡ false = ground (arith, lb) in
    let text : (v % 16 + w * 16) % 16 ≡ v = omega (arith, vs) in
    let behind : (v % 16 + w * 16) / 16 % 16 ≡ w = omega (arith, vs, ws) in
    (
      (
        record s { color = v },
        record s { color = v % 16 + w * 16 },
        rw (low, in_c, cv.found) refl,
        rw (in_b, bw.found) refl,
        rw text cv.back,
        rw behind bw.back,
      ),
      let nw = bw.not_black ne in
          let high : ((s.color % 16 + w * 16) / 16 == 0) ≡ false = ground (arith, nw) in
          (
            record s { color = s.color % 16 + w * 16 },
            record s { color = 0 },
            rw (in_b, bw.found) refl,
            rw high refl,
            refl,
            refl,
          ),
    )
