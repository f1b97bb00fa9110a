-- ===== src/Util/Math/Digits.antt =====
-- The digit counters gdu and gd of kernel/util/math.c.
use native.Mathlib.Nat.{pow-suc}
use sdx.Prelude.{
  ℕ, zero, suc, refl, inl, inr, true, false, Option, none, some, arith, ltb, Bool-cases, ◌+◌, ◌-◌,
  ◌/◌, ◌^◌, ◌≤◌, ◌<◌, ◌≡◌, ◌⊎◌,
}
use sdx.Prelude.Int.{pos, negsuc, sub_ℕ}
use sdx.Util.Math.{gdu_fuel, gdu, gd_fuel, gd}

-- `d` is the number of decimal digits of `val`.
abbrev pub IsDigitCount : ℕ → ℕ → Type 0
IsDigitCount val d = (val < 10 ^ d) × (0 < d) × ((val ≡ 0) ⊎ (10 ^ (d - 1) ≤ val))

digits_step : (val d : ℕ) → 10 ≤ val → IsDigitCount (val / 10) d → IsDigitCount val (1 + d)
digits_step val zero h (a, b, c) = absurd (omega arith)
digits_step val (suc d) h (a, b, c) =
    let e : 1 + suc d ≡ suc (suc d) = omega arith in
    let e' : suc (suc d) - 1 ≡ suc d = omega arith in
    let e'' : suc d - 1 ≡ d = omega arith in
    let low : (val / 10 ≡ 0) ⊎ (10 ^ d ≤ val / 10) = rw e'' at c in
    rw (e, e') (omega (arith, pow-suc 10 (suc d)), omega arith, inr (omega (arith, pow-suc 10 d)))

abbrev GduCounts : ℕ → ℕ → Type 0
GduCounts f val = (d : ℕ) × (gdu_fuel f val ≡ some d) × IsDigitCount val d

gdu_fuel_step : (f val : ℕ) → 10 ≤ val → GduCounts f (val / 10) → GduCounts (suc f) val
unfolding gdu_fuel
gdu_fuel_step f val h (d, e, is) =
    let big : ltb val 10 ≡ false = ground arith in (1 + d, rw (big, e), digits_step val d h is)

gdu_fuel-digits : (f val : ℕ) → val < 10 ^ suc f → GduCounts (suc f) val
unfolding gdu_fuel
gdu_fuel-digits zero val h = (1, ground arith, ground arith)
gdu_fuel-digits (suc f) val h = elim (Bool-cases (ltb val 10)) [
  | inl small ↦ (1, rw small, ground arith)
  | inr big ↦
      gdu_fuel_step (suc f) val (ground arith)
        (gdu_fuel-digits f (val / 10) (omega (arith, pow-suc 10 (suc f))))
]

-- `gdu` terminates on every 64-bit value, and returns its number of decimal digits.
pub gdu-digits : (val : ℕ) → val < 2 ^ 64 → (d : ℕ) × (gdu val ≡ some d) × IsDigitCount val d
unfolding gdu
gdu-digits val h = gdu_fuel-digits 19 val (omega arith)

-- On a non-negative number `gd` runs as `gdu`.
gd_fuel-pos : (f n : ℕ) → gd_fuel f (pos n) ≡ gdu_fuel f n
unfolding gdu_fuel gd_fuel
gd_fuel-pos zero n = refl
gd_fuel-pos (suc f) n = rw (gd_fuel-pos f (n / 10))

abbrev pub signed : Option ℕ → Option ℕ
signed none = none
signed (some d) = some (1 + d)

gd_fuel-negsuc : (f n : ℕ) → gd_fuel f (negsuc n) ≡ signed (gdu_fuel f (n + 1))
unfolding gdu_fuel gd_fuel
gd_fuel-negsuc zero n = refl
gd_fuel-negsuc (suc f) n = elim (Bool-cases (ltb n 9)) [
  | inl small ↦ let small' : ltb (n + 1) 10 ≡ true = ground arith in rw (small, small')
  | inr big ↦
      let ge : 9 ≤ n = ground arith in
      let big' : ltb (n + 1) 10 ≡ false = ground arith in
      let e : sub_ℕ 0 ((n + 1) / 10) ≡ negsuc ((n + 1) / 10 - 1) = ground arith in
      let e' : (n + 1) / 10 - 1 + 1 ≡ (n + 1) / 10 = omega arith in
      rw (big, big', e, gd_fuel-negsuc f ((n + 1) / 10 - 1), e')
]

-- `gd` gives the number of characters of a signed number in decimal: its digits, and one more for
-- the sign of a negative number.
pub gd-width : ((n : ℕ) → gd (pos n) ≡ gdu n) × ((n : ℕ) → gd (negsuc n) ≡ signed (gdu (n + 1)))
unfolding gd gdu
gd-width = (gd_fuel-pos 20, gd_fuel-negsuc 20)
