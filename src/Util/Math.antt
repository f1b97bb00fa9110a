-- ===== src/Util/Math.antt =====
-- kernel/util/math.c over uint64_t and int64_t.
pub mod Digits
pub mod Rounding
pub mod Power
use sdx.Prelude.{
  ℕ, zero, suc, Option, none, some, ltb, ◌+◌, ◌-◌, ◌*◌, ◌/◌, ◌%◌, ◌^◌, ◌==◌, if◌then◌else◌,
}
use sdx.Prelude.Int.{ℤ, pos, negsuc, sub_ℕ}

-- The number of values of a uint64_t; every arithmetic result is reduced by it.
abbrev pub u64_mod : ℕ
u64_mod = 2 ^ 64

-- `-val` of INT64_MIN wraps to itself, and is 2^63 as a uint64_t.
unfoldable pub abs : ℤ → ℕ
abs (pos n) = n
abs (negsuc n) = (n + 1) % u64_mod

-- The recursion divides by ten; twenty calls are enough for 64 bits.
unfoldable pub gdu_fuel : ℕ → ℕ → Option ℕ
gdu_fuel zero val = none
gdu_fuel (suc f) val =
    let rest = gdu_fuel f (val / 10) in
    if ltb val 10 then some 1 else elim rest [ none ↦ none | some n ↦ some (1 + n) ]

unfoldable pub gdu : ℕ → Option ℕ
unfolding gdu_fuel
gdu val = gdu_fuel 20 val

-- Division of a negative value truncates towards zero, so the last digit counts two with its sign.
unfoldable pub gd_fuel : ℕ → ℤ → Option ℕ
gd_fuel zero val = none
gd_fuel (suc f) (pos n) =
    let rest = gd_fuel f (pos (n / 10)) in
    if ltb n 10 then some 1 else elim rest [ none ↦ none | some d ↦ some (1 + d) ]
gd_fuel (suc f) (negsuc n) =
    let rest = gd_fuel f (sub_ℕ 0 ((n + 1) / 10)) in
    if ltb n 9 then some 2 else elim rest [ none ↦ none | some d ↦ some (1 + d) ]

unfoldable pub gd : ℤ → Option ℕ
unfolding gd_fuel
gd val = gd_fuel 20 val

-- `x - 1` wraps at 0. The caller has `y` positive.
unfoldable pub div_ceil : ℕ → ℕ → ℕ
div_ceil x y = (1 + (x + u64_mod - 1) % u64_mod / y) % u64_mod

unfoldable pub div_floor : ℕ → ℕ → ℕ
div_floor x y = x / y

-- The loop multiplies while the exponent is above 1.
unfoldable pub pow_loop : ℕ → ℕ → ℕ → ℕ
pow_loop n zero r = r
pow_loop n (suc k) r = pow_loop n k (r * n % u64_mod)

unfoldable pub pow : ℕ → ℕ → ℕ
unfolding pow_loop
pow n e = if e == 0 then 1 else pow_loop n (e - 1) n

unfoldable pub round_up : ℕ → ℕ → ℕ
round_up x f = if f == 0 then x else (x + f + u64_mod - 1) % u64_mod / f * f % u64_mod

unfoldable pub round_down : ℕ → ℕ → ℕ
round_down x f = if f == 0 then x else x / f * f
