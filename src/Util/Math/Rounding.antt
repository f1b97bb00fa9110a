-- ===== src/Util/Math/Rounding.antt =====
-- round_up, round_down, div_ceil and div_floor of kernel/util/math.c.
use native.Mathlib.Nat.{div-mul-le_self, lt-div-mul-add, mul-mod_left, mod-eq_of_lt, div-le_self}
use sdx.Prelude.{ℕ, false, arith, ◌+◌, ◌-◌, ◌*◌, ◌/◌, ◌%◌, ◌^◌, ◌≤◌, ◌<◌, ◌≡◌, ◌==◌}
use sdx.Util.Math.{u64_mod, div_ceil, round_up, round_down}

eq_zero-false : (f : ℕ) → 0 < f → (f == 0) ≡ false
eq_zero-false f p = ground arith

pub round_up-eq : (x f : ℕ) → 0 < f → x + f < 2 ^ 64 → round_up x f ≡ (x + f - 1) / f * f
unfolding round_up
round_up-eq x f p h =
    let exact : (x + f + u64_mod - 1) % u64_mod ≡ x + f - 1 = omega arith in
    rw (eq_zero-false f p, exact) (mod-eq_of_lt (omega (arith, div-mul-le_self (x + f - 1) f)))

-- Where `f` is positive and `x + f` does not wrap, `round_up x f` is the least multiple of `f` that
-- is not below `x`: it is a multiple, at least `x`, and less than `f` above it.
pub round_up-least :
    (x f : ℕ)
    → 0 < f
    → x + f < 2 ^ 64
    → (x ≤ round_up x f) × (round_up x f < x + f) × (round_up x f % f ≡ 0)
round_up-least x f p h = rw (round_up-eq x f p h) (
  omega (arith, lt-div-mul-add {a = x + f - 1} p),
  omega (arith, div-mul-le_self (x + f - 1) f),
  mul-mod_left ((x + f - 1) / f) f,
)

-- For a positive `f`, `round_down x f` is the greatest multiple of `f` that is not above `x`.
pub round_down-greatest :
    (x f : ℕ) → 0 < f → (round_down x f ≤ x) × (x < round_down x f + f) × (round_down x f % f ≡ 0)
unfolding round_down
round_down-greatest x f p =
    rw (eq_zero-false f p) (div-mul-le_self x f, lt-div-mul-add p, mul-mod_left (x / f) f)

-- For positive `x` and `y` whose sum does not wrap, `div_ceil x y` blocks of `y` hold `x`, and one
-- block less does not.
pub div_ceil-least :
    (x y : ℕ) → 0 < x → x + y < 2 ^ 64 → 0 < y → (x ≤ div_ceil x y * y) × (div_ceil x y * y < x + y)
unfolding div_ceil
div_ceil-least x y px hx py =
    let exact : (x + u64_mod - 1) % u64_mod ≡ x - 1 = omega arith in
    let whole : (1 + (x - 1) / y) % u64_mod ≡ 1 + (x - 1) / y =
      omega (arith, div-le_self (x - 1) y) in
    rw (exact, whole)
      (omega (arith, lt-div-mul-add {a = x - 1} py), omega (arith, div-mul-le_self (x - 1) y))
