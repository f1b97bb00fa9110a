-- ===== src/Util/Math/Power.antt =====
-- pow of kernel/util/math.c.
use native.Mathlib.Nat.{mod-add-div, add-mul-mod_self_left, pow-succ', mul_assoc, pow-zero, mul-one}
use sdx.Prelude.{ℕ, zero, suc, false, arith, ◌+◌, ◌-◌, ◌*◌, ◌/◌, ◌%◌, ◌^◌, ◌<◌, ◌≡◌, ◌==◌}
use sdx.Util.Math.{u64_mod, pow_loop, pow}

mod-mul-mod : (a b m : ℕ) → a % m * b % m ≡ a * b % m
mod-mul-mod a b m =
    let e : a * b ≡ a % m * b + m * (a / m * b) = grind (arith, mod-add-div a m) in
    rw (e, add-mul-mod_self_left)

pow_loop-lem : (n k r : ℕ) → r < 2 ^ 64 → pow_loop n k r ≡ r * n ^ k % u64_mod
unfolding pow_loop
pow_loop-lem n zero r h = rw (pow-zero, mul-one) (omega arith)
pow_loop-lem n (suc k) r h =
    rw (pow_loop-lem n k (r * n % u64_mod) (omega arith), mod-mul-mod, pow-succ' n k, mul_assoc)

-- `pow n e` is the power reduced to 64 bits, for every exponent, zero included.
pub pow-eq : (n e : ℕ) → n < 2 ^ 64 → pow n e ≡ n ^ e % 2 ^ 64
unfolding pow
pow-eq n zero h = rw pow-zero
pow-eq n (suc k) h =
    let e : suc k - 1 ≡ k = omega arith in
    let ne : (suc k == 0) ≡ false = ground arith in rw (pow-succ' n k, ne, e, pow_loop-lem n k n h)
