-- ===== src/Util/Bits.antt =====
-- The bits of a machine word: kernel/inc/util/bit.h, and the masks of one bit that the bitmaps use.
-- `t >> b & 1` is a quotient; `|= 1 << b` and `&= ~(1 << b)` add and take away one power of two.
use native.Mathlib.Nat.{div-div-eq-div-mul, pow-succ', pow-zero, div-one}
use sdx.Prelude.{
  ℕ, zero, suc, arith, ◌+◌, ◌-◌, ◌*◌, ◌/◌, ◌%◌, ◌^◌, ◌≤◌, ◌<◌, ◌≡◌, ◌==◌, if◌then◌else◌,
}

unfoldable pub bit_get : ℕ → ℕ → ℕ
bit_get t b = t / 2 ^ b % 2

-- `t | 1 << b`
unfoldable pub bit_on : ℕ → ℕ → ℕ
bit_on t b = if bit_get t b == 1 then t else t + 2 ^ b

-- `t & ~(1 << b)`
unfoldable pub bit_off : ℕ → ℕ → ℕ
bit_off t b = if bit_get t b == 1 then t - 2 ^ b else t

pub bit_get-zero : (t : ℕ) → bit_get t 0 ≡ t % 2
unfolding bit_get
bit_get-zero t = rw (pow-zero, div-one)

pub bit_get-suc : (t b : ℕ) → bit_get t (suc b) ≡ bit_get (t / 2) b
unfolding bit_get
bit_get-suc t b = rw (div-div-eq-div-mul, pow-succ')

pub bit_get-lt : (t b : ℕ) → bit_get t b < 2
unfolding bit_get
bit_get-lt t b = omega arith

bit_on-suc : (t b : ℕ) → bit_on t (suc b) ≡ 2 * bit_on (t / 2) b + t % 2
unfolding bit_on
bit_on-suc t b = ground (arith, bit_get-suc t b, pow-succ' 2 b)

bit_le : (t b : ℕ) → bit_get t b ≡ 1 → 2 ^ b ≤ t
bit_le t zero h = omega (arith, bit_get-zero t)
bit_le t (suc b) h = omega (arith, bit_le (t / 2) b (rw (← bit_get-suc t b) h), pow-succ' 2 b)

bit_off-suc : (t b : ℕ) → bit_off t (suc b) ≡ 2 * bit_off (t / 2) b + t % 2
unfolding bit_off
bit_off-suc t b = ground (arith, bit_get-suc t b, pow-succ' 2 b, bit_le (t / 2) b)

bit_on-zero : (t : ℕ) → bit_on t 0 ≡ t - t % 2 + 1
unfolding bit_on
bit_on-zero t = ground (arith, bit_get-zero t)

bit_off-zero : (t : ℕ) → bit_off t 0 ≡ t - t % 2
unfolding bit_off
bit_off-zero t = ground (arith, bit_get-zero t)

half : (x t : ℕ) → (2 * x + t % 2) / 2 ≡ x
half x t = omega arith

-- After `|= 1 << b` the bit `b` is 1, and every other bit is what it was.
pub bit_get-bit_on : (t b c : ℕ) → bit_get (bit_on t b) c ≡ (if b == c then 1 else bit_get t c)
bit_get-bit_on t zero zero = omega (arith, bit_get-zero (bit_on t 0), bit_on-zero t)
bit_get-bit_on t zero (suc c) =
    let e : bit_on t 0 / 2 ≡ t / 2 = omega (arith, bit_on-zero t) in
    rw (bit_get-suc (bit_on t 0) c, e) (ground (arith, bit_get-suc t c))
bit_get-bit_on t (suc b) zero = rw (bit_on-suc, bit_get-zero, bit_get-zero t) (ground arith)
bit_get-bit_on t (suc b) (suc c) =
    rw (bit_on-suc, bit_get-suc, bit_get-suc t c, half) (ground (arith, bit_get-bit_on (t / 2) b c))

-- After `&= ~(1 << b)` the bit `b` is 0, and every other bit is what it was.
pub bit_get-bit_off : (t b c : ℕ) → bit_get (bit_off t b) c ≡ (if b == c then 0 else bit_get t c)
bit_get-bit_off t zero zero = omega (arith, bit_get-zero (bit_off t 0), bit_off-zero t)
bit_get-bit_off t zero (suc c) =
    let e : bit_off t 0 / 2 ≡ t / 2 = omega (arith, bit_off-zero t) in
    rw (bit_get-suc (bit_off t 0) c, e) (ground (arith, bit_get-suc t c))
bit_get-bit_off t (suc b) zero = rw (bit_off-suc, bit_get-zero, bit_get-zero t) (ground arith)
bit_get-bit_off t (suc b) (suc c) =
    rw (bit_off-suc, bit_get-suc, bit_get-suc t c, half)
      (ground (arith, bit_get-bit_off (t / 2) b c))
