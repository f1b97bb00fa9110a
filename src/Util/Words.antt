-- ===== src/Util/Words.antt =====
-- The bitwise "or" of machine words, `|` of the source, and the words whose bits lie apart.
use native.Mathlib.Nat.{pow-succ', pow-zero, mul_assoc}
use sdx.Prelude.{
  ℕ, zero, suc, refl, ap, arith, ◌+◌, ◌*◌, ◌/◌, ◌%◌, ◌^◌, ◌<◌, ◌≡◌, ◌==◌, if◌then◌else◌,
}
use sdx.Util.Bits.{bit_get, bit_get-zero, bit_get-suc}

-- One bit of the result.
abbrev or_bit : ℕ → ℕ → ℕ
or_bit a b = if a == 1 then 1 else b

-- `a | b` for words of `width` bits.
unfoldable pub word_or : (width a b : ℕ) → ℕ
word_or zero a b = 0
word_or (suc width) a b = or_bit (a % 2) (b % 2) + 2 * word_or width (a / 2) (b / 2)

pub word_or-zero : (n a : ℕ) → a < 2 ^ n → word_or n a 0 ≡ a
unfolding word_or
word_or-zero zero a h = omega (arith, pow-zero 2)
word_or-zero (suc n) a h = ground (arith, pow-succ' 2 n, word_or-zero n (a / 2))

pub word_or_comm : (n a b : ℕ) → word_or n a b ≡ word_or n b a
unfolding word_or
word_or_comm zero a b = refl
word_or_comm (suc n) a b = ground (arith, word_or_comm n (a / 2) (b / 2))

step_apart :
    (n x y b r : ℕ)
    → word_or n x (b / 2 + y) ≡ b / 2 + r
    → word_or (suc n) (2 * x) (b + 2 * y) ≡ b + 2 * r
unfolding word_or
step_apart n x y b r e =
    let left : 2 * x / 2 ≡ x = omega arith in
    let right : (b + 2 * y) / 2 ≡ b / 2 + y = omega arith in rw (left, right, e) (ground arith)

-- Below bit `k` only the second word has bits.
pub word_or-apart :
    (k n m b h : ℕ)
    → b < 2 ^ k
    → word_or (k + n) (2 ^ k * m) (b + 2 ^ k * h) ≡ b + 2 ^ k * word_or n m h
unfolding word_or
word_or-apart zero n m b h lt =
    let none_low : b ≡ 0 = omega (arith, lt, pow-zero 2) in
    let width : 0 + n ≡ n = omega arith in
    let left : 2 ^ 0 * m ≡ m = omega arith in
    let right : b + 2 ^ 0 * h ≡ h = omega (arith, none_low) in
    rw (width, left, right) (omega (arith, none_low))
word_or-apart (suc k) n m b h lt =
    let width : suc k + n ≡ suc (k + n) = omega arith in
    let left : 2 ^ suc k * m ≡ 2 * (2 ^ k * m) = rw (pow-succ') (mul_assoc 2 (2 ^ k) m) in
    let right : b + 2 ^ suc k * h ≡ b + 2 * (2 ^ k * h) =
      ap (λ t. b + t) (rw (pow-succ') (mul_assoc 2 (2 ^ k) h)) in
    let last : 2 ^ suc k * word_or n m h ≡ 2 * (2 ^ k * word_or n m h) =
      rw (pow-succ') (mul_assoc 2 (2 ^ k) (word_or n m h)) in
    rw (width, left, right, last)
      (step_apart (k + n) (2 ^ k * m) (2 ^ k * h) b (2 ^ k * word_or n m h)
        (word_or-apart k n m (b / 2) h (omega (arith, pow-succ' 2 k, lt))))

pub bit_get-word_or :
    (n a b k : ℕ)
    → k < n
    → bit_get (word_or n a b) k ≡ (if bit_get a k == 1 then 1 else bit_get b k)
unfolding word_or
bit_get-word_or zero a b k lt = elim lt [ ]
bit_get-word_or (suc n) a b zero lt =
    ground (arith, bit_get-zero (word_or (suc n) a b), bit_get-zero a, bit_get-zero b)
bit_get-word_or (suc n) a b (suc k) lt =
    rw (bit_get-suc, bit_get-suc a k, bit_get-suc b k)
      (ground (arith, bit_get-word_or n (a / 2) (b / 2) k))

-- `a & ~b` for words of `width` bits.
unfoldable pub word_clear : (width a b : ℕ) → ℕ
word_clear zero a b = 0
word_clear (suc width) a b =
    (if b % 2 == 1 then 0 else a % 2) + 2 * word_clear width (a / 2) (b / 2)
