-- ===== src/Util/Strings/Digits.antt =====
-- What itou and itoh write.
use mathlib.Core.Path.{subst}
use native.Mathlib.Nat.{
  div-one, pow-zero, div-div-eq-div-mul, pow-succ', pow-suc, div-lt_iff_lt-mul,
}
use sdx.Prelude.{
  ℕ, zero, suc, refl, sym, ap, inl, inr, true, false, some, arith, ltb, Bool-cases, ◌+◌, ◌-◌, ◌/◌,
  ◌%◌, ◌^◌, ◌≤◌, ◌<◌, ◌≡◌, ◌≢◌, ◌⊎◌, ◌∙◌, ◌==◌,
}
use sdx.Util.Strings.{Memory, write_byte}
use sdx.Util.Strings.Numbers.{digit_char, put_digits, finish_number, to_signed, itou, itoh}
use sdx.Util.Strings.Reverse.{HasLength, strrev-mirror}
use sdx.Util.Math.{abs}

digit_char-nonzero : (d : ℕ) → digit_char d ≢ 0
unfolding digit_char
digit_char-nonzero d = ground arith

-- The digits of a number are in memory from an address on, the last one first.
pub record DigitsAt (base num at_dst count : ℕ) (mem mem' : Memory) : Type 0 where
  pub some_digit : 0 < count
  pub digits : (j : ℕ) → j < count → mem' (at_dst + j) ≡ digit_char (num / base ^ j % base)
  pub nothing_left : num / base ^ count ≡ 0
  pub no_zeros : (count ≡ 1) ⊎ (num / base ^ (count - 1) ≢ 0)
  pub others : (a : ℕ) → (a < at_dst) ⊎ (at_dst + count ≤ a) → mem' a ≡ mem a

quotient_zero : (num base : ℕ) → num / base ^ 0 ≡ num
quotient_zero num base = ap (λ m. num / m) (pow-zero base) ∙ div-one num

quotient-suc : (num base j : ℕ) → num / base ^ suc j ≡ num / base / base ^ j
quotient-suc num base j =
    ap (λ m. num / m) (pow-succ' base j) ∙ sym (div-div-eq-div-mul num base (base ^ j))

-- The digit that is written first.
first_digit :
    (base num p j : ℕ) (mem : Memory)
    → j ≡ 0
    → write_byte mem p (digit_char (num % base)) (p + j) ≡ digit_char (num / base ^ j % base)
first_digit base num p j mem e =
    let here : write_byte mem p (digit_char (num % base)) (p + j) ≡ digit_char (num % base) =
      ground (arith, e) in
    here
    ∙ ap (λ m. digit_char (m % base)) (sym (quotient_zero num base))
    ∙ ap (λ m. digit_char (num / base ^ m % base)) (sym e)

quotient-lt : (base fuel num : ℕ) → 1 < base → num < base ^ suc fuel → num / base < base ^ fuel
quotient-lt base fuel num big less =
    (div-lt_iff_lt-mul (omega (arith, big))).1 (subst (λ m. num < m) (pow-suc base fuel) less)

fuel_left : (base fuel m : ℕ) → m ≢ 0 → m < base ^ fuel → 0 < fuel
fuel_left base zero m ne less = absurd (ne (omega (arith, subst (λ k. m < k) (pow-zero base) less)))
fuel_left base (suc fuel) m ne less = omega arith

put_digits-more :
    (base fuel num i dst : ℕ) (mem : Memory) (count : ℕ) (mem' : Memory)
    → (num / base == 0) ≡ false
    → put_digits base fuel
        (num / base)
        (i + 1)
        dst
        (write_byte mem (dst + i) (digit_char (num % base)))
      ≡ some (i + 1 + count, mem')
    → put_digits base (suc fuel) num i dst mem ≡ some (i + suc count, mem')
unfolding put_digits
put_digits-more base fuel num i dst mem count mem' further eq =
    rw further (eq ∙ ap (λ (m : ℕ). some (m, mem')) (omega arith))

later_digits :
    (base num p count : ℕ) (mem mem' : Memory)
    → DigitsAt base (num / base) (p + 1) count (write_byte mem p (digit_char (num % base))) mem'
    → (j : ℕ) → j < suc count
    → mem' (p + j) ≡ digit_char (num / base ^ j % base)
later_digits base num p count mem mem' d zero within =
    d.others (p + 0) (inl (omega arith)) ∙ first_digit base num p 0 mem refl
later_digits base num p count mem mem' d (suc j) within =
    ap mem' (omega arith)
    ∙ d.digits j (omega (arith, within))
    ∙ ap (λ m. digit_char (m % base)) (sym (quotient-suc num base j))

-- The digit in front of the ones that are written so far is not a leading zero.
leading :
    (num base count : ℕ)
    → 0 < count
    → num / base ≢ 0
    → (count ≡ 1) ⊎ (num / base / base ^ (count - 1) ≢ 0)
    → num / base ^ (suc count - 1) ≢ 0
leading num base count more ne (inl e) =
    let one : suc count - 1 ≡ suc 0 = omega (arith, e) in
    λ z. ne (
      sym (quotient_zero (num / base) base)
      ∙ sym (quotient-suc num base 0)
      ∙ ap (λ m. num / base ^ m) (sym one)
      ∙ z)
leading num base count more ne (inr further) =
    let less : suc count - 1 ≡ suc (count - 1) = omega (arith, more) in
    λ z. further (sym (quotient-suc num base (count - 1)) ∙ ap (λ m. num / base ^ m) (sym less) ∙ z)

put_digits-DigitsAt :
    (base fuel num i dst : ℕ) (mem : Memory)
    → 1 < base
    → num < base ^ fuel
    → 0 < fuel
    → (count : ℕ) × (mem' : Memory) × (put_digits base fuel num i dst mem ≡ some (i + count, mem'))
      × DigitsAt base num (dst + i) count mem mem'
unfolding put_digits
put_digits-DigitsAt base zero num i dst mem big less more = absurd (omega (arith, more))
put_digits-DigitsAt base (suc fuel) num i dst mem big less more =
    elim (Bool-cases (num / base == 0)) [
      | inl last ↦
          let first = write_byte mem (dst + i) (digit_char (num % base)) in
          (
            1,
            first,
            rw last refl,
            record {
              some_digit = omega arith;
              digits = λ j only. first_digit base num (dst + i) j mem (omega (arith, only));
              nothing_left =
                  quotient-suc num base 0 ∙ quotient_zero (num / base) base ∙ ground (arith, last);
              no_zeros = inl refl;
              others = λ a outside. ground (arith, outside);
            },
          )
      | inr further ↦
          let first = write_byte mem (dst + i) (digit_char (num % base)) in
          let not_zero : num / base ≢ 0 = ground (arith, further) in
          let less_left = quotient-lt base fuel num big less in
          let (count, mem', eq, ahead) =
            put_digits-DigitsAt base fuel (num / base) (i + 1) dst first big less_left
              (fuel_left base fuel (num / base) not_zero less_left) in
          let place : dst + (i + 1) ≡ dst + i + 1 = omega arith in
          let d = subst (λ p. DigitsAt base (num / base) p count first mem') place ahead in
          (
            suc count,
            mem',
            put_digits-more base fuel num i dst mem count mem' further eq,
            record {
              some_digit = omega arith;
              digits = later_digits base num (dst + i) count mem mem' d;
              nothing_left = quotient-suc num base count ∙ d.nothing_left;
              no_zeros = inr (leading num base count d.some_digit not_zero d.no_zeros);
              others = λ a outside. d.others a (omega (arith, outside)) ∙ ground (arith, outside);
            },
          )
    ]

-- A number as text: its digits in a base, the first one first, with a terminator, all of them, and
-- without a zero in front of another digit.
pub record Printed (base num dst n : ℕ) (mem mem' : Memory) : Type 0 where
  pub some_digit : 0 < n
  pub digits : (i : ℕ) → i < n → mem' (dst + i) ≡ digit_char (num / base ^ (n - 1 - i) % base)
  pub ended : mem' (dst + n) ≡ 0
  pub nothing_left : num / base ^ n ≡ 0
  pub no_zeros : (n ≡ 1) ⊎ (num / base ^ (n - 1) ≢ 0)
  pub others : (a : ℕ) → (a < dst) ⊎ (dst + n < a) → mem' a ≡ mem a

closed_inside :
    (mem : Memory) (dst count i : ℕ)
    → i < count
    → write_byte mem (dst + count) 0 (dst + i) ≡ mem (dst + i)
closed_inside mem dst count i less = ground (arith, less)

closed_outside :
    (mem : Memory) (dst count a : ℕ)
    → (a < dst) ⊎ (dst + count < a)
    → write_byte mem (dst + count) 0 a ≡ mem a
closed_outside mem dst count a outside = ground (arith, outside)

abs-to_signed : (val : ℕ) → val < 2 ^ 63 → abs (to_signed val) ≡ val
unfolding abs to_signed
abs-to_signed val small =
    let positive : ltb val (2 ^ 63) ≡ true = ground (arith, small) in rw positive refl

-- The digits from the start of a buffer on, with twenty digits as fuel.
put_digits-start :
    (base num dst : ℕ) (mem : Memory)
    → 1 < base
    → num < base ^ 20
    → (count : ℕ) × (mem' : Memory) × (put_digits base 20 num 0 dst mem ≡ some (count, mem'))
      × DigitsAt base num dst count mem mem'
put_digits-start base num dst mem big less =
    let (count, mem', eq, d) = put_digits-DigitsAt base 20 num 0 dst mem big less (omega arith) in
    let origin : dst + 0 ≡ dst = omega arith in
    (
      count,
      mem',
      eq ∙ ap (λ (m : ℕ). some (m, mem')) (omega arith),
      subst (λ p. DigitsAt base num p count mem mem') origin d,
    )

finish_number-Printed :
    (base num dst count : ℕ) (mem mem' : Memory)
    → dst ≢ 0
    → DigitsAt base num dst count mem mem'
    → (mem'' : Memory) × (finish_number dst (count, mem') ≡ some (count, mem''))
      × Printed base num dst count mem mem''
unfolding finish_number
finish_number-Printed base num dst count mem mem' ne d =
    let closed = write_byte mem' (dst + count) 0 in
    let inside = λ (i : ℕ) (less : i < count). closed_inside mem' dst count i less in
    let text : HasLength closed dst count = record {
      bytes = λ i less e. digit_char-nonzero _ (sym (d.digits i less) ∙ sym (inside i less) ∙ e);
      ended = ground arith;
    } in
    let (mem'', eq, turned, others) = strrev-mirror closed dst count ne text in
    (
      mem'',
      rw (finish_number, eq) refl,
      record {
        some_digit = d.some_digit;
        digits = λ i less.
            turned i less
            ∙ inside (count - 1 - i) (omega (arith, less))
            ∙ d.digits (count - 1 - i) (omega (arith, less));
        ended = others (dst + count) (inr (omega arith)) ∙ ground arith;
        nothing_left = d.nothing_left;
        no_zeros = d.no_zeros;
        others = λ a outside.
            others a (omega (arith, outside))
            ∙ closed_outside mem' dst count a outside
            ∙ d.others a (omega (arith, outside));
      },
    )

itou-put :
    (val dst : ℕ) (mem : Memory) (r : ℕ × Memory)
    → val < 2 ^ 63
    → dst ≢ 0
    → put_digits 10 20 val 0 dst mem ≡ some r
    → itou val dst mem ≡ finish_number dst r
unfolding itou
itou-put val dst mem r small ne eq =
    let not_null : (dst == 0) ≡ false = ground (arith, ne) in
    rw (not_null, abs-to_signed val small, eq) refl

-- For a value below 2^63 and a buffer that is not NULL itou ends: it writes the value's decimal digits,
-- without leading zeros, and a terminator, changes nothing else, and returns the number of digits.
pub itou-Printed :
    (val dst : ℕ) (mem : Memory)
    → val < 2 ^ 63
    → dst ≢ 0
    → (n : ℕ) × (mem' : Memory) × (itou val dst mem ≡ some (n, mem'))
      × Printed 10 val dst n mem mem'
itou-Printed val dst mem small ne =
    let (n, mem', eq, d) = put_digits-start 10 val dst mem (omega arith) (omega (arith, small)) in
    let (mem'', eq', printed) = finish_number-Printed 10 val dst n mem mem' ne d in
    (n, mem'', itou-put val dst mem (n, mem') small ne eq ∙ eq', printed)

-- For every 64-bit value and a buffer that is not NULL itoh ends, and writes the value's digits in
-- the base 16 and a terminator.
pub itoh-Printed :
    (val dst : ℕ) (mem : Memory)
    → val < 2 ^ 64
    → dst ≢ 0
    → (n : ℕ) × (mem' : Memory) × (itoh val dst mem ≡ some (n, mem'))
      × Printed 16 val dst n mem mem'
unfolding itoh
itoh-Printed val dst mem small ne =
    let not_null : (dst == 0) ≡ false = ground (arith, ne) in
    let (n, mem', eq, d) = put_digits-start 16 val dst mem (omega arith) (omega (arith, small)) in
    let (mem'', eq', printed) = finish_number-Printed 16 val dst n mem mem' ne d in
    (n, mem'', rw (not_null, eq) eq', printed)
