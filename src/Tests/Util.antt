-- ===== src/Tests/Util.antt =====
-- kernel/util at concrete inputs.
use sdx.Util.Strings.Numbers.{strrev, itou}
use sdx.Util.Strings.Reverse.{HasLength, strrev-mirror}
use sdx.Util.Strings.Digits.{Printed, itou-Printed}
use sdx.Prelude.{
  ℕ, refl, some, [], arith, ◌+◌, ◌-◌, ◌*◌, ◌≤◌, ◌<◌, ◌≡◌, ◌≢◌, ◌⊎◌, ◌∷◌, ◌==◌, if◌then◌else◌,
}
use sdx.Util.Strings.{Memory, chr_from, strchr}
use sdx.Util.Strings.Compare.{IsString}
use sdx.Util.Math.{gdu}
use sdx.Util.Math.Digits.{IsDigitCount, gdu-digits}
use sdx.Util.Timestamp.{
  timestamp_calc, secs_per_day, add_years, add_months, year_secs, is_leap, days_in_month,
}
use sdx.Util.Timestamp.Closed.{day_number, timestamp_calc-closed}

gdu-digits_example : (d : ℕ) × (gdu 65536 ≡ some d) × IsDigitCount 65536 d
gdu-digits_example = gdu-digits 65536 (omega arith)

timestamp_run : timestamp_calc 2024 3 1 12 30 15 ≡ 1709296215
unfolding timestamp_calc add_years add_months year_secs is_leap days_in_month
timestamp_run = refl

timestamp_calc-closed_example :
    timestamp_calc 2024 3 1 12 30 15 ≡ secs_per_day * day_number 2024 3 1 + 3600 * 12 + 60 * 30 + 15
timestamp_calc-closed_example =
    timestamp_calc-closed 2024 3 1 12 30 15 (omega arith) (omega arith) (omega arith) (omega arith)
      (omega arith) (omega arith) (omega arith) (omega arith) (omega arith)

-- The strings "ab" at 10 and "ac" at 20, and zero bytes elsewhere.
abbrev memory : Memory
memory a =
    if a == 10
    then 97
    else if a == 11
    then 98
    else if a == 20
    then 97
    else if a == 21
    then 99
    else 0

ab-IsString : IsString memory 10 (97 ∷ 98 ∷ [])
ab-IsString = (refl, omega arith, omega arith, (refl, omega arith, omega arith, refl))

ac-IsString : IsString memory 20 (97 ∷ 99 ∷ [])
ac-IsString = (refl, omega arith, omega arith, (refl, omega arith, omega arith, refl))

ten_nonzero : ◌≢◌ {A = ℕ} 10 0
ten_nonzero e = ground (arith, e)

twenty_nonzero : ◌≢◌ {A = ℕ} 20 0
twenty_nonzero e = ground (arith, e)

strchr_run : strchr memory 3 10 98 ≡ some 11
unfolding strchr chr_from
strchr_run = refl

-- The text "abc" at 10, with its terminator at 13.
abbrev abc : ℕ → ℕ
abc a = if a == 10 then 97 else if a == 11 then 98 else if a == 12 then 99 else 0

abc_bytes : (i : ℕ) → i < 3 → abc (10 + i) ≢ 0
abc_bytes i less = ground (arith, less)

abc-HasLength : HasLength abc 10 3
abc-HasLength = record { bytes = abc_bytes; ended = refl }

strrev-mirror_example :
    (mem' : Memory) × (strrev 4 10 abc ≡ some mem')
    × ((i : ℕ) → i < 3 → mem' (10 + i) ≡ abc (10 + (3 - 1 - i)))
    × ((a : ℕ) → (a < 10) ⊎ (10 + 3 ≤ a) → mem' a ≡ abc a)
strrev-mirror_example = strrev-mirror abc 10 3 (omega arith) abc-HasLength

itou-Printed_example :
    (n : ℕ) × (mem' : Memory) × (itou 1234 10 abc ≡ some (n, mem')) × Printed 10 1234 10 n abc mem'
itou-Printed_example = itou-Printed 1234 10 abc (omega arith) (omega arith)
