-- ===== src/Util/Strings/Numbers.antt =====
-- strrev, itou, itod and itoh of kernel/util/string.c.
use sdx.Prelude.{
  ℕ, zero, suc, Option, none, some, ltb, leb, ◌+◌, ◌-◌, ◌/◌, ◌%◌, ◌^◌, ◌==◌, if◌then◌else◌,
}
use sdx.Prelude.Int.{ℤ, pos, negsuc}
use sdx.Util.Math.{abs, u64_mod}
use sdx.Util.Strings.{Memory, write_byte, strlen}

-- The loop of strrev, with the addresses of the two bytes that change places; it ends where they meet.
unfoldable pub rev_from : (fuel front back : ℕ) → Memory → Memory
rev_from zero front back mem = mem
rev_from (suc fuel) front back mem =
    let swapped = write_byte (write_byte mem front (mem back)) back (mem front) in
    let rest = rev_from fuel (front + 1) (back - 1) swapped in
    if front == back then mem else if front + 1 == back then swapped else rest

-- `strrev` of a string that is not NULL; the fuel is that of strlen.
unfoldable pub strrev : (fuel str : ℕ) → Memory → Option Memory
strrev fuel str mem = elim (strlen mem fuel str) [
  | none ↦ none
  | some len ↦ some (if leb len 1 then mem else rev_from len str (str + len - 1) mem)
]

-- The character of a digit: `+ '0'`, and the table of itoh.
unfoldable pub digit_char : ℕ → ℕ
digit_char d = if ltb d 10 then d + 0x30 else d + 0x37

-- The loop over the digits, the last one first: the number of characters, and the memory.
unfoldable pub put_digits : (base fuel num i dst : ℕ) → Memory → Option (ℕ × Memory)
put_digits base zero num i dst mem = none
put_digits base (suc fuel) num i dst mem =
    let mem' = write_byte mem (dst + i) (digit_char (num % base)) in
    let rest = put_digits base fuel (num / base) (i + 1) dst mem' in
    if num / base == 0 then some (i + 1, mem') else rest

-- The terminator and the reversal: the number of characters without the terminator, and the memory.
unfoldable pub finish_number : (dst : ℕ) → ℕ × Memory → Option (ℕ × Memory)
finish_number dst (i, mem) = elim (strrev (suc i) dst (write_byte mem (dst + i) 0)) [
  | none ↦ none
  | some mem' ↦ some (i, mem')
]

-- The 64-bit value as the int64_t that `abs` takes.
unfoldable pub to_signed : ℕ → ℤ
to_signed val = if ltb val (2 ^ 63) then pos val else negsuc (u64_mod - 1 - val)

unfoldable pub itou : (val dst : ℕ) → Memory → Option (ℕ × Memory)
itou val dst mem =
    if dst == 0 then some (0, mem) else elim (put_digits 10 20 (abs (to_signed val)) 0 dst mem) [
      | none ↦ none
      | some r ↦ finish_number dst r
    ]

-- `itod` of a 64-bit pattern, with the sign behind the digits before they are reversed.
unfoldable pub itod : (val dst : ℕ) → Memory → Option (ℕ × Memory)
itod val dst mem =
    if dst == 0 then some (0, mem) else elim (put_digits 10 20 (abs (to_signed val)) 0 dst mem) [
      | none ↦ none
      | some (i, mem') ↦
          finish_number dst
            (if ltb val (2 ^ 63) then (i, mem') else (i + 1, write_byte mem' (dst + i) 0x2d))
    ]

unfoldable pub itoh : (val dst : ℕ) → Memory → Option (ℕ × Memory)
itoh val dst mem =
    if dst == 0
    then some (0, mem)
    else elim (put_digits 16 20 val 0 dst mem) [ none ↦ none | some r ↦ finish_number dst r ]
