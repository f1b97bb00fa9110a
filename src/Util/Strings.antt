-- ===== src/Util/Strings.antt =====
-- Strings in memory: strlen, strcmp and strchr of kernel/util/string.c, and memcpy and bzero of
-- kernel/util/mem.c. Memory is a function from addresses to bytes, which are below 256. A loop takes
-- fuel and is `none` only where it runs out; the sizes of memcpy and bzero are below 2^63.
pub mod Compare
pub mod Numbers
pub mod Search
pub mod Reverse
pub mod Digits
use sdx.Prelude.{
  ℕ, zero, suc, Bool, true, false, not, Option, none, some, ltb, ◌+◌, ◌-◌, ◌%◌, ◌||◌, ◌==◌,
  if◌then◌else◌,
}

abbrev pub Memory : Type 0
Memory = ℕ → ℕ

-- The loop of strlen from the index `len` on.
unfoldable pub length_from : Memory → (fuel str len : ℕ) → Option ℕ
length_from mem zero str len = none
length_from mem (suc fuel) str len =
    let rest = length_from mem fuel str (len + 1) in if mem (str + len) == 0 then some len else rest

unfoldable pub strlen : Memory → (fuel str : ℕ) → Option ℕ
strlen mem fuel str = if str == 0 then some 0 else length_from mem fuel str 0

-- The loop of strcmp and the difference after it, a uint8_t.
unfoldable pub compare_from : Memory → (fuel s1 s2 : ℕ) → Option ℕ
compare_from mem zero s1 s2 = none
compare_from mem (suc fuel) s1 s2 =
    let rest = compare_from mem fuel (s1 + 1) (s2 + 1) in
    if mem s1 == 0 || mem s2 == 0 || not (mem s1 == mem s2)
    then some ((mem s1 + 256 - mem s2) % 256)
    else rest

unfoldable pub strcmp : Memory → (fuel s1 s2 : ℕ) → Option ℕ
strcmp mem fuel s1 s2 = if s1 == 0 || s2 == 0 then some 255 else compare_from mem fuel s1 s2

-- The loop of strchr: the address of the character, or NULL.
unfoldable pub chr_from : Memory → (fuel s c : ℕ) → Option ℕ
chr_from mem zero s c = none
chr_from mem (suc fuel) s c =
    let rest = chr_from mem fuel (s + 1) c in
    if mem s == 0 then some 0 else if mem s == c then some s else rest

unfoldable pub strchr : Memory → (fuel s c : ℕ) → Option ℕ
strchr mem fuel s c = if s == 0 then some 0 else chr_from mem fuel s c

abbrev pub write_byte : Memory → (address byte : ℕ) → Memory
write_byte mem a b x = if x == a then b else mem x

-- The loop of memcpy, upwards.
unfoldable pub copy_bytes : (size dst src : ℕ) → Memory → Memory
copy_bytes zero dst src mem = mem
copy_bytes (suc size) dst src mem =
    copy_bytes size (dst + 1) (src + 1) (write_byte mem dst (mem src))

-- `memcpy`: the address behind the copy, NULL where nothing is copied.
unfoldable pub memcpy : (dst src size : ℕ) → Memory → ℕ × Memory
memcpy dst src size mem =
    if dst == 0 || src == 0 || size == 0
    then (0, mem)
    else (dst + size, copy_bytes size dst src mem)

-- The loop of bzero, downwards.
unfoldable pub zero_bytes : (size start : ℕ) → Memory → Memory
zero_bytes zero start mem = mem
zero_bytes (suc size) start mem = zero_bytes size start (write_byte mem (start + size) 0)

unfoldable pub bzero : (start size : ℕ) → Memory → Bool × Memory
bzero start size mem =
    if start == 0 || size == 0 then (false, mem) else (true, zero_bytes size start mem)

-- `strncpy`, with the fuel for strlen.
unfoldable pub strncpy : (fuel dst src dsize : ℕ) → Memory → Option (ℕ × Memory)
strncpy fuel dst src dsize mem = elim (strlen mem fuel src) [
  | none ↦ none
  | some ssize ↦
      let size = if ltb dsize ssize then dsize else ssize in
      let copied = memcpy dst src size mem in
      some (copied.0, (bzero copied.0 (dsize - size) copied.1).1)
]
