-- ===== src/Util/Strings/Search.antt =====
-- strncmp, strlwr and strstr of kernel/util/string.c, and memswap of kernel/util/mem.c. A `char` is
-- signed.
use Prim.Native.Nat.{bit_or}
use sdx.Prelude.{ℕ, zero, suc, not, Option, none, some, ltb, ◌+◌, ◌-◌, ◌%◌, ◌==◌, if◌then◌else◌}
use sdx.Util.Math.{u64_mod}
use sdx.Util.Strings.{Memory, write_byte, strlen, strchr}

-- A byte as an int, in 64 bits.
unfoldable pub char_value : ℕ → ℕ
char_value b = if ltb b 128 then b else b + u64_mod - 256

-- `strncmp`: it ends with 0 at the end of the first string, whatever the second one has there.
unfoldable pub strncmp : Memory → (len s1 s2 : ℕ) → ℕ
strncmp mem zero s1 s2 = 0
strncmp mem (suc len) s1 s2 =
    let rest = strncmp mem len (s1 + 1) (s2 + 1) in
    if mem s1 == 0
    then 0
    else if not (mem s1 == mem s2)
    then (char_value (mem s1) + u64_mod - char_value (mem s2)) % u64_mod
    else rest

-- `strlwr`: the address of the terminator, and the memory.
unfoldable pub strlwr : (fuel str : ℕ) → Memory → Option (ℕ × Memory)
strlwr zero str mem = none
strlwr (suc fuel) str mem =
    let rest = strlwr fuel (str + 1) (write_byte mem str (bit_or (mem str) 32)) in
    if mem str == 0 then some (str, mem) else rest

-- The loop of strstr: `size` is the fuel for the walks over a string.
unfoldable pub search_from : Memory → (size fuel p s2 len : ℕ) → Option ℕ
search_from mem size zero p s2 len = none
search_from mem size (suc fuel) p s2 len = elim (strchr mem size p (mem s2)) [
  | none ↦ none
  | some q ↦
      let rest = search_from mem size fuel (q + 1) s2 len in
      if q == 0 then some 0 else if strncmp mem len q s2 == 0 then some q else rest
]

unfoldable pub strstr : Memory → (size s1 s2 : ℕ) → Option ℕ
strstr mem size s1 s2 = elim (strlen mem size s2) [
  | none ↦ none
  | some len ↦ if len == 0 then some s1 else search_from mem size size s1 s2 len
]

-- `memswap`: the two bytes change places.
unfoldable pub memswap : (x y : ℕ) → Memory → Memory
memswap x y mem = if x == y then mem else write_byte (write_byte mem x (mem y)) y (mem x)
