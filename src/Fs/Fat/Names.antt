-- ===== src/Fs/Fat/Names.antt =====
-- The names in a directory of a FAT32 file system: kernel/fs/fat32/entry.c.
use sdx.Prelude.{
  ℕ, zero, suc, Bool, true, false, not, Option, none, some, List, [], ltb, length, get_or, take,
  ◌+◌, ◌-◌, ◌*◌, ◌%◌, ◌^◌, ◌&&◌, ◌||◌, ◌∷◌, ◌++◌, ◌==◌, if◌then◌else◌,
}
use sdx.Errno.{Errno, Result, ok, err}
use sdx.Util.Bits.{bit_get}
use sdx.Util.Strings.{Memory, write_byte}
use sdx.Fs.Fat.{put_bytes}

-- The 32 bytes of a directory entry.
abbrev pub Entry : Type 0
Entry = List ℕ

-- `fat32_entry_is_last`
unfoldable pub entry_is_last : Entry → Bool
entry_is_last e = get_or e 0 0 == 0

-- `fat32_entry_is_unused`
unfoldable pub entry_is_unused : Entry → Bool
entry_is_unused e = get_or e 0 0 == 0xe5

-- `attr == FAT32_ATTR_LFN`
unfoldable pub is_lfn : Entry → Bool
is_lfn e = get_or e 11 0 == 0x0f

-- The low bytes of `count` characters from an offset on.
unfoldable pub low_bytes : Entry → (offset count : ℕ) → List ℕ
low_bytes e offset zero = []
low_bytes e offset (suc count) = get_or e offset 0 ∷ low_bytes e (offset + 2) count

-- A loop of `__fat32_lfn_read`: it ends at a byte 0 or 0xff.
unfoldable pub until_end : List ℕ → List ℕ
until_end [] = []
until_end (c ∷ cs) = let rest = until_end cs in if c == 0 || c == 0xff then [] else c ∷ rest

-- `__fat32_lfn_read`: the bytes that it leaves in the buffer.
unfoldable pub lfn_read : Entry → List ℕ
lfn_read e =
    until_end (low_bytes e 1 5) ++ (until_end (low_bytes e 14 6) ++ until_end (low_bytes e 28 2))

-- `__fat32_lfn_calc_size`
unfoldable pub lfn_calc_size : Entry → (last_size : ℕ) → ℕ
lfn_calc_size e last_size =
    let order = get_or e 0 0 % 32 in
    if not (bit_get (get_or e 0 0) 6 == 1)
    then 0
    else if order == 0
    then 0
    else (order - 1) * 13 + last_size

-- `lfn_total`, `name_index` and the buffer of `__fat32_entry_name`.
pub record Naming : Type 0 where
  pub total : ℕ
  pub index : ℕ
  pub name : Memory

-- NAME_MAX
abbrev pub name_max : ℕ
name_max = 255

-- `name_check(s)`: the error, if there is one.
unfoldable pub name_check : (size s : ℕ) → Option Errno
name_check size s =
    if ltb name_max s
    then some Errno.enametoolong
    else if ltb size s
    then some Errno.eoverflow
    else none

-- `name_append(c)`
unfoldable pub name_append : (size c : ℕ) → Naming → Naming × Result (Unit {0})
name_append size c n = elim (name_check size (n.index + 1)) [
  | some e ↦ (n, err e)
  | none ↦
      (record { total = n.total; index = n.index + 1; name = write_byte n.name n.index c }, ok tt)
]

-- What follows a step that may have failed.
abbrev pub then_name :
    Naming × Result (Unit {0}) → (Naming → Naming × Result (Unit {0})) → Naming × Result (Unit {0})
then_name (n, ok u) f = f n
then_name (n, err e) f = (n, err e)

-- The loop over the 11 bytes of a short name, from the byte `i` on.
unfoldable pub short_name :
    (size : ℕ) (bytes : List ℕ) (i : ℕ) → Naming → Naming × Result (Unit {0})
short_name size [] i n = (n, ok tt)
short_name size (c ∷ cs) i n =
    let dotted = if i == 8 then name_append size 0x2e n else (n, ok tt) in
    let added = then_name dotted (name_append size c) in
    let later = then_name added (short_name size cs (i + 1)) in
    if c == 0x20 then (n, ok tt) else later

-- The branch for an entry that is no part of a long name.
unfoldable pub end_name : (size : ℕ) → Entry → Naming → Naming × Result (Unit {0})
end_name size e n =
    let short = if n.index == 0 then short_name size (take 11 e) 0 n else (n, ok tt) in
    then_name short (name_append size 0)

-- The copy of a part to its place, once the size of the name is known; `name_index` is a uint16_t.
unfoldable pub copy_part : (size total index : ℕ) → List ℕ → Memory → Naming × Result (Unit {0})
copy_part size total index bytes name =
    let back = (index + 2 ^ 16 - length bytes) % 2 ^ 16 in
    if total == 0
    then (record { total = total; index = index; name = name }, ok tt)
    else elim (name_check size (back + length bytes)) [
      | some e ↦ (record { total = total; index = back; name = name }, err e)
      | none ↦ (
        record {
          total = total;
          index = if back == 0 then total else back;
          name = put_bytes bytes back name;
        },
        ok tt,
      )
    ]

-- The branch for a part of a long name.
unfoldable pub lfn_step : (size : ℕ) → Entry → Naming → Naming × Result (Unit {0})
lfn_step size e n =
    let bytes = lfn_read e in
    let total = if n.total == 0 then lfn_calc_size e (length bytes) else n.total in
    copy_part size total (if n.total == 0 then total else n.index) bytes n.name

-- How `__fat32_entry_name` ends: the entries from `*entry` on, and the state with its result.
pub record Named : Type 0 where
  pub entries : List Entry
  pub naming : Naming
  pub result : Result (Unit {0})

-- The loop over the entries. `started` is false for the one that the caller gives, which is parsed
-- whatever it is.
unfoldable pub name_from : (size : ℕ) (started : Bool) → List Entry → Naming → Option Named
name_from size started [] n = none
name_from size started (e ∷ es) n =
    let skipped = started && entry_is_unused e in
    let step = if skipped then (n, ok tt) else lfn_step size e n in
    let ended = end_name size e n in
    let later = name_from size true es step.0 in
    if started && entry_is_last e
    then some (record { entries = e ∷ es; naming = n; result = err Errno.erange })
    else if skipped
    then later
    else if not (is_lfn e)
    then some (record { entries = e ∷ es; naming = ended.0; result = ended.1 })
    else elim (step.1) [
      | ok u ↦ later
      | err e' ↦ some (record { entries = e ∷ es; naming = step.0; result = err e' })
    ]

-- `__fat32_entry_name`; its value is the index where the result is a success.
unfoldable pub entry_name : (size : ℕ) → List Entry → Memory → Option Named
entry_name size es buffer = name_from size false es (record { total = 0; index = 0; name = buffer })
