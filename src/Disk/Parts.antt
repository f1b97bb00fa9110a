-- ===== src/Disk/Parts.antt =====
-- The partitions of a disk: kernel/core/disk/part.c, kernel/core/mbr.c and kernel/core/gpt.c. A list
-- stands for the chain of partition objects, first object first.
pub mod Keys
pub mod Clear
pub mod Scan
pub mod Fuel
use sdx.Prelude.{
  ℕ, zero, suc, Bool, true, false, not, Option, none, some, List, [], map, ltb, get_or, ◌+◌, ◌-◌,
  ◌*◌, ◌/◌, ◌%◌, ◌^◌, ◌&&◌, ◌||◌, ◌∷◌, ◌++◌, ◌==◌, if◌then◌else◌,
}
use sdx.Util.Bits.{bit_get}
use sdx.Util.Math.{u64_mod, div_floor}
use sdx.Disk.{Driver, read_lba}

-- `disk_part_t`
pub record Part : Type 0 where
  pub start : ℕ
  pub size : ℕ
  pub bootable : Bool
  pub available : Bool

-- The fields of `disk_t` that a scan uses.
pub record Disk : Type 0 where
  pub available : Bool
  pub sector_size : ℕ
  pub parts : List Part
  pub part_count : ℕ

abbrev pub has_key : (start size : ℕ) → Part → Bool
has_key start size p = p.start == start && p.size == size

-- The search of disk_part_add: the position of the first partition with a start and a size.
unfoldable pub find_key : (start size : ℕ) → List Part → Option ℕ
find_key start size [] = none
find_key start size (p ∷ ps) =
    let rest = find_key start size ps in
    if has_key start size p then some 0 else elim rest [ none ↦ none | some i ↦ some (suc i) ]

-- An assignment to fields of the object at a position.
unfoldable pub modify_at : ℕ → (Part → Part) → List Part → List Part
modify_at i f [] = []
modify_at zero f (p ∷ ps) = f p ∷ ps
modify_at (suc i) f (p ∷ ps) = p ∷ modify_at i f ps

-- `disk_part_add`: the position of the object that it returns, `none` for NULL. `granted` says whether
-- heap_alloc finds memory.
unfoldable pub disk_part_add : (granted : Bool) (start size : ℕ) → Disk → Option ℕ × Disk
disk_part_add granted start size d = elim (find_key start size d.parts) [
  | some i ↦ (some i, d)
  | none ↦
      if granted
      then (
        some 0,
        record d {
          parts =
              record { start = start; size = size; bootable = false; available = false } ∷ d.parts;
          part_count = (d.part_count + 1) % 2 ^ 32;
        },
      )
      else (none, d)
]

unfoldable pub disk_part_block : Disk → Disk
disk_part_block d = record d {
  parts = map {A = Part} (λ p. record p { available = false }) d.parts;
}

-- The loop of disk_part_clear: the partitions that stay, and the count after it.
unfoldable pub clear_from : List Part → (count : ℕ) → List Part × ℕ
clear_from [] count = ([], count)
clear_from (p ∷ ps) count =
    if p.available
    then (p ∷ (clear_from ps count).0, (clear_from ps count).1)
    else clear_from ps ((count + (2 ^ 32 - 1)) % 2 ^ 32)

unfoldable pub disk_part_clear : Disk → Disk
disk_part_clear d = record d {
  parts = (clear_from d.parts d.part_count).0;
  part_count = (clear_from d.parts d.part_count).1;
}

-- What a loader takes from one row of a partition table.
pub record Row : Type 0 where
  pub start : ℕ
  pub size : ℕ
  pub bootable : Bool

-- The assignments to the object that disk_part_add returned.
abbrev pub complete : Row → Option ℕ × Disk → Disk
complete row (none, d) = d
complete row (some i, d) = record d {
  parts = modify_at i (λ p. record p { bootable = row.bootable; available = true }) d.parts;
}

-- The call of disk_part_add for a row, and what follows it.
unfoldable pub load_row : (granted : Bool) → Row → Disk → Disk
load_row granted row d = complete row (disk_part_add granted row.start row.size d)

-- A little-endian number of `count` bytes at an offset.
abbrev pub le : List ℕ → (offset count : ℕ) → ℕ
le bytes offset zero = 0
le bytes offset (suc count) = get_or bytes offset 0 + 256 * le bytes (offset + 1) count

-- The row of a `struct mbr_part` at an offset, where it passes the test of mbr_load.
unfoldable pub mbr_row : List ℕ → (offset : ℕ) → Option Row
mbr_row bytes offset =
    let start_chs = le bytes (offset + 1) 3 in
    let type = le bytes (offset + 4) 1 in
    let end_chs = le bytes (offset + 5) 3 in
    let start_lba = le bytes (offset + 8) 4 in
    let sector_count = le bytes (offset + 12) 4 in
    if start_chs == 0 || end_chs == 0 || start_lba == 0 || sector_count == 0
    then none
    else some (record { start = start_lba; size = sector_count; bootable = bit_get type 7 == 1 })

-- The row of a `struct gpt_part_entry` at an offset, where __gpt_load_entry does not return early.
unfoldable pub gpt_row : List ℕ → (offset : ℕ) → Option Row
gpt_row bytes offset =
    let start_lba = le bytes (offset + 32) 8 in
    let end_lba = le bytes (offset + 40) 8 in
    let attr = le bytes (offset + 48) 8 in
    if le bytes offset 8 == 0 && le bytes (offset + 8) 8 == 0
    then none
    else if bit_get attr 1 == 1
    then none
    else some (record {
      start = start_lba;
      size = ((end_lba + 1) % u64_mod + (u64_mod - start_lba)) % u64_mod;
      bootable = bit_get attr 2 == 1;
    })

-- `count` rows, `step` bytes apart.
unfoldable pub rows_at : (List ℕ → ℕ → Option Row) → List ℕ → (offset step count : ℕ) → List Row
rows_at row bytes offset step zero = []
rows_at row bytes offset step (suc count) =
    let rest = rows_at row bytes (offset + step) step count in
    elim (row bytes offset) [ none ↦ rest | some r ↦ r ∷ rest ]

unfoldable pub load_rows : (granted : Row → Disk → Bool) → List Row → Disk → Disk
load_rows granted [] d = d
load_rows granted (row ∷ rows) d = load_rows granted rows (load_row (granted row d) row d)

-- The rows of the table that mbr_load reads, `none` where it returns false.
unfoldable pub mbr_table : Driver → (sector_size : ℕ) → Option (List Row)
mbr_table read sector_size = elim (read_lba read sector_size 0 512) [
  | none ↦ none
  | some mbr ↦ if le mbr 510 2 == 0xAA55 then some (rows_at mbr_row mbr 446 16 4) else none
]

-- The loop of gpt_load from the entry `i` on; a sector that cannot be read is left out.
unfoldable pub gpt_rows :
    Driver → (per_sector entry_size lba_array entry_count : ℕ) → (fuel i : ℕ) → List Row
gpt_rows read per_sector entry_size lba_array entry_count zero i = []
gpt_rows read per_sector entry_size lba_array entry_count (suc fuel) i =
    let rest = gpt_rows read per_sector entry_size lba_array entry_count fuel (i + per_sector) in
    if ltb i entry_count
    then elim (read ((lba_array + i / per_sector) % u64_mod) 1) [
      | none ↦ rest
      | some bytes ↦ rows_at gpt_row bytes 0 entry_size per_sector ++ rest
    ]
    else []

-- The rows of the table that gpt_load reads: `none` where it divides by 0, `some none` where it returns
-- false.
unfoldable pub gpt_table : Driver → (sector_size : ℕ) → Option (Option (List Row))
gpt_table read sector_size =
    if sector_size == 0 then none else elim (read_lba read sector_size 1 92) [
      | none ↦ some none
      | some header ↦
          let entry_size = le header 84 4 in
          let entry_count = le header 80 4 in
          if not (le header 0 8 == 0x5452415020494645)
          then some none
          else if entry_size == 0
          then none
          else if not (sector_size % entry_size == 0)
          then some none
          else some (
              some (
                gpt_rows read (div_floor sector_size entry_size) entry_size (le header 72 8)
                  entry_count entry_count 0))
    ]

-- The table that a scan loads: the GPT, or the MBR where gpt_load returns false. `none` for the fault of
-- gpt_load, `some none` where there is no table.
unfoldable pub partition_table : Driver → (sector_size : ℕ) → Option (Option (List Row))
partition_table read sector_size = elim (gpt_table read sector_size) [
  | none ↦ none
  | some (some rows) ↦ some (some rows)
  | some none ↦ some (mbr_table read sector_size)
]

-- The end of disk_part_scan: the fault, no table, or a table.
abbrev pub load_table :
    (granted : Row → Disk → Bool) → Option (Option (List Row)) → Disk → Option (Bool × Disk)
load_table granted none d = none
load_table granted (some none) d = some (false, d)
load_table granted (some (some rows)) d =
    some (true, record (disk_part_clear (load_rows granted rows d)) { available = true })

-- What follows the operation DISK_OP_INFO on the disk `d`: `none` where it fails, else the disk after it.
abbrev pub after_info :
    (granted : Row → Disk → Bool) → Driver → Option Disk → Disk → Option (Bool × Disk)
after_info granted read none d = some (false, d)
after_info granted read (some d') d = load_table granted (partition_table read d'.sector_size) d'

-- `disk_part_scan`, with GPT support; `none` for a division by 0.
unfoldable pub disk_part_scan :
    (granted : Row → Disk → Bool)
    → Driver
    → (info : Disk → Option Disk) → Disk
    → Option (Bool × Disk)
disk_part_scan granted read info d =
    let blocked = disk_part_block (record d { available = false }) in
    after_info granted read (info blocked) blocked
