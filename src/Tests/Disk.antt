-- ===== src/Tests/Disk.antt =====
-- kernel/core/disk, kernel/core/mbr.c and kernel/core/gpt.c at concrete inputs.
use sdx.Prelude.{
  ℕ, suc, refl, true, false, none, some, List, [], arith, ltb, replicate, ◌+◌, ◌*◌, ◌≡◌, ◌||◌, ◌∷◌,
  ◌++◌, ◌==◌, if◌then◌else◌,
}
use sdx.Disk.{Driver, read_rest, read_sectors, read_lba, disk_read}
use sdx.Disk.Image.{slice, Backed, disk_read-slice}
use sdx.Disk.Parts.{Disk, Row, disk_part_block, partition_table, gpt_table}
use sdx.Disk.Write.{disk_write}

-- A disk with sectors of four bytes, whose byte `n` is `n`.
abbrev image : ℕ → ℕ
image n = n

abbrev counting : Driver
counting lba count = some (slice image (lba * 4) (count * 4))

read_run : read_lba counting 4 1 6 ≡ some (4 ∷ 5 ∷ 6 ∷ 7 ∷ 8 ∷ 9 ∷ [])
unfolding read_lba read_sectors read_rest
read_run = refl

-- The disk has eight sectors, and its driver refuses what is not of them.
abbrev eight_sectors : Driver
eight_sectors lba count =
    if count == 0 || ltb 8 (lba + count) then none else some (slice image (lba * 4) (count * 4))

eight-Backed : Backed image eight_sectors 4 8
eight-Backed = record {
  not_zero = omega arith;
  bytes = omega arith;
  reads = λ lba count more inside.
      let some_sector : (count == 0) ≡ false = ground (arith, more) in
      let on_disk : ltb 8 (lba + count) ≡ false = ground (arith, inside) in
      rw (some_sector, on_disk) refl;
}

disk_read-slice_example : disk_read eight_sectors 4 5 6 ≡ some (slice image 5 6)
disk_read-slice_example = disk_read-slice eight-Backed 5 6 (omega arith) (omega arith)

-- An MBR with one bootable partition, of 32 sectors from the sector 16 on.
abbrev row_bytes : List ℕ
row_bytes = 0 ∷ 1 ∷ 0 ∷ 0 ∷ 128 ∷ 1 ∷ 0 ∷ 0 ∷ 16 ∷ 0 ∷ 0 ∷ 0 ∷ 32 ∷ 0 ∷ 0 ∷ 0 ∷ []

abbrev mbr : List ℕ
mbr = replicate 446 0 ++ row_bytes ++ replicate 48 0 ++ (0x55 ∷ 0xAA ∷ [])

abbrev mbr_disk : Driver
mbr_disk lba count = if lba == 0 then some mbr else some (replicate 512 0)

abbrev one_row : List Row
one_row = record { start = 16; size = 32; bootable = true } ∷ []

-- A GPT header whose entries have the size 0 makes the scan divide by 0.
abbrev empty_entries : List ℕ
empty_entries = 0x45 ∷ 0x46 ∷ 0x49 ∷ 0x20 ∷ 0x50 ∷ 0x41 ∷ 0x52 ∷ 0x54 ∷ replicate 504 0

fault_run : partition_table (λ lba count. some empty_entries) 512 ≡ none
unfolding partition_table gpt_table read_lba read_sectors read_rest
fault_run = refl

-- A disk with a partition of an earlier table.
abbrev old_disk : Disk
old_disk = record {
  available = true;
  sector_size = 512;
  part_count = 1;
  parts = record { start = 1; size = 2; bootable = false; available = true } ∷ [];
}

abbrev blocked : Disk
blocked = disk_part_block (record old_disk { available = false })

-- The second sector of a disk that counts its writes is refused.
write_run : disk_write ℕ (λ lba count s. (true, suc s)) 512 1024 512 0 ≡ some (false, 0)
unfolding disk_write
write_run = refl
