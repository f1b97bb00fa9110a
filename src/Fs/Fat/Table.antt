-- ===== src/Fs/Fat/Table.antt =====
-- The allocation table as the FAT32 format lays it out, and what fat32_cluster_next reads of it.
use sdx.Prelude.{
  ℕ, zero, suc, ap, some, arith, leb, get_or, ◌+◌, ◌*◌, ◌%◌, ◌^◌, ◌≤◌, ◌<◌, ◌≡◌, ◌||◌, ◌∙◌, ◌==◌,
  if◌then◌else◌,
}
use native.Mathlib.Nat.{mod-eq_of_lt}
use sdx.Disk.{Driver}
use sdx.Disk.Parts.{le}
use sdx.Disk.Image.{slice, Backed, total-lt}
use sdx.Fs.Fat.{Volume, u64, read_raw, next_in, fat32_cluster_next}

-- The byte of the table at an offset: the table starts at the sector `fat_sector` of the partition.
abbrev table_byte : (image : ℕ → ℕ) → Volume → ℕ → ℕ
table_byte image v offset = image ((v.start + v.fat_sector) * v.sector_size + offset)

-- The entry of a cluster: the low 28 bits of the four bytes at the place of its number.
abbrev pub fat_entry : (image : ℕ → ℕ) → Volume → ℕ → ℕ
fat_entry image v c =
    (table_byte image v (4 * c)
      + 2 ^ 8 * table_byte image v (4 * c + 1)
      + 2 ^ 16 * table_byte image v (4 * c + 2)
      + 2 ^ 24 * table_byte image v (4 * c + 3))
    % 2 ^ 28

-- The cluster behind a cluster in its file; 0 where the entry is an end mark or the mark of a bad one.
unfoldable pub fat_next : (image : ℕ → ℕ) → Volume → ℕ → ℕ
fat_next image v c = let entry = fat_entry image v c in if leb 0x0FFFFFF7 entry then 0 else entry

-- A cluster with a 28-bit number, the entry of which is in the first sector of the table, a sector of
-- the disk.
pub record InTable (v : Volume) (total c : ℕ) : Type 0 where
  pub number : c < 2 ^ 28
  pub first_sector : 4 * c + 4 ≤ v.sector_size
  pub on_disk : v.start + v.fat_sector < total

get_or-slice :
    (image : ℕ → ℕ) (start n i : ℕ) → i < n → get_or (slice image start n) i 0 ≡ image (start + i)
get_or-slice image start zero i less = absurd (omega (arith, less))
get_or-slice image start (suc n) zero less = ap image (omega arith)
get_or-slice image start (suc n) (suc i) less =
    get_or-slice image (start + 1) n i (omega (arith, less)) ∙ ap image (omega arith)

-- The number of four bytes in a slice.
le-slice :
    (image : ℕ → ℕ) (start n offset : ℕ)
    → offset + 4 ≤ n
    → le (slice image start n) offset 4
      ≡ image (start + offset)
        + 2 ^ 8 * image (start + (offset + 1))
        + 2 ^ 16 * image (start + (offset + 2))
        + 2 ^ 24 * image (start + (offset + 3))
le-slice image start n offset fits =
    let b0 = get_or-slice image start n offset (omega (arith, fits)) in
    let b1 = get_or-slice image start n (offset + 1) (omega (arith, fits)) in
    let b2 = get_or-slice image start n (offset + 1 + 1) (omega (arith, fits)) in
    let b3 = get_or-slice image start n (offset + 1 + 1 + 1) (omega (arith, fits)) in
    let i2 : image (start + (offset + 1 + 1)) ≡ image (start + (offset + 2)) =
      ap image (omega arith) in
    let i3 : image (start + (offset + 1 + 1 + 1)) ≡ image (start + (offset + 3)) =
      ap image (omega arith) in
    omega (arith, b0, b1, b2, b3, i2, i3)

last_marks :
    (n : ℕ)
    → (if leb 0x0FFFFFF8 n || n == 0x0FFFFFF7 then 0 else n) ≡ (if leb 0x0FFFFFF7 n then 0 else n)
last_marks n = ground arith

next_in-slice :
    (image : ℕ → ℕ) (v : Volume) (c : ℕ)
    → 4 * c + 4 ≤ v.sector_size
    → next_in (slice image ((v.start + v.fat_sector) * v.sector_size) v.sector_size) (4 * c)
      ≡ fat_next image v c
unfolding next_in fat_next
next_in-slice image v c fits =
    let bytes =
      le-slice image ((v.start + v.fat_sector) * v.sector_size) v.sector_size (4 * c) fits in
    rw bytes (last_marks (fat_entry image v c))

table_place : (c n : ℕ) → c < 2 ^ 28 → 4 * c + 4 ≤ n → u64 (c * 4) % n % 2 ^ 32 ≡ 4 * c
table_place c n small fits =
    let plain : u64 (c * 4) ≡ 4 * c = omega (arith, small) in
    let less : 4 * c < n = omega (arith, fits) in
    rw (plain, mod-eq_of_lt less) (omega (arith, small))

read_raw-table :
    {image : ℕ → ℕ} {read : Driver} (v : Volume) {total : ℕ}
    → Backed image read v.sector_size total
    → v.start + v.fat_sector < total
    → read_raw read v v.fat_sector 1
      ≡ some (slice image ((v.start + v.fat_sector) * v.sector_size) v.sector_size)
unfolding read_raw
read_raw-table {image} {read} v {total} backed on_disk =
    let sector = v.start + v.fat_sector in
    let plain : u64 sector ≡ sector = omega (arith, on_disk, total-lt backed) in
    let one : 1 * v.sector_size ≡ v.sector_size = omega arith in
    ap (λ n. read n 1) plain
    ∙ backed.reads sector 1 (omega arith) (omega (arith, on_disk))
    ∙ ap (λ n. some (slice image (sector * v.sector_size) n)) one

-- For a cluster whose entry is in the first sector of the table fat32_cluster_next is right.
pub fat32_cluster_next-fat_next :
    {image : ℕ → ℕ} {read : Driver} (v : Volume) {total : ℕ} (c : ℕ)
    → Backed image read v.sector_size total
    → InTable v total c
    → fat32_cluster_next read v c ≡ fat_next image v c
unfolding fat32_cluster_next
fat32_cluster_next-fat_next {image} {read} v {total} c backed entry =
    let place : u64 (c * 4) % v.sector_size % 2 ^ 32 ≡ 4 * c =
      table_place c v.sector_size entry.number entry.first_sector in
    rw (read_raw-table v backed entry.on_disk, fat32_cluster_next, place)
      (next_in-slice image v c entry.first_sector)
