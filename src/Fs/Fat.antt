-- ===== src/Fs/Fat.antt =====
-- The FAT32 driver, kernel/fs/fat32, over the driver of a disk. A buffer is a function from its indexes
-- to bytes, also behind its end, so that a write there shows. `none` stands for an access outside of a
-- buffer, a NULL pointer that is followed, or a loop that does not end within its fuel.
pub mod Names
pub mod Directory
pub mod Files
pub mod Table
pub mod Clusters
pub mod Contents
pub mod Limits
pub mod Buffers
pub mod Spelling
pub mod LongNames
pub mod Lookup
use sdx.Prelude.{
  ℕ, Option, none, some, List, [], leb, ◌+◌, ◌-◌, ◌*◌, ◌%◌, ◌^◌, ◌||◌, ◌∷◌, ◌==◌, if◌then◌else◌,
}
use sdx.Util.Math.{u64_mod}
use sdx.Util.Strings.{Memory, write_byte}
use sdx.Disk.{Driver, disk_read}
use sdx.Disk.Parts.{le}

-- What `fs_t` holds of the partition, and its `struct fat32_data`.
pub record Volume : Type 0 where
  pub sector_size : ℕ
  pub start : ℕ
  pub cluster_sector_count : ℕ
  pub fat_sector : ℕ
  pub first_data_sector : ℕ
  pub root_cluster : ℕ

abbrev pub u64 : ℕ → ℕ
u64 n = n % u64_mod

-- What memcpy and the reads do to a buffer.
unfoldable pub put_bytes : List ℕ → (index : ℕ) → Memory → Memory
put_bytes [] i buffer = buffer
put_bytes (b ∷ bytes) i buffer = put_bytes bytes (i + 1) (write_byte buffer i b)

-- `fat32_data_bytes_per_cluster`
unfoldable pub bytes_per_cluster : Volume → ℕ
bytes_per_cluster v = v.sector_size * v.cluster_sector_count

-- `fat32_data_cluster_to_sector`
unfoldable pub cluster_to_sector : Volume → ℕ → ℕ
cluster_to_sector v cluster =
    u64 (v.first_data_sector + v.cluster_sector_count * u64 (cluster + u64_mod - 2))

-- `fat32_data_cluster_to_bytes`
unfoldable pub cluster_to_bytes : Volume → ℕ → ℕ
cluster_to_bytes v cluster = u64 (cluster_to_sector v cluster * v.sector_size)

-- The number of the next cluster in a sector of the table, 0 for an end or a bad cluster.
unfoldable pub next_in : (table : List ℕ) (offset : ℕ) → ℕ
next_in table offset =
    let next = le table offset 4 % 2 ^ 28 in
    if leb 0x0FFFFFF8 next || next == 0x0FFFFFF7 then 0 else next

module _ (read : Driver) (v : Volume) where
  -- `__fat32_read_raw`
  unfoldable pub read_raw : (lba count : ℕ) → Option (List ℕ)
  read_raw lba count = read (u64 (v.start + lba)) count

  -- `__fat32_read_cluster`
  unfoldable pub read_cluster : ℕ → Option (List ℕ)
  read_cluster cluster = read_raw (cluster_to_sector v cluster) v.cluster_sector_count

  -- `__fat32_read`
  unfoldable pub read_bytes : (offset size : ℕ) → Option (List ℕ)
  read_bytes offset size =
      disk_read read v.sector_size (u64 (offset + v.start * v.sector_size)) size

  unfoldable pub fat32_cluster_next : ℕ → ℕ
  fat32_cluster_next cluster = elim (read_raw v.fat_sector 1) [
    | none ↦ 0
    | some table ↦ next_in table (u64 (cluster * 4) % v.sector_size % 2 ^ 32)
  ]
