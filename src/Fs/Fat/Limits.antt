-- ===== src/Fs/Fat/Limits.antt =====
-- Where the FAT32 driver reads something else than the file: more than one cluster at once, and clusters
-- whose numbers are behind the first sector of the table.
use native.Mathlib.Nat.{mul-add-mod_self_right}
use mathlib.Core.Path.{subst}
use sdx.Prelude.{
  ℕ, zero, suc, refl, ap, true, false, none, some, arith, ltb, leb, lt→ltb, ◌+◌, ◌-◌, ◌*◌, ◌%◌, ◌^◌,
  ◌≤◌, ◌<◌, ◌≡◌, ◌≢◌, ◌∙◌, ◌==◌,
}
use sdx.Errno.{ok}
use sdx.Util.Math.{u64_mod}
use sdx.Util.Strings.{Memory}
use sdx.Disk.{Driver}
use sdx.Disk.Image.{slice, Backed, total-lt}
use sdx.Fs.Fat.Table.{fat_next, InTable, fat32_cluster_next-fat_next}
use sdx.Fs.Inode.{Inode, EntryType}
use sdx.Fs.Fat.{Volume, u64, put_bytes, bytes_per_cluster, read_raw, next_in, fat32_cluster_next}
use sdx.Fs.Fat.Files.{skip_clusters, read_clusters, size_left, read_file, fat32_read}
use sdx.Fs.Fat.Clusters.{InRange, plain_sector, u64_small, cluster_to_bytes-eq}
use sdx.Fs.Fat.Contents.{cluster_byte, read_tail-slice, fat32_read-read_file}

scaled : (p c k : ℕ) → (k * p + c) * 4 ≡ k * (p * 4) + c * 4
scaled p c k = omega arith

smaller : (a b m : ℕ) → a + b < m → b < m
smaller a b m less = omega (arith, less)

same_place :
    (n p c k : ℕ)
    → n ≡ p * 4
    → (k * p + c) * 4 < u64_mod
    → u64 ((k * p + c) * 4) % n ≡ u64 (c * 4) % n
same_place n p c k whole small =
    let few =
      smaller (k * (p * 4)) (c * 4) u64_mod (subst (λ m. m < u64_mod) (scaled p c k) small) in
    rw (u64_small _ small, u64_small (c * 4) few, scaled p c k, whole)
      (mul-add-mod_self_right k (p * 4) (c * 4))

-- Where a sector holds `per_sector` entries of four bytes, and the place of the entry is a 64-bit number:
-- fat32_cluster_next takes a cluster whose number is larger by a multiple of `per_sector` for the one
-- with the smaller number, whatever the table has for it.
pub fat32_cluster_next-periodic :
    (read : Driver) (v : Volume) (per_sector c k : ℕ)
    → v.sector_size ≡ per_sector * 4
    → (k * per_sector + c) * 4 < u64_mod
    → fat32_cluster_next read v (k * per_sector + c) ≡ fat32_cluster_next read v c
unfolding fat32_cluster_next
fat32_cluster_next-periodic read v per_sector c k whole small =
    ap
      (λ place. elim (read_raw read v v.fat_sector 1) [
        | none ↦ 0
        | some table ↦ next_in table (place % 2 ^ 32)
      ])
      (same_place v.sector_size per_sector c k whole small)

first_place : (start n : ℕ) → start + n < u64_mod → u64 (start + u64 (n + 0)) ≡ start + n
first_place start n less = omega (arith, less)

left_pos : (inode : Inode) (size : ℕ) → 0 < size_left inode 0 size → (0 < size) × (0 < inode.size)
unfolding size_left
left_pos inode size more = ground (arith, more)

none_before : (n : ℕ) → 0 + n ≡ n
none_before n = omega arith

skip_none : (read : Driver) (v : Volume) (c : ℕ) → skip_clusters read v 1 c 0 ≡ some (ok (c, 0))
unfolding skip_clusters
skip_none read v c = ground arith

-- The place of a cluster that a read of a whole one takes: the number of its first byte is used as
-- the number of a sector.
abbrev pub whole_lba : Volume → ℕ → ℕ
whole_lba v c = v.start + plain_sector v c * v.sector_size

module _ (image : ℕ → ℕ) (read : Driver) (v : Volume) (total : ℕ)
    (backed : Backed image read v.sector_size total) where
  two_clusters :
      (c n : ℕ) (buffer : Memory)
      → bytes_per_cluster v < n
      → n ≤ bytes_per_cluster v + bytes_per_cluster v
      → InTable v total c
      → fat_next image v c ≢ 0
      → InRange v total c
      → InRange v total (fat_next image v c)
      → whole_lba v c + bytes_per_cluster v ≤ total
      → read_clusters read v (suc n) c 0 0 n buffer
        ≡ some (
          put_bytes
              (slice (cluster_byte image v (fat_next image v c)) 0 (n - bytes_per_cluster v))
              (bytes_per_cluster v)
              (put_bytes
                (slice image (whole_lba v c * v.sector_size) (bytes_per_cluster v * v.sector_size))
                0
                buffer),
          ok tt,
        )
  unfolding read_clusters read_raw
  two_clusters c zero buffer over within entry linked here there small =
      absurd (omega (arith, over))
  two_clusters c (suc n) buffer over within entry linked here there small =
      let big : ltb (bytes_per_cluster v) (suc n) ≡ true = lt→ltb _ _ over in
      let last : ltb (bytes_per_cluster v) (suc n - bytes_per_cluster v) ≡ false =
        ground (arith, within) in
      let next : (fat_next image v c == 0) ≡ false = ground (arith, linked) in
      rw
        (
          big,
          cluster_to_bytes-eq v c backed.bytes here,
          first_place v.start (plain_sector v c * v.sector_size)
              (omega (arith, small, total-lt backed)),
          backed.reads (whole_lba v c) (bytes_per_cluster v) (omega (arith, over, within)) small,
          fat32_cluster_next-fat_next v c backed entry,
          next,
          last,
          read_tail-slice image read v total backed (fat_next image v c) 0 (0 + bytes_per_cluster v)
              (suc n - bytes_per_cluster v)
              (put_bytes
                (slice image (whole_lba v c * v.sector_size) (bytes_per_cluster v * v.sector_size))
                0 buffer)
              there (omega (arith, within)) (omega (arith, over)),
          none_before (bytes_per_cluster v),
        )
        refl

  -- With a driver for a disk of 64-bit size: a read from the start of a file of more than one
  -- cluster, and at most two, which are linked by the table on the disk, the first one by an entry
  -- in the table's first sector. They are on the disk, and so are the sectors that are read in
  -- place of the first one. For the first cluster fat32_read puts as many sectors as the cluster
  -- has bytes into the buffer, and takes them from the sector that has the number of the cluster's
  -- first byte. The second cluster's bytes are the file's.
  pub fat32_read-two_clusters :
      (fuel : ℕ) (inode : Inode) (size : ℕ) (buffer : Memory)
      → inode.type ≡ EntryType.file_entry
      → bytes_per_cluster v < size_left inode 0 size
      → size_left inode 0 size ≤ bytes_per_cluster v + bytes_per_cluster v
      → InTable v total inode.addr
      → fat_next image v inode.addr ≢ 0
      → InRange v total inode.addr
      → InRange v total (fat_next image v inode.addr)
      → whole_lba v inode.addr + bytes_per_cluster v ≤ total
      → let n = size_left inode 0 size in
        let first =
          slice image
            (whole_lba v inode.addr * v.sector_size)
            (bytes_per_cluster v * v.sector_size) in
        let second =
          slice (cluster_byte image v (fat_next image v inode.addr)) 0 (n - bytes_per_cluster v) in
        fat32_read read v fuel (some inode) 0 size buffer
        ≡ some (put_bytes second (bytes_per_cluster v) (put_bytes first 0 buffer), ok n)
  unfolding read_file
  fat32_read-two_clusters fuel inode size buffer is_file over within entry linked here there small =
      let (asked, some_bytes) = left_pos inode size (omega (arith, over)) in
      let ahead : leb inode.size 0 ≡ false = ground (arith, some_bytes) in
      fat32_read-read_file image read v total backed fuel inode 0 size buffer is_file asked
      ∙ rw
          (
            ahead,
            skip_none read v inode.addr,
            two_clusters inode.addr (size_left inode 0 size) buffer over within entry linked here
                there small,
          )
          refl
