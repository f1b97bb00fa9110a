-- ===== src/Fs/Fat/Contents.antt =====
-- What fat32_read gives of a file whose clusters are chained on the disk.
use native.Mathlib.Nat.{mod-eq_of_lt, div-eq_of_lt, add-mul-div_right, mul-add-mod_self_right}
use sdx.Prelude.{
  ℕ, zero, suc, refl, sym, ap, false, some, arith, ltb, leb, ◌+◌, ◌*◌, ◌/◌, ◌%◌, ◌≤◌, ◌<◌, ◌≡◌, ◌⊎◌,
  ◌∙◌, ◌==◌,
}
use sdx.Errno.{ok}
use sdx.Util.Math.{u64_mod}
use sdx.Util.Strings.{Memory}
use sdx.Disk.{Driver}
use sdx.Disk.Image.{slice, Backed, disk_read-slice}
use sdx.Fs.Inode.{Inode, EntryType}
use sdx.Fs.Fat.{Volume, u64, put_bytes, bytes_per_cluster, read_bytes}
use sdx.Fs.Fat.Clusters.{
  InRange, plain_sector, slice-ext, cluster_to_bytes-eq, chain, Linked, skip_clusters-chain,
}
use sdx.Fs.Fat.Files.{read_tail, read_clusters, size_left, read_file, fat32_read}

-- The byte of a cluster at an offset.
abbrev pub cluster_byte : (image : ℕ → ℕ) → Volume → (c offset : ℕ) → ℕ
cluster_byte image v c offset =
    image (plain_sector v c * v.sector_size + v.start * v.sector_size + offset)

-- The byte of a file at an offset, by the chain from its first cluster on as the table on
-- the disk has it.
abbrev pub file_byte : (image : ℕ → ℕ) → Volume → (c offset : ℕ) → ℕ
file_byte image v c offset =
    cluster_byte image v (chain image v c (offset / bytes_per_cluster v))
      (offset % bytes_per_cluster v)

div_in : (k n x : ℕ) → x < n → (k * n + x) / n ≡ k
div_in k n x less =
    ap (λ m. m / n) (omega arith)
    ∙ add-mul-div_right x k (omega (arith, less))
    ∙ ap (λ m. m + k) (div-eq_of_lt less)
    ∙ omega arith

mod_in : (k n x : ℕ) → x < n → (k * n + x) % n ≡ x
mod_in k n x less = mul-add-mod_self_right k n x ∙ mod-eq_of_lt less

file_byte-cluster_byte :
    (image : ℕ → ℕ) (v : Volume) (c k r i : ℕ)
    → r + i < bytes_per_cluster v
    → cluster_byte image v (chain image v c k) (r + i)
      ≡ file_byte image v c (k * bytes_per_cluster v + r + i)
file_byte-cluster_byte image v c k r i less =
    let n = bytes_per_cluster v in
    sym (
      ap (file_byte image v c) (omega arith)
      ∙ ap (λ m. cluster_byte image v (chain image v c m) ((k * n + (r + i)) % n))
          (div_in k n (r + i) less)
      ∙ ap (cluster_byte image v (chain image v c k)) (mod_in k n (r + i) less))

size_left-more :
    (inode : Inode) (offset size : ℕ)
    → offset < inode.size
    → 0 < size
    → 0 < size_left inode offset size
unfolding size_left
size_left-more inode offset size less more = ground (arith, less, more)

fewer : (k n r : ℕ) → 0 < n → k < suc (k * n + r)
fewer zero n r more = omega arith
fewer (suc k) n r more = omega (arith, fewer k n r more, more)

tail_offset :
    (a b r left n : ℕ)
    → a + b + n < u64_mod
    → r + left ≤ n
    → 0 < left
    → u64 (u64 (a + r) + b) ≡ a + b + r
tail_offset a b r left n less fits more = omega (arith, less, fits, more)

module _ (image : ℕ → ℕ) (read : Driver) (v : Volume) (total : ℕ)
    (backed : Backed image read v.sector_size total) where
  -- The read inside a cluster gives the bytes of the cluster.
  pub read_tail-slice :
      (c r index left : ℕ) (buffer : Memory)
      → InRange v total c
      → r + left ≤ bytes_per_cluster v
      → 0 < left
      → read_tail read v c r index left buffer
        ≡ (put_bytes (slice (cluster_byte image v c) r left) index buffer, ok tt)
  unfolding read_tail read_bytes
  read_tail-slice c r index left buffer inside fits more =
      let small : (left == 0) ≡ false = ground (arith, more) in
      rw
        (
          small,
          cluster_to_bytes-eq v c backed.bytes inside,
          tail_offset (plain_sector v c * v.sector_size) (v.start * v.sector_size) r left
              (bytes_per_cluster v) (omega (arith, inside.bytes, backed.bytes)) fits more,
          disk_read-slice backed (plain_sector v c * v.sector_size + v.start * v.sector_size + r)
              left more (omega (arith, inside.bytes, fits)),
        )
        (ap (λ xs. (put_bytes xs index buffer, ok tt))
          (slice-ext image (cluster_byte image v c)
            (plain_sector v c * v.sector_size + v.start * v.sector_size + r) r left
            (λ i less. ap image (omega arith))))

  read_file-file_byte :
      (inode : Inode) (k r size : ℕ) (buffer : Memory)
      → k * bytes_per_cluster v + r < inode.size
      → 0 < size
      → (k ≡ 0) ⊎ (0 < r)
      → r + size_left inode (k * bytes_per_cluster v + r) size ≤ bytes_per_cluster v
      → Linked image v total inode.addr k
      → InRange v total (chain image v inode.addr k)
      → let offset = k * bytes_per_cluster v + r in
        let n = size_left inode offset size in
        read_file read v inode offset size buffer
        ≡ some (put_bytes (slice (file_byte image v inode.addr) offset n) 0 buffer, ok n)
  unfolding read_file read_clusters
  read_file-file_byte inode k r size buffer inside_file more behind fits linked inside =
      let offset = k * bytes_per_cluster v + r in
      let n = size_left inode offset size in
      let some_left = size_left-more inode offset size inside_file more in
      let ahead : leb inode.size offset ≡ false = ground (arith, inside_file) in
      let one_cluster : ltb (bytes_per_cluster v) n ≡ false = ground (arith, fits) in
      let enough = fewer k (bytes_per_cluster v) r (omega (arith, fits, some_left)) in
      let skipped =
        skip_clusters-chain v backed (suc offset) inode.addr k r (omega (arith, fits)) behind linked
          enough in
      rw
        (
          ahead,
          skipped,
          one_cluster,
          read_tail-slice (chain image v inode.addr k) r 0 n buffer inside fits some_left,
        )
        (ap (λ xs. some (put_bytes xs 0 buffer, ok n))
          (slice-ext (cluster_byte image v (chain image v inode.addr k))
            (file_byte image v inode.addr) r offset n
            (λ i less.
              file_byte-cluster_byte image v inode.addr k r i (omega (arith, less, fits)))))

  pub fat32_read-read_file :
      (fuel : ℕ) (inode : Inode) (offset size : ℕ) (buffer : Memory)
      → inode.type ≡ EntryType.file_entry
      → 0 < size
      → fat32_read read v fuel (some inode) offset size buffer
        ≡ read_file read v inode offset size buffer
  unfolding fat32_read read_file
  fat32_read-read_file fuel inode offset size buffer is_file more =
      let small : (size == 0) ≡ false = ground (arith, more) in rw (small, is_file) refl

  -- With a driver for a disk of 64-bit size: a request before the end of a file, whose chain by the
  -- table on the disk reaches the cluster of the offset, a cluster on the disk, and the clusters in
  -- front of it have their entries in the first sector of the table. Where the request ends in that
  -- cluster, and starts behind its first byte or in the first cluster, fat32_read puts the bytes of
  -- the file into the buffer, as many as are asked for or left, and returns their number.
  pub fat32_read-file_byte :
      (fuel : ℕ) (inode : Inode) (k r size : ℕ) (buffer : Memory)
      → inode.type ≡ EntryType.file_entry
      → k * bytes_per_cluster v + r < inode.size
      → 0 < size
      → (k ≡ 0) ⊎ (0 < r)
      → r + size_left inode (k * bytes_per_cluster v + r) size ≤ bytes_per_cluster v
      → Linked image v total inode.addr k
      → InRange v total (chain image v inode.addr k)
      → let offset = k * bytes_per_cluster v + r in
        let n = size_left inode offset size in
        fat32_read read v fuel (some inode) offset size buffer
        ≡ some (put_bytes (slice (file_byte image v inode.addr) offset n) 0 buffer, ok n)
  fat32_read-file_byte fuel inode k r size buffer is_file inside_file more behind fits linked
        inside =
      fat32_read-read_file fuel inode (k * bytes_per_cluster v + r) size buffer is_file more
      ∙ read_file-file_byte inode k r size buffer inside_file more behind fits linked inside
