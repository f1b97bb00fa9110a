-- ===== src/Tests/Fat.antt =====
-- kernel/fs/fat32 at concrete inputs.
use mathlib.Core.Path.{subst}
use sdx.Prelude.{
  ℕ, zero, suc, refl, sym, inl, inr, false, none, some, List, [], arith, ltb, leb, replicate, Each,
  ◌+◌, ◌-◌, ◌*◌, ◌≤◌, ◌<◌, ◌≡◌, ◌⊎◌, ◌||◌, ◌∷◌, ◌++◌, ◌==◌, if◌then◌else◌,
}
use sdx.Errno.{ok}
use sdx.Util.Bits.{bit_get}
use sdx.Util.Strings.{Memory}
use sdx.Disk.{Driver}
use sdx.Disk.Image.{slice, Backed}
use sdx.Fs.Fat.Table.{fat_next, InTable}
use sdx.Fs.Inode.{EntryType, Inode, no_inode}
use sdx.Fs.Fat.{
  read_cluster, Volume, put_bytes, bytes_per_cluster, read_raw, next_in, fat32_cluster_next,
}
use sdx.Fs.Fat.Names.{Entry, Named, entry_is_last, entry_is_unused, is_lfn, low_bytes, entry_name}
use sdx.Fs.Fat.Directory.{entries_of, cluster_entries}
use sdx.Fs.Fat.Lookup.{Deleted, Used, fat32_namei-LongName}
use sdx.Fs.Fat.Files.{entry_inode, fat32_namei, size_left, fat32_read}
use sdx.Fs.Fat.Clusters.{InRange, Linked, chain}
use sdx.Fs.Fat.Contents.{cluster_byte, file_byte, fat32_read-file_byte}
use sdx.Fs.Fat.Limits.{whole_lba, fat32_cluster_next-periodic, fat32_read-two_clusters}
use sdx.Fs.Fat.Spelling.{HasPart}
use sdx.Fs.Fat.LongNames.{Parts, LongName, Finished, entry_name-LongName}

-- A disk with sectors of 16 bytes. The table is its sector 1: the cluster 3 follows the cluster 2.
abbrev image : ℕ → ℕ
image n = if n == 24 then 3 else if leb n 31 then 0 else n

-- It has a thousand sectors, and its driver refuses what is not of them.
abbrev driver : Driver
driver lba count =
    if count == 0 || ltb 1000 (lba + count)
    then none
    else some (slice image (lba * 16) (count * 16))

driver-Backed : Backed image driver 16 1000
driver-Backed = record {
  not_zero = omega arith;
  bytes = omega arith;
  reads = λ lba count more inside.
      let some_sector : (count == 0) ≡ false = ground (arith, more) in
      let on_disk : ltb 1000 (lba + count) ≡ false = ground (arith, inside) in
      rw (some_sector, on_disk) refl;
}

abbrev volume : Volume
volume = record {
  sector_size = 16;
  start = 0;
  cluster_sector_count = 1;
  fat_sector = 1;
  first_data_sector = 2;
  root_cluster = 2;
}

abbrev file : Inode
file = record no_inode { size = 100; addr = 2 }

abbrev empty : Memory
empty i = 0

next_run : fat32_cluster_next driver volume 2 ≡ 3
unfolding fat32_cluster_next read_raw next_in
next_run = refl

table_run : fat_next image volume 2 ≡ 3
unfolding fat_next
table_run = refl

chain_run : chain image volume 2 1 ≡ 3
unfolding chain
chain_run = table_run

entry_2 : InTable volume 1000 2
entry_2 = record { number = omega arith; first_sector = omega arith; on_disk = omega arith }

one_link : Linked image volume 1000 2 1
one_link = (entry_2, (λ e. absurd (omega (arith, table_run, e))), tt)

cluster_2 : InRange volume 1000 2
unfolding bytes_per_cluster
cluster_2 = record {
  is_data = omega arith;
  number = omega arith;
  sectors = omega arith;
  bytes = omega arith;
}

cluster_3 : InRange volume 1000 3
unfolding bytes_per_cluster
cluster_3 = record {
  is_data = omega arith;
  number = omega arith;
  sectors = omega arith;
  bytes = omega arith;
}

-- A read of five bytes in the second cluster.
room_run : 2 + size_left file (1 * bytes_per_cluster volume + 2) 5 ≤ bytes_per_cluster volume
unfolding size_left bytes_per_cluster
room_run = omega arith

before_end : 1 * bytes_per_cluster volume + 2 < 100
unfolding bytes_per_cluster
before_end = omega arith

fat32_read-file_byte_example :
    let offset = 1 * bytes_per_cluster volume + 2 in
    let n = size_left file offset 5 in
    fat32_read driver volume 1 (some file) offset 5 empty
    ≡ some (put_bytes (slice (file_byte image volume 2) offset n) 0 empty, ok n)
fat32_read-file_byte_example =
    fat32_read-file_byte image driver volume 1000 driver-Backed 1 file 1 2 5 empty refl before_end
      (omega arith) (inr (omega arith)) room_run one_link
      (subst (InRange volume 1000) (sym chain_run) cluster_3)

fat32_cluster_next-periodic_example :
    fat32_cluster_next driver volume (2 * 4 + 2) ≡ fat32_cluster_next driver volume 2
fat32_cluster_next-periodic_example =
    fat32_cluster_next-periodic driver volume 4 2 2 refl (omega arith)

over_run : bytes_per_cluster volume < size_left file 0 20
unfolding size_left bytes_per_cluster
over_run = omega arith

within_run : size_left file 0 20 ≤ bytes_per_cluster volume + bytes_per_cluster volume
unfolding size_left bytes_per_cluster
within_run = omega arith

place_run : whole_lba volume 2 + bytes_per_cluster volume ≤ 1000
unfolding bytes_per_cluster
place_run = omega arith

fat32_read-two_clusters_example :
    let n = size_left file 0 20 in
    let first = slice image (whole_lba volume 2 * 16) (bytes_per_cluster volume * 16) in
    let second =
      slice
        (cluster_byte image volume (fat_next image volume 2))
        0
        (n - bytes_per_cluster volume) in
    fat32_read driver volume 1 (some file) 0 20 empty
    ≡ some (put_bytes second (bytes_per_cluster volume) (put_bytes first 0 empty), ok n)
fat32_read-two_clusters_example =
    fat32_read-two_clusters image driver volume 1000 driver-Backed 1 file 20 empty refl over_run
      within_run entry_2 (one_link.1) cluster_2
      (subst (InRange volume 1000) (sym table_run) cluster_3) place_run

-- The long name "ab" in one part, and its short entry.
abbrev part_entry : Entry
part_entry =
    0x41 ∷ 0x61 ∷ 0 ∷ 0x62 ∷ 0 ∷ 0 ∷ 0 ∷ 255 ∷ 255 ∷ 255 ∷ 255 ∷ 0x0f ∷ 0 ∷ 0 ∷ replicate 12 255
    ++ (0 ∷ 0 ∷ replicate 4 255)

abbrev short_entry : Entry
short_entry = 0x41 ∷ 0x42 ∷ replicate 9 0x20 ++ replicate 21 0

abbrev name_ab : List ℕ
name_ab = 0x61 ∷ 0x62 ∷ []

fill : (n : ℕ) → Each (λ (b : ℕ). (b ≡ 0) ⊎ (b ≡ 255)) (replicate n 255)
fill zero = tt
fill (suc n) = (inr refl, fill n)

part_run : HasPart part_entry name_ab
unfolding low_bytes
part_run = (refl, omega arith, omega arith, (refl, omega arith, omega arith, (inl refl, fill 10)))

long_run : LongName 0 (part_entry ∷ short_entry ∷ []) name_ab
unfolding LongName Parts entry_is_last entry_is_unused is_lfn bit_get
long_run = (
  [],
  name_ab,
  refl,
  refl,
  omega arith,
  omega arith,
  part_run,
  refl,
  refl,
  refl,
  ((refl, refl, refl), refl),
)

entry_name-LongName_example :
    (n : Named) × (entry_name 3 (part_entry ∷ short_entry ∷ []) empty ≡ some n)
    × Finished name_ab (short_entry ∷ []) n
entry_name-LongName_example =
    entry_name-LongName 3 0 (part_entry ∷ short_entry ∷ []) name_ab empty long_run (omega arith)
      (omega arith)

-- A directory with a deleted entry, the name "ab" and its entry, in a cluster of 96 bytes.
abbrev deleted_entry : Entry
deleted_entry = 0xe5 ∷ replicate 31 0

abbrev directory : Driver
directory lba count = some (deleted_entry ++ (part_entry ++ short_entry))

abbrev small_volume : Volume
small_volume = record volume { sector_size = 96 }

cluster_run :
    cluster_entries directory small_volume 2 ≡ some (deleted_entry ∷ part_entry ∷ short_entry ∷ [])
unfolding cluster_entries read_cluster read_raw bytes_per_cluster entries_of
cluster_run = refl

gone_entries : Each Deleted (deleted_entry ∷ [])
unfolding entry_is_last entry_is_unused
gone_entries = ((refl, refl), tt)

first_entries : Used (part_entry ∷ short_entry ∷ [])
unfolding entry_is_last entry_is_unused
first_entries = (refl, refl)

abbrev root_dir : Inode
root_dir = record no_inode { type = EntryType.dir_entry; addr = 2 }

fat32_namei-LongName_example :
    fat32_namei directory small_volume 1 0 (some root_dir) name_ab empty
    ≡ some (ok (entry_inode 0 root_dir short_entry))
fat32_namei-LongName_example =
    fat32_namei-LongName directory small_volume 0 0 0 root_dir name_ab (deleted_entry ∷ [])
      (part_entry ∷ short_entry ∷ []) [] short_entry empty cluster_run gone_entries first_entries
      long_run refl (omega arith)
