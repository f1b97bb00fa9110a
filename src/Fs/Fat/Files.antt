-- ===== src/Fs/Fat/Files.antt =====
-- The operations of a FAT32 file system: kernel/fs/fat32/fat32.c.
use sdx.Prelude.{
  ℕ, zero, suc, Bool, not, Option, none, some, List, ltb, leb, get_or, ◌+◌, ◌-◌, ◌*◌, ◌/◌, ◌%◌, ◌^◌,
  ◌&&◌, ◌||◌, ◌==◌, if◌then◌else◌,
}
use sdx.Errno.{Errno, Result, ok, err}
use sdx.Util.Bits.{bit_get}
use sdx.Util.Strings.{Memory}
use sdx.Util.Timestamp.{timestamp_calc}
use sdx.Disk.{Driver, read_lba}
use sdx.Disk.Parts.{le}
use sdx.Fs.Inode.{Inode, EntryType, no_inode, full_mode, inode_serial}
use sdx.Fs.Fat.{
  Volume, u64, put_bytes, bytes_per_cluster, cluster_to_bytes, read_raw, read_bytes,
  fat32_cluster_next,
}
use sdx.Fs.Fat.Names.{Entry}
use sdx.Fs.Fat.Directory.{fat32_entry_get, fat32_entry_from}

-- `fat32_entry_cluster`
unfoldable pub entry_cluster : Entry → ℕ
entry_cluster e = le e 20 2 * 2 ^ 16 + le e 26 2

-- `fat32_entry_time_to_timestamp`, with the places of the date and the time in the entry.
unfoldable pub entry_timestamp : Entry → (date : ℕ) → (time : Option ℕ) → ℕ
entry_timestamp e date time =
    let d = le e date 2 in
    let t : ℕ = elim time [ none ↦ 0 | some place ↦ le e place 2 ] in
    timestamp_calc (d / 2 ^ 9 + 1980) (d / 2 ^ 5 % 2 ^ 4) (d % 2 ^ 5) (t / 2 ^ 11)
      (t / 2 ^ 5 % 2 ^ 6) (t % 2 ^ 5 * 2)

-- `fat32_verify_extended` and `fat32_verify_fsinfo`.
unfoldable pub verify_extended : List ℕ → Bool
verify_extended boot = get_or boot 66 0 == 0x29 || get_or boot 66 0 == 0x28

unfoldable pub verify_fsinfo : List ℕ → Bool
verify_fsinfo info =
    le info 0 4 == 0x41615252 && (le info 484 4 == 0x61417272 && le info 508 4 == 0xAA550000)

-- The volume that a boot record describes, on a partition.
unfoldable pub volume_of : List ℕ → (sector_size start : ℕ) → Volume
volume_of boot sector_size start = record {
  sector_size = sector_size;
  start = start;
  cluster_sector_count = get_or boot 13 0;
  fat_sector = le boot 14 2;
  first_data_sector = (le boot 14 2 + get_or boot 16 0 * le boot 36 4) % 2 ^ 32;
  root_cluster = le boot 44 4;
}

-- `fat32_new` on a partition, the start of which is `none` for NULL; `heap` tells whether the heap has
-- memory.
unfoldable pub fat32_new :
    Driver → (sector_size : ℕ) (start : Option ℕ) (heap : Bool) → Result Volume
fat32_new read sector_size none heap = err Errno.einval
fat32_new read sector_size (some start) heap = elim (read_lba read sector_size (u64 start) 90) [
  | none ↦ err Errno.efault
  | some boot ↦
      if not (verify_extended boot)
      then err Errno.efault
      else elim (read_lba read sector_size (u64 (start + le boot 48 2)) 512) [
        | none ↦ err Errno.efault
        | some info ↦
            if not (verify_fsinfo info)
            then err Errno.efault
            else if heap
            then ok (volume_of boot sector_size start)
            else err Errno.efault
      ]
]

-- The size that is left of a request at an offset before the end of the file.
unfoldable pub size_left : Inode → (offset size : ℕ) → ℕ
size_left inode offset size = if ltb (inode.size - offset) size then inode.size - offset else size

-- `size` after both loops, or the error.
abbrev pub with_size : ℕ → Option (Memory × Result (Unit {0})) → Option (Memory × Result ℕ)
with_size n none = none
with_size n (some (buffer, ok u)) = some (buffer, ok n)
with_size n (some (buffer, err e)) = some (buffer, err e)

-- The end of a directory is no error.
abbrev pub no_entry : Option (Memory × Result ℕ) → Option (Memory × Result ℕ)
no_entry (some (buffer, err Errno.erange)) = some (buffer, ok 0)
no_entry r = r

-- The inode that fat32_namei makes of an entry in `dir`.
unfoldable pub entry_inode : (fs : ℕ) → (dir : Inode) → Entry → Inode
entry_inode fs dir e =
    let i : Inode = record no_inode {
      type = if bit_get (get_or e 11 0) 4 == 1 then EntryType.dir_entry else EntryType.file_entry;
      addr = entry_cluster e;
      size = le e 28 4;
      ctime = entry_timestamp e 16 (some 14);
      mtime = entry_timestamp e 24 (some 22);
      atime = entry_timestamp e 18 none;
      mode = dir.mode;
    } in
    record i { serial = inode_serial fs i }

module _ (read : Driver) (v : Volume) where
  -- The loop over the clusters in front of the offset: the cluster and the offset in it.
  unfoldable pub skip_clusters : (fuel cluster offset : ℕ) → Option (Result (ℕ × ℕ))
  skip_clusters zero cluster offset = none
  skip_clusters (suc fuel) cluster offset =
      let next = fat32_cluster_next read v cluster in
      let later = skip_clusters fuel next (offset - bytes_per_cluster v) in
      if ltb (bytes_per_cluster v) offset
      then (if next == 0 then some (err Errno.einval) else later)
      else some (ok (cluster, offset))

  -- The read after the last whole cluster.
  unfoldable pub read_tail : (cluster offset index left : ℕ) → Memory → Memory × Result (Unit {0})
  read_tail cluster offset index left buffer =
      if left == 0
      then (buffer, ok tt)
      else elim (read_bytes read v (u64 (cluster_to_bytes v cluster + offset)) left) [
        | none ↦ (buffer, err Errno.eio)
        | some bytes ↦ (put_bytes bytes index buffer, ok tt)
      ]

  -- The loop over whole clusters, and the rest; `index` is the place in the buffer.
  unfoldable pub read_clusters :
      (fuel cluster offset index left : ℕ) → Memory → Option (Memory × Result (Unit {0}))
  read_clusters zero cluster offset index left buffer = none
  read_clusters (suc fuel) cluster offset index left buffer =
      let size = bytes_per_cluster v in
      if ltb size left
      then elim (read_raw read v (u64 (cluster_to_bytes v cluster + offset)) size) [
        | none ↦ some (buffer, err Errno.eio)
        | some bytes ↦
            let next = fat32_cluster_next read v cluster in
            let filled = put_bytes bytes index buffer in
            let later = read_clusters fuel next 0 (index + size) (left - size) filled in
            if next == 0 then some (filled, err Errno.einval) else later
      ]
      else some (read_tail cluster offset index left buffer)

  -- The case of a file.
  unfoldable pub read_file : Inode → (offset size : ℕ) → Memory → Option (Memory × Result ℕ)
  read_file inode offset size buffer =
      let n = size_left inode offset size in
      if leb inode.size offset
      then some (buffer, ok 0)
      else elim (skip_clusters (suc offset) inode.addr offset) [
        | none ↦ none
        | some (err e) ↦ some (buffer, err e)
        | some (ok (cluster, rest)) ↦ with_size n (read_clusters (suc n) cluster rest 0 n buffer)
      ]

  -- `fat32_read` with a buffer; the missing inode is taken for a directory, and followed.
  unfoldable pub fat32_read :
      (fuel : ℕ) → Option Inode → (offset size : ℕ) → Memory → Option (Memory × Result ℕ)
  fat32_read fuel none offset size buffer =
      if size == 0 then some (buffer, err Errno.einval) else none
  fat32_read fuel (some inode) offset size buffer =
      if size == 0 then some (buffer, err Errno.einval) else elim (inode.type) [
        | EntryType.dir_entry ↦ no_entry (fat32_entry_get read v fuel inode.addr offset size buffer)
        | EntryType.file_entry ↦ read_file inode offset size buffer
        | EntryType.link_entry ↦ some (buffer, err Errno.einval)
      ]

  -- `fat32_namei`; `fs` is the address of the file system and `none` the missing directory.
  unfoldable pub fat32_namei :
      (fuel fs : ℕ) → Option Inode → (name : List ℕ) → Memory → Option (Result Inode)
  fat32_namei fuel fs none name buffer =
      let i : Inode = record no_inode {
        type = EntryType.dir_entry;
        addr = v.root_cluster;
        mode = full_mode;
      } in
      some (ok (record i { serial = inode_serial fs i }))
  fat32_namei fuel fs (some dir) name buffer =
      elim (fat32_entry_from read v fuel dir.addr name buffer) [
        | none ↦ none
        | some (err e) ↦ some (err e)
        | some (ok e) ↦ some (ok (entry_inode fs dir e))
      ]

-- `fat32_write`
unfoldable pub fat32_write : Result ℕ
fat32_write = err Errno.enosys
