-- ===== src/Disk.antt =====
-- Reading from a disk: kernel/core/disk/disk.c. The driver behind disk_do (kernel/core/ahci) is a
-- parameter; a read gives the bytes, or `none` where the source returns false or divides by 0.
pub mod Image
pub mod Parts
pub mod Write
use sdx.Prelude.{
  ℕ, zero, suc, Option, none, some, List, take, drop, ◌+◌, ◌/◌, ◌%◌, ◌++◌, ◌==◌, if◌then◌else◌,
}
use sdx.Util.Math.{u64_mod}

-- What disk_do reads: `count` sectors from `lba` on.
abbrev pub Driver : Type 0
Driver = (lba count : ℕ) → Option (List ℕ)

-- Bytes behind those of a later read, which `none` makes fail.
abbrev pub append_read : List ℕ → Option (List ℕ) → Option (List ℕ)
append_read xs none = none
append_read xs (some ys) = some (xs ++ ys)

module _ (read : Driver) (sector_size : ℕ) where
  -- The copy of the rest that is smaller than a sector.
  unfoldable pub read_rest : (lba rest : ℕ) → Option (List ℕ)
  read_rest lba rest = elim (read lba 1) [ none ↦ none | some bytes ↦ some (take rest bytes) ]

  -- The loop over whole sectors, `count` of them, and the rest.
  unfoldable pub read_sectors : (count lba rest : ℕ) → Option (List ℕ)
  read_sectors zero lba rest = read_rest lba rest
  read_sectors (suc count) lba rest =
      let later = read_sectors count ((lba + 1) % u64_mod) rest in
      elim (read lba 1) [ none ↦ none | some bytes ↦ append_read bytes later ]

  unfoldable pub read_lba : (lba size : ℕ) → Option (List ℕ)
  read_lba lba size =
      if sector_size == 0
      then none
      else if size % sector_size == 0
      then read lba (size / sector_size)
      else read_sectors (size / sector_size) lba (size % sector_size)

  unfoldable pub disk_read : (offset size : ℕ) → Option (List ℕ)
  disk_read offset size =
      if sector_size == 0
      then none
      else if offset % sector_size == 0
      then read_lba (offset / sector_size) size
      else elim (read_lba (offset / sector_size) ((offset % sector_size + size) % u64_mod)) [
        | none ↦ none
        | some bytes ↦ some (take size (drop (offset % sector_size) bytes))
      ]
