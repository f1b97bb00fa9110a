-- ===== src/Disk/Parts/Scan.antt =====
-- What a scan of a disk makes of its list of partitions.
use sdx.Prelude.{ℕ, true, List, length, Each, Exists, ◌%◌, ◌^◌, ◌≡◌}
use sdx.Disk.Parts.{Part, Disk, Row}
use sdx.Disk.Parts.Clear.{Stands}

-- The object of a row, as disk_part_add makes it and the loader completes it.
abbrev made : Row → Part
made row = record { start = row.start; size = row.size; bootable = row.bootable; available = true }

module _ (L : ℕ → ℕ → Type 0) where
  -- Only listed partitions are available, and the count is right.
  record Kept (d : Disk) : Type 0 where
    listed : Each (λ p. p.available ≡ true → L p.start p.size) d.parts
    count : d.part_count ≡ length d.parts % 2 ^ 32

-- A row with this start and size is in the table.
abbrev pub Listed : List Row → ℕ → ℕ → Type 0
Listed rows start size = Exists (λ row. (row.start ≡ start) × (row.size ≡ size)) rows

-- The disk has exactly the partitions of a table: each of its partitions is available and is one of
-- the rows, each row is one of its partitions, and the count is right.
pub record Shows (rows : List Row) (d : Disk) : Type 0 where
  pub usable : d.available ≡ true
  pub only : Each (λ p. (p.available ≡ true) × Listed rows p.start p.size) d.parts
  pub every : Each (λ row. Exists (Stands row) d.parts) rows
  pub counted : d.part_count ≡ length d.parts % 2 ^ 32
