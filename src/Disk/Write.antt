-- ===== src/Disk/Write.antt =====
-- Writing to a disk: disk_write_lba and disk_write of kernel/core/disk/disk.c. The driver's write is a
-- parameter over its own state; `none` is a division by 0.
use native.Mathlib.Nat.{mod-eq_of_lt}
use sdx.Prelude.{
  ℕ, inl, inr, Bool, true, false, not, Option, none, some, arith, leb, Bool-cases, ◌/◌, ◌%◌, ◌≤◌,
  ◌<◌, ◌≡◌, ◌⊎◌, ◌==◌, if◌then◌else◌,
}

module _ (State : Type 0) (write : (lba count : ℕ) → State → Bool × State) (sector_size : ℕ) where
  unfoldable pub disk_write_lba : (lba size : ℕ) → State → Option (Bool × State)
  disk_write_lba lba size s =
      if size == 0
      then none
      else if not (sector_size % size == 0)
      then some (false, s)
      else if sector_size == 0
      then none
      else some (write lba (size / sector_size) s)

  unfoldable pub disk_write : (offset size : ℕ) → State → Option (Bool × State)
  disk_write offset size s =
      if offset == 0
      then none
      else if not (sector_size % offset == 0)
      then some (false, s)
      else if sector_size == 0
      then none
      else disk_write_lba (offset / sector_size) size s

  -- A write of `size` bytes at `offset` is refused, or both are within one sector.
  abbrev pub Within : (offset size : ℕ) → State → Option (Bool × State) → Type 0
  Within offset size s r =
      (r ≡ some (false, s))
      ⊎ ((offset ≤ sector_size)
          × (size ≤ sector_size)
          × (r ≡ some (write (offset / sector_size) (size / sector_size) s)))

  divides-le : (n : ℕ) → 0 < sector_size → (sector_size % n == 0) ≡ true → n ≤ sector_size
  divides-le n p e = elim (Bool-cases (leb n sector_size)) [
    | inl le ↦ ground (arith, le)
    | inr lt ↦
        absurd
          (ground (arith, p, e, lt, mod-eq_of_lt {n = sector_size} {m = n} (ground (arith, lt))))
  ]

  -- With sectors that are not empty, disk_write at an offset and of a size that are not 0 either writes
  -- nothing and returns false, or the offset and the size are at most one sector: no other write
  -- reaches the driver.
  pub disk_write-Within :
      (offset size : ℕ) (s : State)
      → 0 < sector_size
      → 0 < offset
      → 0 < size
      → Within offset size s (disk_write offset size s)
  unfolding disk_write disk_write_lba
  disk_write-Within offset size s p po ps = elim (Bool-cases (sector_size % offset == 0)) [
    | inr e ↦ inl (ground (arith, po, e))
    | inl e ↦ elim (Bool-cases (sector_size % size == 0)) [
      | inr e' ↦ inl (ground (arith, po, ps, p, e, e'))
      | inl e' ↦ inr (divides-le offset p e, divides-le size p e', ground (arith, po, ps, p, e, e'))
    ]
  ]
