-- ===== src/Disk/Parts/Fuel.antt =====
-- The fuel of the loop of gpt_load (kernel/core/gpt.c).
use sdx.Prelude.{
  ℕ, zero, suc, refl, sym, ap, false, none, some, List, [], arith, ltb, ◌+◌, ◌/◌, ◌%◌, ◌≤◌, ◌<◌,
  ◌≡◌, ◌∙◌, ◌++◌, if◌then◌else◌,
}
use sdx.Disk.{Driver}
use sdx.Disk.Parts.{Row, gpt_row, rows_at, gpt_rows}
use sdx.Util.Math.{u64_mod}

module _ (read : Driver) (per_sector entry_size lba_array entry_count : ℕ) where
  past_end :
      (fuel i : ℕ)
      → ltb i entry_count ≡ false
      → gpt_rows read per_sector entry_size lba_array entry_count fuel i ≡ []
  unfolding gpt_rows
  past_end zero i e = refl
  past_end (suc fuel) i e = rw e refl

  same_rest :
      (fuel fuel' i : ℕ)
      → gpt_rows read per_sector entry_size lba_array entry_count fuel (i + per_sector)
        ≡ gpt_rows read per_sector entry_size lba_array entry_count fuel' (i + per_sector)
      → gpt_rows read per_sector entry_size lba_array entry_count (suc fuel) i
        ≡ gpt_rows read per_sector entry_size lba_array entry_count (suc fuel') i
  unfolding gpt_rows
  same_rest fuel fuel' i e =
      ap
        (λ (rest : List Row).
          if ltb i entry_count
          then elim (read ((lba_array + i / per_sector) % u64_mod) 1) [
            | none ↦ rest
            | some bytes ↦ rows_at gpt_row bytes 0 entry_size per_sector ++ rest
          ]
          else [])
        e

suc_add : (m n : ℕ) → suc m + n ≡ suc (m + n)
suc_add m n = omega arith

-- Where a sector holds at least one entry, fuel for the entries that are left is enough: with more of
-- it, the loop of gpt_load finds the same rows.
pub gpt_rows-enough :
    (read : Driver) (per_sector entry_size lba_array entry_count more fuel i : ℕ)
    → 0 < per_sector
    → entry_count ≤ fuel + i
    → gpt_rows read per_sector entry_size lba_array entry_count (fuel + more) i
      ≡ gpt_rows read per_sector entry_size lba_array entry_count fuel i
gpt_rows-enough read per_sector entry_size lba_array entry_count more zero i p le =
    past_end read per_sector entry_size lba_array entry_count (0 + more) i (ground (arith, le))
    ∙ sym (past_end read per_sector entry_size lba_array entry_count 0 i (ground (arith, le)))
gpt_rows-enough read per_sector entry_size lba_array entry_count more (suc fuel) i p le =
    rw (suc_add fuel more) (
      same_rest read per_sector entry_size lba_array entry_count (fuel + more) fuel i (
        gpt_rows-enough read per_sector entry_size lba_array entry_count more fuel (i + per_sector)
          p (omega (arith, le))))
