-- ===== src/Mm/Vmm/Address.antt =====
-- Virtual addresses and their indexes in kernel/mm/vmm.c.
use sdx.Prelude.{ℕ, arith, ◌+◌, ◌%◌, ◌^◌, ◌≤◌, ◌<◌, ◌≡◌, ◌⊎◌}
use sdx.Mm.Vmm.{pml4_index, pdpt_index, pd_index, pt_index, indexes_to_addr}

-- The upper 17 bits are equal, as the processor wants it.
abbrev pub IsCanonical : ℕ → Type 0
IsCanonical v = (v < 2 ^ 47) ⊎ ((2 ^ 64 ≤ v + 2 ^ 47) × (v < 2 ^ 64))

-- vmm_indexes_to_addr makes a canonical page address of four indexes below 512, and the index macros
-- read the same four indexes from it.
pub index-indexes_to_addr :
    (a b c d : ℕ)
    → a < 512
    → b < 512
    → c < 512
    → d < 512
    → (pml4_index (indexes_to_addr a b c d) ≡ a)
      × (pdpt_index (indexes_to_addr a b c d) ≡ b)
      × (pd_index (indexes_to_addr a b c d) ≡ c)
      × (pt_index (indexes_to_addr a b c d) ≡ d)
      × (indexes_to_addr a b c d % 4096 ≡ 0)
      × IsCanonical (indexes_to_addr a b c d)
unfolding indexes_to_addr
index-indexes_to_addr a b c d p q r s = ground arith

-- Every canonical page address is the one that vmm_indexes_to_addr makes of its indexes.
pub indexes_to_addr-index :
    (v : ℕ)
    → IsCanonical v
    → v % 4096 ≡ 0
    → indexes_to_addr (pml4_index v) (pdpt_index v) (pd_index v) (pt_index v) ≡ v
unfolding indexes_to_addr
indexes_to_addr-index v canonical aligned = ground arith
