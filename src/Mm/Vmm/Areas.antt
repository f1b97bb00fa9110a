-- ===== src/Mm/Vmm/Areas.antt =====
-- vmm_vma and the areas of kernel/mm/vmm.c.
use sdx.Prelude.{ℕ, true, arith, ltb, ◌<◌, ◌≡◌, ◌≢◌, if◌then◌else◌}
use sdx.Mm.Vmm.{Area, kernel_area, user_area, user_end, kernel_start, does_contain, vmm_vma}

-- The area that a contained address stands in.
abbrev pub area_of : ℕ → Area
area_of addr = if ltb addr user_end then user_area else kernel_area

-- vmm_vma gives the other area for every address of an area but the first of the kernel's.
pub vmm_vma_swapped :
    (kernel_end addr : ℕ)
    → kernel_start < kernel_end
    → does_contain kernel_end addr ≡ true
    → addr ≢ kernel_start
    → vmm_vma kernel_end addr ≢ area_of addr
unfolding vmm_vma does_contain
vmm_vma_swapped kernel_end addr above inside other = ground (arith, inside)
