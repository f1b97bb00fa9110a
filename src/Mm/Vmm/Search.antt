-- ===== src/Mm/Vmm/Search.antt =====
-- The searches of kernel/mm/vmm.c that read the tables: __vmm_find_contiguous, and the checks of
-- vmm_map_vaddr.
use sdx.Prelude.{
  ℕ, zero, suc, Bool, true, false, not, Option, none, some, leb, ◌+◌, ◌%◌, ◌&&◌, ◌||◌, ◌==◌,
  if◌then◌else◌,
}
use sdx.Util.Math.{u64_mod}
use sdx.Mm.Vmm.{
  has_attr, reuse, user, Space, entry_from_vaddr, user_start, kernel_start, does_contain,
}

-- The loop of __vmm_find_contiguous, which has no end in the source; `none` where the fuel runs out.
unfoldable pub find_from : Space → (num align fuel place start cur : ℕ) → Option ℕ
find_from s num align zero place start cur = none
find_from s num align (suc fuel) place start cur =
    let skip = cur == 0 && not (align == 0) && not (place % align == 0) in
    let start' = if cur == 0 && not skip then place else start in
    let cur' =
      if skip then cur else elim (entry_from_vaddr s place) [ none ↦ cur + 1 | some _ ↦ 0 ] in
    let rest = find_from s num align fuel ((place + 4096) % u64_mod) start' cur' in
    if leb num cur then some start else rest

unfoldable pub find_contiguous : Space → (fuel num align attr : ℕ) → Option ℕ
find_contiguous s fuel num align attr =
    find_from s num align fuel (if has_attr attr user then user_start else kernel_start) 0 0

-- The checks of vmm_map_vaddr over `num` pages from an address on.
unfoldable pub can_map : (kernel_end attr num vaddr : ℕ) → Space → Bool
can_map kernel_end attr zero v s = true
can_map kernel_end attr (suc num) v s =
    does_contain kernel_end v
    && (has_attr attr reuse || elim (entry_from_vaddr s v) [ none ↦ true | some _ ↦ false ])
    && can_map kernel_end attr num ((v + 4096) % u64_mod) s
