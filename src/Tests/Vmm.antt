-- ===== src/Tests/Vmm.antt =====
-- kernel/mm/vmm.c at concrete inputs, over the page allocator of kernel/mm/pmm.c.
use sdx.Prelude.{ℕ, refl, true, none, some, [], arith, ◌+◌, ◌*◌, ◌%◌, ◌^◌, ◌<◌, ◌≡◌, ◌≢◌, ◌⊎◌}
use sdx.Util.Bits.{bit_get}
use sdx.Mm.Pages.{Pages}
use sdx.Mm.Pmm.{Pmm}
use sdx.Mm.PmmPages.{IsLow, alloc_pages, pmm_pages}
use sdx.Mm.Vmm.{
  pml4_index, pdpt_index, pd_index, pt_index, indexes_to_addr, entry_to_addr, has_attr, Space, walk,
  entry_from_vaddr, does_contain,
}
use sdx.Mm.Vmm.Address.{IsCanonical, index-indexes_to_addr}
use sdx.Mm.Vmm.Search.{find_from, find_contiguous}
use sdx.Mm.Vmm.Find.{FoundAt, first_page}
use sdx.Mm.Vmm.Ops.{Vmm, map_pages, vmm_map}
use sdx.Mm.Vmm.Tables.{Outcome}
use sdx.Mm.Vmm.Range.{page_offset}
use sdx.Mm.Vmm.Ordinary.{IsOrdinary, Leads, Allotted, map_pages-Leads, vmm_map-Allotted}
use sdx.Errno.{ok}
use sdx.Mm.Region.{Region}
use sdx.Mm.Region.Mapping.{type_attr, region_attr, region_map, Placed, region_map-Placed}
use sdx.Tests.Mm.{machine, region, region-IsReady, alloc_run}

abbrev pages : Pages
pages = pmm_pages machine

region-IsLow : IsLow region
region-IsLow = record { ready = region-IsReady; page = refl; low = omega arith }

-- No tables but the PML4.
abbrev no_tables : Space
no_tables = record { pml4 = λ a. 0; pdpt = λ a b. 0; pd = λ a b c. 0; pt = λ a b c d. 0 }

-- Tables in which every entry is there.
abbrev full_tables : Space
full_tables = record {
  pml4 = λ a. 0x201003;
  pdpt = λ a b. 0x201003;
  pd = λ a b c. 0x201003;
  pt = λ a b c d. 0x201203;
}

abbrev fresh_vmm : Vmm Pmm
fresh_vmm = record { space = no_tables; root = 0x200000; memory = region; tasks = [] }

abbrev full_vmm : Vmm Pmm
full_vmm = record { space = full_tables; root = 0x200000; memory = region; tasks = [] }

abbrev base : ℕ
base = 0xffff800000000000

no_entry : (w : ℕ) → entry_from_vaddr no_tables w ≡ none
unfolding entry_from_vaddr walk
no_entry w = refl

-- Both pages are in the slot 256.
ordinary : (w : ℕ) → page_offset base w < 2 → IsOrdinary w
ordinary w lt = omega (arith, lt)

map_pages-Leads_example :
    Outcome pages
      (Leads pages base 2 0x300000 fresh_vmm)
      (map_pages pages 0 2 0x300000 base fresh_vmm)
map_pages-Leads_example =
    map_pages-Leads pages 0 2 0x300000 base fresh_vmm region-IsLow (omega arith) (omega arith)
      (omega arith) (λ w lt. ordinary w lt) (λ w lt e. cc (no_entry w, e))

find_run : find_contiguous no_tables 3 1 0 0 ≡ some base
unfolding find_contiguous find_from has_attr bit_get entry_from_vaddr walk
find_run = refl

given_page : (alloc_pages machine 1 0 region).0 ≢ 0
unfolding alloc_pages
given_page = rw (alloc_run, alloc_pages) (λ e. omega (arith, e))

vmm_map-Allotted_example :
    FoundAt no_tables 1 0 base × Allotted pages 1 0 base fresh_vmm (vmm_map pages 3 1 0 0 fresh_vmm)
vmm_map-Allotted_example =
    vmm_map-Allotted pages 3 1 0 0 base fresh_vmm region-IsLow (omega arith) find_run (omega arith)
      (λ w lt. ordinary w (omega (arith, lt))) given_page

first_aligned : (first_page 0 + 0 * 4096) % 2 ^ 64 % 8192 ≡ 0
unfolding has_attr bit_get
first_aligned = refl

index-indexes_to_addr_example :
    (pml4_index (indexes_to_addr 256 1 2 3) ≡ 256)
    × (pdpt_index (indexes_to_addr 256 1 2 3) ≡ 1)
    × (pd_index (indexes_to_addr 256 1 2 3) ≡ 2)
    × (pt_index (indexes_to_addr 256 1 2 3) ≡ 3)
    × (indexes_to_addr 256 1 2 3 % 4096 ≡ 0)
    × IsCanonical (indexes_to_addr 256 1 2 3)
index-indexes_to_addr_example =
    index-indexes_to_addr 256 1 2 3 (omega arith) (omega arith) (omega arith) (omega arith)

abbrev kernel_base : ℕ
kernel_base = 0xffffffff80000000

contained : does_contain kernel_base 0xffff800000001000 ≡ true
unfolding does_contain
contained = refl

full_addr : entry_to_addr 0x201203 ≡ 0x201000
unfolding entry_to_addr
full_addr = refl

-- A new region of one page of code for the kernel.
abbrev new_region : Region
new_region = record { ptr = 64; type = 1; vma = 1; vaddr = 0; paddr = 0; num = 1 }

find_region : find_contiguous no_tables 3 1 0 (region_attr 1 1) ≡ some base
unfolding find_contiguous find_from has_attr bit_get entry_from_vaddr walk region_attr type_attr
find_region = refl

region_map-Placed_example :
    ((m : Pmm) × IsLow m
      × ((alloc_pages machine 1 0 m).0 ≡ 0)
      × (region_map pages kernel_base 3 new_region fresh_vmm ≡ none))
    ⊎ ((r' : Region) × (s' : Vmm Pmm) × (region_map pages kernel_base 3 new_region fresh_vmm
          ≡ some (ok tt, r', s'))
        × Placed pages new_region base fresh_vmm r' s')
region_map-Placed_example =
    region_map-Placed pages kernel_base 3 base new_region fresh_vmm region-IsLow refl (omega arith)
      (omega arith) find_region (omega arith) given_page
