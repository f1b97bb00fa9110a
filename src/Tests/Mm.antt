-- ===== src/Tests/Mm.antt =====
-- kernel/mm at concrete inputs.
use sdx.Prelude.{ℕ, refl, true, false, some, [], arith, ◌<◌, ◌≡◌, ◌∷◌}
use sdx.Errno.{Errno, ok, err}
use sdx.Mm.Pmm.{
  Machine, Pmm, max_index, bad_align, pos_from_addr, pos_get, pos_set, pos_next, is_free_memory,
  is_ready, pos_to_addr,
}
use sdx.Mm.Pmm.Bitmap.{used}
use sdx.Mm.Pmm.Scan.{FreeRun, Fits, page_addr}
use sdx.Mm.Pmm.Ops.{alloc, free, scan, mark}
use sdx.Mm.Pmm.Alloc.{
  Outcome, Allocated, IsReady, alloc-Outcome, alloc-Fits, free-alloc, free_double,
}
use sdx.Mm.Region.{Region}
use sdx.Util.Bits.{bit_get, bit_on}

-- 16 MiB of memory, a kernel of 1 MiB at 1 MiB, and a page of boot information.
abbrev pub machine : Machine
machine = record {
  kernel = record { start = 0x100000; end = 0x200000 };
  mb_info = record { start = 0x9000; end = 0xA000 };
  mmap = record { available = true; addr = 0; len = 0x1000000 } ∷ [];
}

-- A region from the end of the kernel on, with the first two pages allocated.
abbrev pub region : Pmm
region = record { start = 0x200000; end = 0x240000; pos = 0x200000; bm = some (3 ∷ []) }

pub region-IsReady : IsReady region
region-IsReady = record { has_bitmap = omega arith; range = omega arith }

one_page : 0 < 1
one_page = omega arith

pub alloc_run : alloc machine region 1 0 ≡ some (0x202000, record region { bm = some (7 ∷ []) })
unfolding alloc scan mark pos_get pos_set pos_next pos_from_addr is_ready pos_to_addr is_free_memory
    bad_align bit_get bit_on
alloc_run = refl

alloc-Outcome_example : Outcome machine region 1 0 (alloc machine region 1 0)
alloc-Outcome_example = alloc-Outcome machine region 1 0 one_page region-IsReady

good_align : bad_align 0 ≡ false
unfolding bad_align
good_align = refl

free_page_two : FreeRun machine region 2 1
unfolding pos_get bit_get is_free_memory
free_page_two i p q = let e : i ≡ 2 = omega arith in rw e (refl, refl)

Fits-two : Fits machine region 1 0 2
Fits-two = record { inside = omega arith; run = free_page_two; aligned = omega arith }

alloc-Fits_example :
    (addr : ℕ) × (s' : Pmm) × (alloc machine region 1 0 ≡ some (addr, s'))
    × Allocated machine region 1 0 addr s'
alloc-Fits_example = alloc-Fits machine region 1 0 one_page region-IsReady 2 good_align Fits-two

abbrev region_after : Pmm
region_after = record region { bm = some (7 ∷ []) }

free-alloc_example :
    ((free region_after 0x202000 1).0 ≡ ok tt)
    × ((k : ℕ) → used (free region_after 0x202000 1).1 k ≡ used region k)
    × ((free region_after 0x202000 1).1.start ≡ 0x200000)
    × (max_index (free region_after 0x202000 1).1 ≡ 1)
free-alloc_example =
    free-alloc machine region 1 0 one_page region-IsReady 0x202000 region_after alloc_run
      (omega arith)

page_two_free : used region 2 ≡ 0
unfolding pos_get bit_get
page_two_free = refl

free_double_example : (free region (page_addr region 1) 2).0 ≡ err Errno.efault
free_double_example =
    free_double region 1 2 2 region-IsReady (omega arith) (omega arith) (omega arith) page_two_free

abbrev code_region : Region
code_region = record { ptr = 0x1000; type = 1; vma = 2; vaddr = 0x400000; paddr = 0; num = 4 }

abbrev stack_region : Region
stack_region = record { ptr = 0x2000; type = 5; vma = 2; vaddr = 0; paddr = 0; num = 2 }
