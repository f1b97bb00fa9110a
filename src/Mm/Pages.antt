-- ===== src/Mm/Pages.antt =====
-- What the virtual memory manager uses of the physical page allocator: pmm_alloc and pmm_free, with
-- the laws that kernel/mm/vmm.c relies on.
use sdx.Prelude.{ℕ, ◌+◌, ◌*◌, ◌%◌, ◌^◌, ◌≤◌, ◌<◌, ◌≡◌, ◌≢◌}
use sdx.Errno.{Result}

-- An address of 0 is a failed allocation. A sound state stays sound, and gives out page addresses that
-- fit the 47 bits of a lower half address.
pub record Pages : Type 1 where
  pub State : Type 0
  pub IsSound : State → Type 0
  pub alloc : (num align : ℕ) → State → ℕ × State
  pub free : (addr num : ℕ) → State → Result (Unit {0}) × State
  pub alloc-IsSound :
      (num align : ℕ) (s : State) → 0 < num → IsSound s → IsSound (alloc num align s).1
  pub alloc_aligned :
      (num align : ℕ) (s : State) → 0 < num → IsSound s → (alloc num align s).0 % 4096 ≡ 0
  pub alloc_bound :
      (num align : ℕ) (s : State)
      → 0 < num
      → IsSound s
      → (alloc num align s).0 ≢ 0
      → (alloc num align s).0 + num * 4096 ≤ 2 ^ 47
