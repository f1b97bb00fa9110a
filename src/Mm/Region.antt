-- ===== src/Mm/Region.antt =====
-- The memory regions of a task: kernel/mm/region.c. A list stands for the chain of region objects, and
-- `ptr` is an object's address.
pub mod Chain
pub mod Mapping
use Prim.Native.Nat.{bit_or}
use sdx.Prelude.{ℕ, Bool, Option, none, some, List, [], ◌&&◌, ◌||◌, ◌∷◌, ◌==◌, if◌then◌else◌}
use sdx.Errno.{Errno, Result, ok, err}

-- `region_t`, with its address.
pub record Region : Type 0 where
  pub ptr : ℕ
  pub type : ℕ
  pub vma : ℕ
  pub vaddr : ℕ
  pub paddr : ℕ
  pub num : ℕ

-- The end of region_add's walk; `new` can be a list.
unfoldable pub append_regions : List Region → List Region → List Region
append_regions [] new = new
append_regions (r ∷ rs) new = r ∷ append_regions rs new

unfoldable pub region_add : (head new : List Region) → Result (Unit {0}) × List Region
region_add head [] = (err Errno.einval, head)
region_add head (r ∷ rs) = (ok tt, append_regions head (r ∷ rs))

-- The loop of region_del: the list without the first object at an address.
unfoldable pub without : (mem : ℕ) → List Region → List Region
without mem [] = []
without mem (r ∷ rs) = if r.ptr == mem then rs else r ∷ without mem rs

unfoldable pub region_del : (mem : ℕ) → List Region → Result (Unit {0}) × List Region
region_del mem head = if mem == 0 then (err Errno.einval, head) else (ok tt, without mem head)

-- The test of region_find; the type 0 stands for every type.
abbrev pub is_match : (type vma : ℕ) → Region → Bool
is_match type vma r = (type == 0 || type == r.type) && r.vma == vma

unfoldable pub region_find : (type vma : ℕ) → List Region → Option Region
region_find type vma [] = none
region_find type vma (r ∷ rs) = if is_match type vma r then some r else region_find type vma rs
