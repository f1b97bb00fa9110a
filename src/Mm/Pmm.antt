-- ===== src/Mm/Pmm.antt =====
-- kernel/mm/pmm.c: the physical page allocator and its bitmap.
pub mod Ops
pub mod Bitmap
pub mod Scan
pub mod Mark
pub mod Alloc
use sdx.Prelude.{
  ℕ, Bool, true, false, not, Option, none, some, List, [], ltb, leb, length, get_or, set, ◌+◌, ◌-◌,
  ◌*◌, ◌/◌, ◌%◌, ◌&&◌, ◌||◌, ◌∷◌, ◌==◌, if◌then◌else◌,
}
use sdx.Errno.{Errno, Result, ok, err}
use sdx.Util.Bits.{bit_get, bit_on, bit_off}
use sdx.Util.Math.{u64_mod}

abbrev pub page_size : ℕ
page_size = 4096

-- Bits in a bitmap entry.
abbrev pub entry_bits : ℕ
entry_bits = 64

-- `pmm_bm_pos_t`: the entry and the bit in it.
pub record Pos : Type 0 where
  pub bit : ℕ
  pub index : ℕ

-- An entry of the multiboot memory map.
pub record MmapEntry : Type 0 where
  pub available : Bool
  pub addr : ℕ
  pub len : ℕ

-- `struct pmm_reg` without its position, as in `pmm_reg_known`.
pub record Range : Type 0 where
  pub start : ℕ
  pub end : ℕ

-- What the boot code and the linker script place in memory.
pub record Machine : Type 0 where
  pub kernel : Range
  pub mb_info : Range
  pub mmap : List MmapEntry

-- `pmm_reg_free` and the bitmap. `bm` is `none` while `pmm_bm` is NULL; an entry is a number below
-- 2^64, and `pmm_bm_size` is eight times the number of entries.
pub record Pmm : Type 0 where
  pub start : ℕ
  pub end : ℕ
  pub pos : ℕ
  pub bm : Option (List ℕ)

-- The entries; none before the bitmap is there.
abbrev pub entries : Pmm → List ℕ
entries s = elim s.bm [ none ↦ [] | some ws ↦ ws ]

-- `__pmm_bm_get_max_index`
abbrev pub max_index : Pmm → ℕ
max_index s = length (entries s)

-- `__pmm_bm_is_ready`
unfoldable pub is_ready : Pmm → Bool
is_ready s = not (max_index s == 0)

-- `__pmm_bm_pos_to_addr`
unfoldable pub pos_to_addr : Pmm → Pos → ℕ
pos_to_addr s p = (s.start + (p.bit + p.index * entry_bits) * page_size) % u64_mod

-- `__pmm_bm_pos_get`
unfoldable pub pos_get : Pmm → Pos → ℕ
pos_get s p = bit_get (get_or (entries s) p.index 0) p.bit

-- The write of one entry.
unfoldable pub update_entry : Pmm → ℕ → (ℕ → ℕ) → Pmm
update_entry s i f = record s { bm = some (set (entries s) i (f (get_or (entries s) i 0))) }

-- `__pmm_bm_pos_set` and `__pmm_bm_pos_clear`
unfoldable pub pos_set : Pmm → Pos → Pmm
unfolding update_entry
pos_set s p = update_entry s p.index (λ w. bit_on w p.bit)

unfoldable pub pos_clear : Pmm → Pos → Pmm
unfolding update_entry
pos_clear s p = update_entry s p.index (λ w. bit_off w p.bit)

-- The subtraction wraps. The flag says whether the position is in the bitmap.
unfoldable pub pos_from_addr : Pmm → ℕ → Bool × Pos
unfolding is_ready
pos_from_addr s addr =
    let page = (addr + u64_mod - s.start) % u64_mod / page_size in
    let p : Pos = record { bit = page % entry_bits; index = page / entry_bits } in
    (is_ready s && ltb p.index (max_index s), p)

-- The position moves also where the end of the bitmap is reported.
unfoldable pub pos_next : Pmm → Pos → Result ℕ × Pos
unfolding is_ready pos_get
pos_next s p =
    let wraps = leb entry_bits (p.bit + 1) in
    let q : Pos =
      if wraps
      then record { bit = 0; index = p.index + 1 }
      else record { bit = p.bit + 1; index = p.index } in
    if not (is_ready s)
    then (err Errno.efault, p)
    else if leb (max_index s) q.index
    then (err Errno.erange, q)
    else (ok (pos_get s q), q)

-- `__pmm_reg_contains`
unfoldable pub reg_contains : Range → ℕ → Bool
reg_contains r addr = ltb addr r.end && leb r.start addr

-- `pmm_reg_known`, up to the entry of zeros that ends it.
abbrev pub reg_known : List Range
reg_known = record { start = 0xA0000; end = 0xBFFFF } ∷ []

unfoldable pub any_contains : List Range → ℕ → Bool
unfolding reg_contains
any_contains [] addr = false
any_contains (r ∷ rs) addr = reg_contains r addr || any_contains rs addr

-- The last loop of __pmm_is_free_memory; both sums wrap.
unfoldable pub in_mmap : List MmapEntry → ℕ → Bool
in_mmap [] addr = false
in_mmap (m ∷ ms) addr =
    let rest = in_mmap ms addr in
    if not m.available
      || ltb addr m.addr
      || ltb ((m.addr + m.len) % u64_mod) ((addr + page_size) % u64_mod)
    then rest
    else true

unfoldable pub is_free_memory : Machine → ℕ → Bool
unfolding any_contains in_mmap reg_contains
is_free_memory m addr =
    if any_contains reg_known addr || reg_contains m.kernel addr || reg_contains m.mb_info addr
    then false
    else in_mmap m.mmap addr

-- The alignment that the scan divides by.
abbrev pub divisor : ℕ → ℕ
divisor align = if align == 0 then 1 else align

-- The test of pmm_alloc on its argument.
unfoldable pub bad_align : ℕ → Bool
bad_align align =
    not (align == 0)
    && ((ltb align page_size && not (page_size % align == 0))
        || (ltb page_size align && not (align % page_size == 0)))
