-- ===== src/Mm/Vmm.antt =====
-- The virtual memory manager: kernel/mm/vmm.c over the entries of kernel/inc/mm/paging.h.
pub mod Address
pub mod Flags
pub mod Walk
pub mod Search
pub mod Ops
pub mod Range
pub mod Tables
pub mod Map
pub mod Unmap
pub mod Release
pub mod Undo
pub mod Find
pub mod FindEnd
pub mod Fresh
pub mod Exact
pub mod Areas
pub mod Ordinary
pub mod Refused
use sdx.Prelude.{
  ℕ, Bool, not, Option, none, some, ltb, leb, ◌+◌, ◌*◌, ◌/◌, ◌%◌, ◌^◌, ◌&&◌, ◌||◌, ◌==◌,
  if◌then◌else◌,
}
use sdx.Util.Bits.{bit_get, bit_on, bit_off}
use sdx.Util.Words.{word_or, word_clear}

-- `vmm_pml4_index`, `vmm_pdpt_index`, `vmm_pd_index` and `vmm_pt_index`
abbrev pub pml4_index : ℕ → ℕ
pml4_index vaddr = vaddr / 2 ^ 39 % 512

abbrev pub pdpt_index : ℕ → ℕ
pdpt_index vaddr = vaddr / 2 ^ 30 % 512

abbrev pub pd_index : ℕ → ℕ
pd_index vaddr = vaddr / 2 ^ 21 % 512

abbrev pub pt_index : ℕ → ℕ
pt_index vaddr = vaddr / 2 ^ 12 % 512

-- `vmm_indexes_to_addr`: indexes are below 512, so that `|` adds their fields.
unfoldable pub indexes_to_addr : (pml4 pdpt pd pt : ℕ) → ℕ
indexes_to_addr pml4 pdpt pd pt =
    pml4 * 2 ^ 39
    + pdpt * 2 ^ 30
    + pd * 2 ^ 21
    + pt * 2 ^ 12
    + (if pml4 * 2 ^ 39 / 2 ^ 47 % 2 == 1 then 0xffff * 2 ^ 48 else 0)

-- `entry & PTE_FLAGS_CLEAR`: the bits 10 to 62.
abbrev without_flags : ℕ → ℕ
without_flags entry = entry / 1024 * 1024 % 2 ^ 63

-- `vmm_entry_to_addr`
unfoldable pub entry_to_addr : ℕ → ℕ
entry_to_addr entry =
    if without_flags entry / 2 ^ 47 % 2 == 1
    then without_flags entry % 2 ^ 48 + 0xffff * 2 ^ 48
    else without_flags entry % 2 ^ 48

-- `vmm_entry_to_flags`: the bits 0 to 4, 7 to 9 and 63.
unfoldable pub entry_to_flags : ℕ → ℕ
entry_to_flags entry = entry % 32 + entry / 128 % 8 * 128 + entry / 2 ^ 63 * 2 ^ 63

-- The attributes, as bit numbers.
abbrev pub no_exec : ℕ
no_exec = 0

abbrev pub no_cache : ℕ
no_cache = 1

abbrev pub rdonly : ℕ
rdonly = 2

abbrev pub user : ℕ
user = 3

abbrev pub save : ℕ
save = 4

abbrev pub reuse : ℕ
reuse = 5

unfoldable pub has_attr : (attr bit : ℕ) → Bool
has_attr attr bit = bit_get attr bit == 1

-- The flags of an entry, as bit numbers; P and RW together are `PTE_FLAGS_DEFAULT`.
abbrev pub flag_rw : ℕ
flag_rw = 1

abbrev pub flag_us : ℕ
flag_us = 2

abbrev pub flag_pcd : ℕ
flag_pcd = 4

abbrev pub flag_ps : ℕ
flag_ps = 7

abbrev pub flag_pmm : ℕ
flag_pmm = 9

abbrev pub flag_xd : ℕ
flag_xd = 63

abbrev pub flags_default : ℕ
flags_default = 3

-- `flags |= flag` where a test holds.
abbrev pub add_flag : Bool → (flag flags : ℕ) → ℕ
add_flag test flag flags = if test then bit_on flags flag else flags

-- `__vmm_attr_to_flags` for an entry that leads to a table, and for a page.
unfoldable pub table_flags : (attr : ℕ) → ℕ
table_flags attr = add_flag (has_attr attr user) flag_us flags_default

unfoldable pub page_flags : (attr : ℕ) → ℕ
page_flags attr =
    let base = table_flags attr in
    let tracked = add_flag (not (has_attr attr save)) flag_pmm base in
    let guarded = add_flag (has_attr attr no_exec) flag_xd tracked in
    let cached = add_flag (has_attr attr no_cache) flag_pcd guarded in
    if has_attr attr rdonly then bit_off cached flag_rw else cached

-- The tables as the recursive entry of the PML4 shows them: the virtual address of a table has the
-- indexes that lead to it (`vmm_pt_vaddr` and its like), so a table is known by these. The addresses of
-- that entry, of the slot 510, are a second view of the tables, which does not follow their changes here.
pub record Space : Type 0 where
  pub pml4 : ℕ → ℕ
  pub pdpt : ℕ → ℕ → ℕ
  pub pd : ℕ → ℕ → ℕ → ℕ
  pub pt : ℕ → ℕ → ℕ → ℕ → ℕ

-- `vmm_pml4_entry`, `vmm_pdpt_entry`, `vmm_pd_entry` and `vmm_pt_entry`
abbrev pub pml4_entry : Space → ℕ → ℕ
pml4_entry s v = s.pml4 (pml4_index v)

abbrev pub pdpt_entry : Space → ℕ → ℕ
pdpt_entry s v = s.pdpt (pml4_index v) (pdpt_index v)

abbrev pub pd_entry : Space → ℕ → ℕ
pd_entry s v = s.pd (pml4_index v) (pdpt_index v) (pd_index v)

abbrev pub pt_entry : Space → ℕ → ℕ
pt_entry s v = s.pt (pml4_index v) (pdpt_index v) (pd_index v) (pt_index v)

-- Where the entry of a page stands.
pub data Slot : Type 0 where
  pd_slot pt_slot : Slot

-- `__vmm_entry_from_vaddr` over the four entries that it reads.
unfoldable pub walk : (e4 e3 e2 e1 : ℕ) → Option Slot
walk e4 e3 e2 e1 =
    if e4 == 0 || e3 == 0 || e2 == 0
    then none
    else if bit_get e2 flag_ps == 1
    then some pd_slot
    else if e1 == 0
    then none
    else some pt_slot

unfoldable pub entry_from_vaddr : Space → ℕ → Option Slot
entry_from_vaddr s v = walk (pml4_entry s v) (pdpt_entry s v) (pd_entry s v) (pt_entry s v)

abbrev pub read_slot : Space → ℕ → Slot → ℕ
read_slot s v pd_slot = pd_entry s v
read_slot s v pt_slot = pt_entry s v

-- Writes of one entry.
abbrev pub set_pml4 : ℕ → ℕ → Space → Space
set_pml4 v e s = record s { pml4 = λ a. if a == pml4_index v then e else s.pml4 a }

abbrev pub set_pdpt : ℕ → ℕ → Space → Space
set_pdpt v e s = record s {
  pdpt = λ a b. if a == pml4_index v && b == pdpt_index v then e else s.pdpt a b;
}

abbrev pub set_pd : ℕ → ℕ → Space → Space
set_pd v e s = record s {
  pd = λ a b c. if a == pml4_index v && b == pdpt_index v && c == pd_index v then e else s.pd a b c;
}

abbrev pub set_pt : ℕ → ℕ → Space → Space
set_pt v e s = record s {
  pt = λ a b c d.
      if a == pml4_index v && b == pdpt_index v && c == pd_index v && d == pt_index v
      then e
      else s.pt a b c d;
}

abbrev pub write_slot : ℕ → Slot → ℕ → Space → Space
write_slot v pd_slot e s = set_pd v e s
write_slot v pt_slot e s = set_pt v e s

-- `bzero` of the table that an address leads to.
abbrev pub clear_pdpt : ℕ → Space → Space
clear_pdpt v s = record s { pdpt = λ a b. if a == pml4_index v then 0 else s.pdpt a b }

abbrev pub clear_pd : ℕ → Space → Space
clear_pd v s = record s {
  pd = λ a b c. if a == pml4_index v && b == pdpt_index v then 0 else s.pd a b c;
}

abbrev pub clear_pt : ℕ → Space → Space
clear_pt v s = record s {
  pt = λ a b c d.
      if a == pml4_index v && b == pdpt_index v && c == pd_index v then 0 else s.pt a b c d;
}

unfoldable pub vmm_resolve : Space → ℕ → ℕ
vmm_resolve s vaddr = elim (entry_from_vaddr s vaddr) [
  | none ↦ 0
  | some slot ↦
      let e = read_slot s vaddr slot in
      if bit_get e flag_ps == 1
      then word_or 64 (entry_to_addr e) (vaddr % 2 ^ 21)
      else word_or 64 (entry_to_addr e) (vaddr % 2 ^ 12)
]

-- `vmm_set` and `vmm_clear`, `none` for -EFAULT.
unfoldable pub vmm_set : (vaddr flags : ℕ) → Space → Option Space
vmm_set vaddr flags s = elim (entry_from_vaddr s vaddr) [
  | none ↦ none
  | some slot ↦ some (write_slot vaddr slot (word_or 64 (read_slot s vaddr slot) flags) s)
]

unfoldable pub vmm_clear : (vaddr flags : ℕ) → Space → Option Space
vmm_clear vaddr flags s = elim (entry_from_vaddr s vaddr) [
  | none ↦ none
  | some slot ↦ some (write_slot vaddr slot (word_clear 64 (read_slot s vaddr slot) flags) s)
]

-- The two areas; the kernel's ends where the kernel starts, which the linker script says.
abbrev pub user_start : ℕ
user_start = 4096

abbrev pub user_end : ℕ
user_end = 0x00007fffffffffff

abbrev pub kernel_start : ℕ
kernel_start = 0xffff800000000000

pub data Area : Type 0 where
  kernel_area user_area : Area

unfoldable pub vmm_vma : (kernel_end vaddr : ℕ) → Area
vmm_vma kernel_end vaddr =
    if leb vaddr kernel_start && ltb vaddr kernel_end then kernel_area else user_area

-- `vmm_vma_does_contain`
unfoldable pub does_contain : (kernel_end addr : ℕ) → Bool
does_contain kernel_end addr =
    (ltb addr kernel_end && leb kernel_start addr) || (ltb addr user_end && leb user_start addr)
