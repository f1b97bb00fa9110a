-- ===== src/Fs/Elf.antt =====
-- kernel/fs/fmt/elf.c: the loader of ELF programs. The file and the memory regions are an interface.
pub mod Entry
use sdx.Prelude.{
  ℕ, zero, suc, Bool, true, not, Option, none, some, List, [], ltb, leb, length, get_or, take, drop,
  ◌+◌, ◌*◌, ◌%◌, ◌&&◌, ◌||◌, ◌∷◌, ◌++◌, ◌==◌, if◌then◌else◌,
}
use sdx.Errno.{Errno, Result, ok, err}
use sdx.Util.Bits.{bit_get}
use sdx.Util.Math.{u64_mod, round_up, div_ceil}
use sdx.Disk.Parts.{le}

-- The fields of `struct elf_header` that the loader reads.
pub record ElfHeader : Type 0 where
  pub ident : List ℕ
  pub type : ℕ
  pub machine : ℕ
  pub entry : ℕ
  pub phoff : ℕ
  pub phentsize : ℕ
  pub phnum : ℕ

-- The fields of `struct elf_program_header` that it reads.
pub record ProgramHeader : Type 0 where
  pub type : ℕ
  pub flags : ℕ
  pub offset : ℕ
  pub vaddr : ℕ
  pub filesz : ℕ
  pub memsz : ℕ

-- The structures in the bytes of the file; what a short read leaves out of the first one is zero.
unfoldable pub elf_header : List ℕ → ElfHeader
elf_header b = record {
  ident = take 16 b;
  type = le b 16 2;
  machine = le b 18 2;
  entry = le b 24 8;
  phoff = le b 32 8;
  phentsize = le b 54 2;
  phnum = le b 56 2;
}

unfoldable pub program_header : List ℕ → ProgramHeader
program_header b = record {
  type = le b 0 4;
  flags = le b 4 4;
  offset = le b 8 8;
  vaddr = le b 16 8;
  filesz = le b 32 8;
  memsz = le b 40 8;
}

-- ELF_MAGIC
abbrev pub elf_magic : List ℕ
elf_magic = 0x7f ∷ 0x45 ∷ 0x4c ∷ 0x46 ∷ []

-- `__elf_check_magic`, from the place of a byte on
unfoldable pub check_magic : (magic ident : List ℕ) (i : ℕ) → Bool
check_magic [] ident i = true
check_magic (c ∷ magic) ident i = get_or ident i 0 == c && check_magic magic ident (i + 1)

-- What is wrong with a header.
pub data Complaint : Type 0 where
  bad_class bad_order bad_machine bad_version : Complaint

-- `__elf_check`: `none` for NULL, which is also the `false` that it returns for another magic.
unfoldable pub elf_check : ElfHeader → Option Complaint
elf_check h =
    if not (check_magic elf_magic h.ident 0)
    then none
    else if not (get_or h.ident 4 0 == 2)
    then some bad_class
    else if not (get_or h.ident 5 0 == 1)
    then some bad_order
    else if not (h.machine == 62)
    then some bad_machine
    else if not (get_or h.ident 6 0 == 1)
    then some bad_version
    else none

-- The calls of the loader: vfs_read of its node, and region_new with region_map, which give the address.
pub record Host : Type 1 where
  pub State : Type 0
  pub read : (offset size : ℕ) → Result (List ℕ)
  pub map_region : (type vaddr num : ℕ) → State → Result ℕ × State

-- A loaded program header: where it stands and what was read to it. The bytes from `filesz` on to
-- `memsz` are zero.
pub record Segment : Type 0 where
  pub type : ℕ
  pub base : ℕ
  pub num : ℕ
  pub header : ProgramHeader
  pub content : List ℕ

-- The fields `entry` and `mem` of `struct elf`, and the address of the next segment.
pub record Image : Type 0 where
  pub entry : ℕ
  pub segments : List Segment
  pub place : ℕ

-- REGION_TYPE_CODE, REGION_TYPE_RDONLY and REGION_TYPE_DATA
unfoldable pub region_type : (flags : ℕ) → ℕ
region_type flags =
    if bit_get flags 2 == 0 && bit_get flags 1 == 0
    then 2
    else if bit_get flags 0 == 0
    then 3
    else 1

-- The entry point and the next address after a segment.
unfoldable pub add_segment : ElfHeader → Segment → Image → Image
add_segment h g i =
    let ph = g.header in
    record {
      entry =
          if ltb ph.vaddr h.entry && ltb h.entry ((ph.vaddr + ph.memsz) % u64_mod)
          then (g.base + h.entry) % u64_mod
          else i.entry;
      segments = i.segments ++ (g ∷ []);
      place = (g.base + round_up ph.memsz 4096) % u64_mod;
    }

-- The bytes of the region for a segment: its size in memory, in whole pages, which wraps around near
-- 2^64.
abbrev pub region_pages : ProgramHeader → ℕ
region_pages ph = div_ceil (round_up ph.memsz 4096) 4096

abbrev pub region_bytes : ProgramHeader → ℕ
region_bytes ph = region_pages ph * 4096

-- A read of `count` bytes to the region, and the zeros from `filesz` on to `memsz`, stay inside of it.
unfoldable pub fits_region : ProgramHeader → (count : ℕ) → Bool
fits_region ph count =
    leb count (region_bytes ph) && (leb ph.memsz ph.filesz || leb ph.memsz (region_bytes ph))

-- How the loader ends: its fuel is used up, it writes behind the region of a segment, or it returns.
pub data Loading {ℓ} (S : Type ℓ) : Type ℓ where
  out_of_fuel : Loading S
  overrun : ProgramHeader → Loading S
  ended : Result Image → S → Loading S

abbrev pub no_image : Image
no_image = record { entry = 0; segments = []; place = 0 }

module _ (k : Host) where
  open k use {State, read, map_region}

  -- `__elf_ph_next`: no bytes for the 0 that ends the loop.
  unfoldable pub ph_next : ElfHeader → (ph_pos : ℕ) → Result (List ℕ)
  ph_next h ph_pos =
      if leb h.phnum ph_pos
      then ok []
      else if not (h.phentsize == 56)
      then err Errno.enoexec
      else read ((h.phoff + h.phentsize * ph_pos) % u64_mod) 56

  -- The region of a segment with what is read to it; `none` for a write behind the region.
  unfoldable pub load_segment :
      ProgramHeader → (place : ℕ) → State → Option (Result Segment × State)
  load_segment ph place m =
      let (mapped, m') = map_region (region_type ph.flags) place (region_pages ph) m in
      elim mapped [
        | err e ↦ some (err e, m')
        | ok vaddr ↦
            let base = if place == 0 then vaddr else place in
            elim (if ph.filesz == 0 then ok [] else read ph.offset ph.filesz) [
              | err e ↦ some (err Errno.eio, m')
              | ok bytes ↦
                  if fits_region ph (length bytes)
                  then some (
                    ok (record {
                      type = region_type ph.flags;
                      base = base;
                      num = region_pages ph;
                      header = ph;
                      content = bytes;
                    }),
                    m',
                  )
                  else none
            ]
      ]

  -- The loop of __elf_load_dyn. `old` are the bytes of the last header, which a short read leaves.
  unfoldable pub load_from :
      (fuel ph_pos : ℕ) → ElfHeader → (old : List ℕ) → Image → State → Loading State
  load_from zero ph_pos h old i m = out_of_fuel
  load_from (suc fuel) ph_pos h old i m = elim (ph_next h ph_pos) [
    | err e ↦ ended (err e) m
    | ok [] ↦ ended (ok i) m
    | ok (b ∷ bytes) ↦
        let new = (b ∷ bytes) ++ drop (length (b ∷ bytes)) old in
        let ph = program_header new in
        let skipped = load_from fuel (ph_pos + 1) h new i m in
        let next =
          λ (g : Segment) (m' : State). load_from fuel (ph_pos + 1) h new (add_segment h g i) m' in
        if not (ph.type == 1) || ph.memsz == 0 then skipped else elim (load_segment ph i.place m) [
          | none ↦ overrun ph
          | some (err e, m') ↦ ended (err e) m'
          | some (ok g, m') ↦ next g m'
        ]
  ]

  -- The end of __elf_load_dyn, where the loop found no error.
  unfoldable pub check_entry : Loading State → Loading State
  check_entry out_of_fuel = out_of_fuel
  check_entry (overrun ph) = overrun ph
  check_entry (ended (err e) m) = ended (err e) m
  check_entry (ended (ok i) m) =
      if i.entry == 0 then ended (err Errno.enoexec) m else ended (ok i) m

  -- `__elf_load_dyn`; every round but the last reads a program header.
  unfoldable pub load_dyn : ElfHeader → (old : List ℕ) → State → Loading State
  load_dyn h old m = check_entry (load_from (h.phnum + 1) 0 h old no_image m)

  -- `elf_load` of a node, where neither pointer is NULL.
  unfoldable pub elf_load : (old : List ℕ) → State → Loading State
  elf_load old m = elim (read 0 64) [
    | err e ↦ ended (err e) m
    | ok bytes ↦
        let h = elf_header bytes in
        let loaded = load_dyn h old m in
        elim (elf_check h) [
          | some c ↦ ended (err Errno.enoexec) m
          | none ↦ if h.type == 3 then loaded else ended (err Errno.enoexec) m
        ]
  ]
