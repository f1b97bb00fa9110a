-- ===== src/Tests/Fs.antt =====
-- kernel/fs/fmt/elf.c at a concrete file.
use mathlib.Core.Path.{subst}
use sdx.Prelude.{
  ℕ, zero, suc, refl, List, [], arith, length, take, drop, replicate, ◌+◌, ◌≤◌, ◌≡◌, ◌∷◌, ◌++◌,
  ◌==◌, if◌then◌else◌,
}
use sdx.Errno.{ok}
use sdx.Util.Bits.{bit_get}
use sdx.Util.Math.{round_up, div_ceil}
use sdx.Fs.Elf.{
  Host, Segment, ended, check_entry, fits_region, program_header, elf_header, check_magic,
  elf_check, region_type, ph_next, load_segment, add_segment, load_from, load_dyn, elf_load,
}
use sdx.Fs.Elf.Entry.{Ends, Accepted, elf_load-Accepted, ReadsAtMost}

-- A header of a DYN file with the entry point 16 and one program header, which follows.
abbrev file_header : List ℕ
file_header =
    (0x7f ∷ 0x45 ∷ 0x4c ∷ 0x46 ∷ 2 ∷ 1 ∷ 1 ∷ [])
    ++ replicate 9 0
    ++ (3 ∷ 0 ∷ 62 ∷ 0 ∷ 1 ∷ 0 ∷ 0 ∷ 0 ∷ 16 ∷ [])
    ++ replicate 7 0
    ++ (64 ∷ [])
    ++ replicate 7 0
    ++ replicate 12 0
    ++ (64 ∷ 0 ∷ 56 ∷ 0 ∷ 1 ∷ [])
    ++ replicate 7 0

-- A segment of 64 bytes at 0, with 4 bytes in the file.
abbrev segment_header : List ℕ
segment_header =
    (1 ∷ 0 ∷ 0 ∷ 0 ∷ 5 ∷ 0 ∷ 0 ∷ 0 ∷ 120 ∷ [])
    ++ replicate 23 0
    ++ (4 ∷ [])
    ++ replicate 7 0
    ++ (64 ∷ [])
    ++ replicate 15 0

abbrev program : List ℕ
program = file_header ++ segment_header ++ (1 ∷ 2 ∷ 3 ∷ 4 ∷ [])

-- Regions stand at 0x400000 where they are not placed; the state counts them.
abbrev host : Host
host = record {
  State = ℕ;
  read = λ offset size. ok (take size (drop offset program));
  map_region = λ type vaddr num s. (ok (if vaddr == 0 then 0x400000 else vaddr), s + 1);
}

abbrev loaded_segment : Segment
loaded_segment = record {
  type = 1;
  base = 0x400000;
  num = 1;
  header = program_header segment_header;
  content = 1 ∷ 2 ∷ 3 ∷ 4 ∷ [];
}

elf_run :
    elf_load host [] 0
    ≡ ended (ok (record { entry = 0x400010; segments = loaded_segment ∷ []; place = 0x401000 })) 1
unfolding elf_load elf_header elf_check check_magic load_dyn load_from ph_next program_header
    load_segment check_entry fits_region region_type bit_get round_up div_ceil add_segment
elf_run = refl

length-take_le : (n : ℕ) (xs : List ℕ) → length (take n xs) ≤ n
length-take_le zero xs = omega arith
length-take_le (suc n) [] = omega arith
length-take_le (suc n) (x ∷ xs) = omega (arith, length-take_le n xs)

host-ReadsAtMost : ReadsAtMost host
host-ReadsAtMost offset size bytes e =
    let same : take size (drop offset program) ≡ bytes = cc e in
    subst (λ (bs : List ℕ). length bs ≤ size) same (length-take_le size (drop offset program))

elf_load-Accepted_example : Ends host (Accepted host) (elf_load host [] 0)
elf_load-Accepted_example = elf_load-Accepted host [] 0 host-ReadsAtMost
