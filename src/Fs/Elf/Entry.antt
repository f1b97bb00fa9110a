-- ===== src/Fs/Elf/Entry.antt =====
-- The entry point that kernel/fs/fmt/elf.c finds, and the end of its loop.
use sdx.Prelude.{
  ℕ, zero, suc, refl, sym, inl, inr, false, not, none, some, List, [], arith, ltb, leb, Bool-cases,
  Option-cases, length, drop, Exists, ◌+◌, ◌%◌, ◌≤◌, ◌<◌, ◌≡◌, ◌≢◌, ◌⊎◌, ◌&&◌, ◌||◌, ◌∙◌, ◌∷◌, ◌++◌,
  ◌==◌, if◌then◌else◌,
}
use sdx.Errno.{Errno, Result, ok, err}
use sdx.Util.Math.{u64_mod}
use sdx.Fs.Elf.{
  ProgramHeader, region_pages, region_bytes, region_type, fits_region, Loading, out_of_fuel,
  overrun, ended, check_entry, elf_header, elf_check, load_dyn, no_image, elf_load, ElfHeader,
  Segment, Image, Host, program_header, ph_next, load_segment, add_segment, load_from,
}

-- A segment around the entry point, which the source adds to the segment's own address.
pub record HasEntry (h : ElfHeader) (entry : ℕ) (g : Segment) : Type 0 where
  pub after : g.header.vaddr < h.entry
  pub before : h.entry < (g.header.vaddr + g.header.memsz) % u64_mod
  pub address : entry ≡ (g.base + h.entry) % u64_mod

-- The entry point, once there is one, comes from a segment.
abbrev pub IsSound : ElfHeader → Image → Type 0
IsSound h i = (i.entry ≡ 0) ⊎ Exists (HasEntry h i.entry) i.segments

Exists-before : (P : Segment → Type 0) (xs ys : List Segment) → Exists P xs → Exists P (xs ++ ys)
Exists-before P (x ∷ xs) ys (inl p) = inl p
Exists-before P (x ∷ xs) ys (inr e) = inr (Exists-before P xs ys e)
Exists-before P [] ys e = elim e [ ]

Exists-end :
    (P : Segment → Type 0) (xs : List Segment) (y : Segment) → P y → Exists P (xs ++ (y ∷ []))
Exists-end P [] y p = inl p
Exists-end P (x ∷ xs) y p = inr (Exists-end P xs y p)

add_segment-IsSound :
    (h : ElfHeader) (g : Segment) (i : Image) → IsSound h i → IsSound h (add_segment h g i)
unfolding add_segment
add_segment-IsSound h g i sound =
    elim (Bool-cases
      (ltb g.header.vaddr h.entry && ltb h.entry ((g.header.vaddr + g.header.memsz) % u64_mod))) [
        | inl inside ↦ rw inside (
            inr (
              Exists-end (HasEntry h ((g.base + h.entry) % u64_mod)) i.segments g (record {
                after = ground (arith, inside);
                before = ground (arith, inside);
                address = refl;
              })))
        | inr outside ↦ rw outside (elim sound [
          | inl z ↦ inl z
          | inr e ↦ inr (Exists-before (HasEntry h i.entry) i.segments (g ∷ []) e)
        ])
      ]

Result-cases :
    (r : Result (List ℕ))
    → ((e : Errno) × (r ≡ err e))
      ⊎ ((r ≡ ok []) ⊎ ((b : ℕ) × (bytes : List ℕ) × (r ≡ ok (b ∷ bytes))))
Result-cases (err e) = inl (e, refl)
Result-cases (ok []) = inr (inl refl)
Result-cases (ok (b ∷ bytes)) = inr (inr (b, bytes, refl))

File-cases :
    (r : Result (List ℕ)) → ((e : Errno) × (r ≡ err e)) ⊎ ((bytes : List ℕ) × (r ≡ ok bytes))
File-cases (err e) = inl (e, refl)
File-cases (ok bytes) = inr (bytes, refl)

Address-cases : (r : Result ℕ) → ((e : Errno) × (r ≡ err e)) ⊎ ((a : ℕ) × (r ≡ ok a))
Address-cases (err e) = inl (e, refl)
Address-cases (ok a) = inr (a, refl)

no_fuel : 0 < 0 → ⊥
no_fuel lt = omega (arith, lt)

-- A header that asks for more bytes than the region of its segment has.
abbrev pub Overruns : ProgramHeader → Type 0
Overruns ph = (region_bytes ph < ph.filesz) ⊎ (region_bytes ph < ph.memsz)

fits_region-Overruns :
    (ph : ProgramHeader) (count : ℕ)
    → count ≤ ph.filesz
    → fits_region ph count ≡ false
    → Overruns ph
unfolding fits_region
fits_region-Overruns ph count le e = elim (Bool-cases (leb count (region_bytes ph))) [
  | inr beyond ↦ inl (ground (arith, beyond, le))
  | inl inside ↦ inr (ground (arith, inside, e))
]

module _ (k : Host) where
  open k use {State, read, map_region}

  -- A read gives at most as many bytes as are asked for.
  abbrev pub ReadsAtMost : Type 0
  ReadsAtMost =
      (offset size : ℕ) (bytes : List ℕ) → read offset size ≡ ok bytes → length bytes ≤ size

  -- What was returned without an error has the property; a write behind a region is due to a header.
  unfoldable pub Ends : (Image → Type 0) → Loading State → Type 0
  Ends Q out_of_fuel = ⊥
  Ends Q (overrun ph) = Overruns ph
  Ends Q (ended (err e) m) = Unit
  Ends Q (ended (ok i) m) = Q i

  read_within :
      (ph : ProgramHeader) (bytes : List ℕ)
      → ReadsAtMost
      → (if ph.filesz == 0 then ok [] else read ph.offset ph.filesz) ≡ ok bytes
      → length bytes ≤ ph.filesz
  read_within ph bytes most e = elim (Bool-cases (ph.filesz == 0)) [
    | inl z ↦ ground (arith, z, e)
    | inr nz ↦ most ph.offset ph.filesz bytes (sym (rw nz refl) ∙ e)
  ]

  ph_next-more :
      (h : ElfHeader) (n b : ℕ) (bytes : List ℕ) → ph_next k h n ≡ ok (b ∷ bytes) → n < h.phnum
  unfolding ph_next
  ph_next-more h n b bytes e = elim (Bool-cases (leb h.phnum n)) [
    | inl done ↦
        let ended : ph_next k h n ≡ ok [] = rw (done, ph_next) refl in
        let bad : ⊥ = cc (sym ended ∙ e) in elim bad [ ]
    | inr more ↦ ground (arith, more)
  ]

  -- The three ends of the loading of a segment.
  load_segment-cases :
      (ph : ProgramHeader) (place : ℕ) (m : State)
      → ReadsAtMost
      → ((load_segment k ph place m ≡ none) × Overruns ph)
        ⊎ (((e : Errno) × (m' : State) × (load_segment k ph place m ≡ some (err e, m')))
            ⊎ ((g : Segment) × (m' : State) × (load_segment k ph place m ≡ some (ok g, m'))))
  unfolding load_segment
  load_segment-cases ph place m most =
      let got = if ph.filesz == 0 then ok [] else read ph.offset ph.filesz in
      let within = λ (bytes : List ℕ) (e : got ≡ ok bytes). read_within ph bytes most e in
      let m1 = (map_region (region_type ph.flags) place (region_pages ph) m).1 in
      elim (Address-cases (map_region (region_type ph.flags) place (region_pages ph) m).0) [
        | inl (e, failed) ↦ inr (inl (e, m1, rw (failed, load_segment) refl))
        | inr (vaddr, mapped) ↦ elim (File-cases got) [
          | inl (e, r) ↦ inr (inl (Errno.eio, m1, rw (mapped, load_segment) rw r refl))
          | inr (bytes, r) ↦ elim (Bool-cases (fits_region ph (length bytes))) [
            | inl fits ↦ inr (
                inr (
                  record {
                    type = region_type ph.flags;
                    base = if place == 0 then vaddr else place;
                    num = region_pages ph;
                    header = ph;
                    content = bytes;
                  },
                  m1,
                  rw (mapped, load_segment) rw r rw fits refl,
                ))
            | inr beyond ↦ inl (
              rw (mapped, load_segment) rw r rw beyond refl,
              fits_region-Overruns ph (length bytes) (within bytes r) beyond,
            )
          ]
        ]
      ]

  -- The loop ends within one round more than there are headers left.
  load_from-Ends :
      (fuel n : ℕ) (h : ElfHeader) (old : List ℕ) (i : Image) (m : State)
      → ReadsAtMost
      → IsSound h i
      → h.phnum < fuel + n
      → 0 < fuel
      → Ends (IsSound h) (load_from k fuel n h old i m)
  unfolding load_from Ends
  load_from-Ends zero n h old i m most sound enough some_fuel = elim (no_fuel some_fuel) [ ]
  load_from-Ends (suc fuel) n h old i m most sound enough some_fuel =
      elim (Result-cases (ph_next k h n)) [
        | inl (e, r) ↦ rw (r, Ends) tt
        | inr (inl r) ↦ rw (r, Ends) sound
        | inr (inr (b, bytes, r)) ↦
            let more : n < h.phnum = ph_next-more h n b bytes r in
            let new = (b ∷ bytes) ++ drop (length (b ∷ bytes)) old in
            let ph = program_header new in
            elim (Bool-cases (not (ph.type == 1) || ph.memsz == 0)) [
              | inl skip ↦
                  rw (r, Ends) rw (skip, Ends)
                    (load_from-Ends fuel (n + 1) h new i m most sound (omega (arith, enough))
                      (omega (arith, enough, more)))
              | inr keep ↦ elim (load_segment-cases ph i.place m most) [
                | inl (l, over) ↦ rw (r, Ends) rw (keep, Ends) rw (l, Ends) over
                | inr (inl (e, m', l)) ↦ rw (r, Ends) rw (keep, Ends) rw (l, Ends) tt
                | inr (inr (g, m', l)) ↦
                    rw (r, Ends) rw (keep, Ends) rw (l, Ends)
                      (load_from-Ends fuel (n + 1) h new (add_segment h g i) m' most
                        (add_segment-IsSound h g i sound) (omega (arith, enough))
                        (omega (arith, enough, more)))
              ]
            ]
      ]

  -- A loaded program with an entry point.
  pub record Loaded (h : ElfHeader) (i : Image) : Type 0 where
    pub nonzero : i.entry ≢ 0
    pub from_segment : Exists (HasEntry h i.entry) i.segments

  check_entry-Loaded :
      (h : ElfHeader) (r : Loading State) → Ends (IsSound h) r → Ends (Loaded h) (check_entry k r)
  unfolding Ends check_entry
  check_entry-Loaded h out_of_fuel e = e
  check_entry-Loaded h (overrun ph) over = over
  check_entry-Loaded h (ended (err e) m) t = tt
  check_entry-Loaded h (ended (ok i) m) sound = elim (Bool-cases (i.entry == 0)) [
    | inl z ↦ rw (z, Ends) tt
    | inr nz ↦
        let nonzero : i.entry ≢ 0 = ground (arith, nz) in
        rw (nz, Ends)
          (record {
            nonzero = nonzero;
            from_segment = elim sound [ inl z ↦ elim (nonzero z) [ ] | inr e ↦ e ];
          })
  ]

  load_dyn-Loaded :
      (h : ElfHeader) (old : List ℕ) (m : State)
      → ReadsAtMost
      → Ends (Loaded h) (load_dyn k h old m)
  unfolding load_dyn
  load_dyn-Loaded h old m most =
      check_entry-Loaded h (load_from k (h.phnum + 1) 0 h old no_image m) (
        load_from-Ends (h.phnum + 1) 0 h old no_image m most (inl refl) (omega arith) (omega arith))

  -- What elf_load accepts.
  pub record Accepted (i : Image) : Type 0 where
    pub bytes : List ℕ
    pub header_read : read 0 64 ≡ ok bytes
    pub is_dyn : (elf_header bytes).type ≡ 3
    pub fits : elf_check (elf_header bytes) ≡ none
    pub loaded : Loaded (elf_header bytes) i

  Ends-map :
      (Q R : Image → Type 0) (r : Loading State) → ((i : Image) → Q i → R i) → Ends Q r → Ends R r
  unfolding Ends
  Ends-map Q R out_of_fuel f e = e
  Ends-map Q R (overrun ph) f over = over
  Ends-map Q R (ended (err e) m) f t = tt
  Ends-map Q R (ended (ok i) m) f q = f i q

  -- Where a read gives at most as many bytes as are asked for: whatever the bytes of the file are,
  -- and however the mapping of regions answers, elf_load returns, or it writes behind the region of
  -- a segment whose header asks for more bytes, from the file or in memory, than the region has. It
  -- succeeds only for a header that passes __elf_check and has the type DYN, with an entry point
  -- that is not 0 and comes from a loaded segment around the header's one.
  pub elf_load-Accepted :
      (old : List ℕ) (m : State) → ReadsAtMost → Ends Accepted (elf_load k old m)
  unfolding elf_load Ends
  elf_load-Accepted old m most = elim (File-cases (read 0 64)) [
    | inl (e, r) ↦ rw (r, Ends) tt
    | inr (bytes, r) ↦ elim (Option-cases (elf_check (elf_header bytes))) [
      | inr (c, checked) ↦ rw (r, Ends) rw (checked, Ends) tt
      | inl fits ↦ elim (Bool-cases ((elf_header bytes).type == 3)) [
        | inr other ↦ rw (r, Ends) rw (fits, Ends) rw (other, Ends) tt
        | inl dyn ↦
            rw (r, Ends) rw (fits, Ends) rw (dyn, Ends)
              (Ends-map _ _ (load_dyn k (elf_header bytes) old m)
                (λ i l. record {
                  bytes = bytes;
                  header_read = r;
                  is_dyn = ground (arith, dyn);
                  fits = fits;
                  loaded = l;
                })
                (load_dyn-Loaded (elf_header bytes) old m most))
      ]
    ]
  ]
