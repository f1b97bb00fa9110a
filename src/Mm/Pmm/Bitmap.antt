-- ===== src/Mm/Pmm/Bitmap.antt =====
-- The bitmap of kernel/mm/pmm.c by page number: page `n` of the region is bit `n % 64` of entry
-- `n / 64`.
use sdx.Prelude.{
  ℕ, true, false, arith, leb, get_or, length-set, get_or-set, ◌+◌, ◌-◌, ◌*◌, ◌/◌, ◌%◌, ◌<◌, ◌≡◌,
  ◌==◌, if◌then◌else◌,
}
use sdx.Errno.{Errno, ok, err}
use sdx.Util.Bits.{bit_on, bit_off, bit_get-bit_on, bit_get-bit_off, bit_get-lt}
use sdx.Util.Math.{u64_mod}
use sdx.Mm.Pmm.{
  page_size, entry_bits, Pos, Pmm, entries, max_index, pos_to_addr, pos_get, pos_set, pos_clear,
  pos_from_addr, pos_next,
}

-- The position of page `n`.
abbrev pub page : ℕ → Pos
page n = record { bit = n % entry_bits; index = n / entry_bits }

-- The pages that the bitmap has a bit for.
abbrev pub size : Pmm → ℕ
size s = max_index s * entry_bits

-- 1 for an allocated page, 0 for a free one.
abbrev pub used : Pmm → ℕ → ℕ
used s n = pos_get s (page n)

-- The addresses of the bitmap's pages do not wrap.
abbrev pub InRange : Pmm → Type 0
InRange s = s.start + size s * page_size < u64_mod

page_step :
    (n : ℕ)
    → (if leb entry_bits (n % entry_bits + 1)
        then record { bit = 0; index = n / entry_bits + 1 }
        else record { bit = n % entry_bits + 1; index = n / entry_bits })
      ≡ page (n + 1)
page_step n = ground arith

leb_entries : (count n : ℕ) → leb count (n / entry_bits) ≡ leb (count * entry_bits) n
leb_entries count n = ground arith

module _ (s : Pmm) where
  pub pos_next-page :
      (n : ℕ)
      → 0 < max_index s
      → pos_next s (page n)
        ≡ ((if leb (size s) (n + 1) then err Errno.erange else ok (used s (n + 1))), page (n + 1))
  unfolding pos_next
  pos_next-page n h =
      let step : (if leb entry_bits (n % entry_bits + 1)
            then record { bit = 0; index = n / entry_bits + 1 }
            else record { bit = n % entry_bits + 1; index = n / entry_bits })
          ≡ page (n + 1) =
        page_step n in
      let there : (max_index s == 0) ≡ false = ground arith in
      let last : leb (max_index s) ((n + 1) / entry_bits) ≡ leb (size s) (n + 1) =
        leb_entries (max_index s) (n + 1) in
      rw (step, there, last) (ground arith)

  pub pos_to_addr-page :
      (n : ℕ) → InRange s → n < size s → pos_to_addr s (page n) ≡ s.start + n * page_size
  unfolding pos_to_addr
  pos_to_addr-page n h p = omega arith

  pub pos_from_addr-page :
      (n : ℕ) → InRange s → n < size s → pos_from_addr s (s.start + n * page_size) ≡ (true, page n)
  unfolding pos_from_addr
  pos_from_addr-page n h p =
      let e : (s.start + n * page_size + u64_mod - s.start) % u64_mod / page_size ≡ n =
        omega arith in
      rw e (ground arith)

  -- Setting the bit of a page of the bitmap marks that page, and no other.
  pub used-pos_set :
      (n k : ℕ) → n < size s → used (pos_set s (page n)) k ≡ (if n == k then 1 else used s k)
  unfolding pos_set pos_get
  used-pos_set n k h =
      let old = get_or (entries s) (n / entry_bits) 0 in
      ground (
        arith,
        get_or-set (entries s) (n / entry_bits) (k / entry_bits) (bit_on old (n % entry_bits)) 0,
        bit_get-bit_on old (n % entry_bits) (k % entry_bits),
      )

  pub used-pos_clear :
      (n k : ℕ) → n < size s → used (pos_clear s (page n)) k ≡ (if n == k then 0 else used s k)
  unfolding pos_clear pos_get
  used-pos_clear n k h =
      let old = get_or (entries s) (n / entry_bits) 0 in
      ground (
        arith,
        get_or-set (entries s) (n / entry_bits) (k / entry_bits) (bit_off old (n % entry_bits)) 0,
        bit_get-bit_off old (n % entry_bits) (k % entry_bits),
      )

  pub size-pos_set : (p : Pos) → max_index (pos_set s p) ≡ max_index s
  unfolding pos_set
  size-pos_set p = length-set (entries s) p.index (bit_on (get_or (entries s) p.index 0) p.bit)

  pub size-pos_clear : (p : Pos) → max_index (pos_clear s p) ≡ max_index s
  unfolding pos_clear
  size-pos_clear p = length-set (entries s) p.index (bit_off (get_or (entries s) p.index 0) p.bit)

  pub used-lt : (n : ℕ) → used s n < 2
  unfolding pos_get
  used-lt n = bit_get-lt (get_or (entries s) (n / entry_bits) 0) (n % entry_bits)
