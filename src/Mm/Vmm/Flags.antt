-- ===== src/Mm/Vmm/Flags.antt =====
-- The entries that kernel/mm/vmm.c writes: an address with flags.
use sdx.Prelude.{ℕ, ap, false, arith, ◌+◌, ◌*◌, ◌/◌, ◌%◌, ◌^◌, ◌<◌, ◌≡◌, ◌∙◌, ◌==◌}
use sdx.Util.Bits.{bit_get, bit_on, bit_off}
use sdx.Util.Words.{word_or, word_or-apart, word_or-zero, word_or_comm, bit_get-word_or}
use sdx.Mm.Vmm.{entry_to_addr, table_flags, page_flags, flag_ps}

-- The flags of a page: bits below 10 and bit 63, with P and without PS.
pub record IsPageFlags (f : ℕ) : Type 0 where
  pub present : f % 2 ≡ 1
  pub small : f / 2 ^ 7 % 2 ≡ 0
  pub low : f % 2 ^ 63 < 1024
  pub high : f < 2 ^ 64

pub page_flags-IsPageFlags : (attr : ℕ) → IsPageFlags (page_flags attr)
unfolding page_flags table_flags bit_on bit_off bit_get
page_flags-IsPageFlags attr = ground arith

pub table_flags-IsPageFlags : (attr : ℕ) → IsPageFlags (table_flags attr)
unfolding table_flags bit_on bit_get
table_flags-IsPageFlags attr = ground arith

split_flags : (f : ℕ) → IsPageFlags f → f ≡ f % 1024 + 2 ^ 10 * (2 ^ 53 * (f / 2 ^ 63))
split_flags f i = omega arith

-- A page address below 2^47 and page flags have no bit in common.
pub word_or-page :
    (paddr f : ℕ)
    → paddr % 4096 ≡ 0
    → paddr < 2 ^ 47
    → IsPageFlags f
    → word_or 64 paddr f ≡ paddr + f
word_or-page paddr f aligned small i =
    let m = paddr / 1024 in
    let x = f / 2 ^ 63 in
    let left : paddr ≡ 2 ^ 10 * m = omega arith in
    let upper : word_or 54 m (2 ^ 53 * x) ≡ m + 2 ^ 53 * x =
      word_or_comm 54 m (2 ^ 53 * x)
      ∙ ap (λ (t : ℕ). word_or 54 (2 ^ 53 * x) t) (omega arith)
      ∙ word_or-apart 53 1 x m 0 (omega arith)
      ∙ omega (arith, word_or-zero 1 x (omega (arith, i.high))) in
    ap (λ (t : ℕ). word_or 64 t f) left
    ∙ ap (λ (t : ℕ). word_or 64 (2 ^ 10 * m) t) (split_flags f i)
    ∙ word_or-apart 10 54 m (f % 1024) (2 ^ 53 * x) (omega arith)
    ∙ omega (arith, upper, i.low, i.high)

-- The address is read back from the entry, which is not 0 and is no 2 MiB entry.
pub entry_to_addr-page :
    (paddr f : ℕ)
    → paddr % 4096 ≡ 0
    → paddr < 2 ^ 47
    → IsPageFlags f
    → entry_to_addr (paddr + f) ≡ paddr
unfolding entry_to_addr
entry_to_addr-page paddr f aligned small i = ground (arith, i.low, i.high)

pub entry_bits :
    (paddr f : ℕ)
    → paddr % 4096 ≡ 0
    → IsPageFlags f
    → ((paddr + f == 0) ≡ false) × ((bit_get (paddr + f) flag_ps == 1) ≡ false)
unfolding bit_get
entry_bits paddr f aligned i = (ground (arith, i.present), ground (arith, i.small))

-- `|` with such flags keeps an entry from being 0 and leaves its bit PS.
pub word_or-flags :
    (e f : ℕ)
    → IsPageFlags f
    → ((word_or 64 e f == 0) ≡ false) × (bit_get (word_or 64 e f) flag_ps ≡ bit_get e flag_ps)
unfolding bit_get
word_or-flags e f i = (
  ground (arith, bit_get-word_or 64 e f 0 (omega arith), i.present),
  ground (arith, bit_get-word_or 64 e f 7 (omega arith), i.small),
)

-- The offset in a page.
pub word_or-offset :
    (paddr off : ℕ)
    → paddr % 4096 ≡ 0
    → paddr < 2 ^ 64
    → off < 4096
    → word_or 64 paddr off ≡ paddr + off
word_or-offset paddr off aligned small lt =
    ap (λ (t : ℕ). word_or 64 t off) (omega arith)
    ∙ ap (λ (t : ℕ). word_or 64 (2 ^ 12 * (paddr / 4096)) t) (omega arith)
    ∙ word_or-apart 12 52 (paddr / 4096) off 0 (omega arith)
    ∙ omega (arith, word_or-zero 52 (paddr / 4096) (omega arith))
