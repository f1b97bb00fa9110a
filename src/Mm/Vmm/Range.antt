-- ===== src/Mm/Vmm/Range.antt =====
-- Ranges of pages in the loops of kernel/mm/vmm.c.
use sdx.Prelude.{
  ℕ, suc, inl, inr, arith, ltb, Bool-cases, ◌+◌, ◌-◌, ◌%◌, ◌^◌, ◌≤◌, ◌<◌, ◌≡◌, ◌≢◌, ◌⊎◌, ◌==◌,
}
use sdx.Mm.Vmm.Walk.{page_of}

-- How many pages an address stands after the page of `v`, in the 2^36 pages of the space.
abbrev pub page_offset : ℕ → ℕ → ℕ
page_offset v w = (page_of w + 2 ^ 36 - page_of v) % 2 ^ 36

pub same_page : (v w : ℕ) → (page_of w ≡ page_of v) ⊎ (page_of v ≢ page_of w)
same_page v w = elim (Bool-cases (page_of w == page_of v)) [
  | inl e ↦ inl (ground (arith, e))
  | inr e ↦ inr (ground (arith, e))
]

pub step_offset :
    (v w : ℕ) → page_of v ≢ page_of w → page_offset v w ≡ page_offset ((v + 4096) % 2 ^ 64) w + 1
step_offset v w ne = omega (arith, ne)

pub last_offset :
    (v w : ℕ)
    → page_of w ≡ page_of v
    → (page_offset v w ≡ 0) × (page_offset ((v + 4096) % 2 ^ 64) w ≡ 2 ^ 36 - 1)
last_offset v w eq = omega (arith, eq)

pub zero_offset : {n : ℕ} {o : ℕ} → o ≡ 0 → suc n ≤ o → ⊥
zero_offset e le = omega (arith, e, le)

pub below_zero : {o : ℕ} → o < 0 → ⊥
below_zero lt = omega (arith, lt)

pub past_last : {n : ℕ} {o : ℕ} → o ≡ 2 ^ 36 - 1 → o < n → n < 2 ^ 36 → ⊥
past_last e lt fits = omega (arith, e, lt, fits)

pub le_or_lt : (n o : ℕ) → (n ≤ o) ⊎ (o < n)
le_or_lt n o = elim (Bool-cases (ltb o n)) [
  | inl e ↦ inr (ground (arith, e))
  | inr e ↦ inl (ground (arith, e))
]
