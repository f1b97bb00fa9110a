-- ===== src/Disk/Parts/Clear.antt =====
-- The loop of disk_part_clear (kernel/core/disk/part.c): only the available partitions stay.
use mathlib.Core.Path.{subst}
use sdx.Prelude.{
  ℕ, suc, refl, sym, inl, inr, true, false, List, [], arith, Bool-cases, length, Each, Exists, ◌+◌,
  ◌-◌, ◌%◌, ◌^◌, ◌≡◌, ◌∷◌,
}
use sdx.Disk.Parts.{Part, Row, clear_from}

-- The partition is available, with the start and the size of a row.
abbrev pub Stands : Row → Part → Type 0
Stands row p = (p.start ≡ row.start) × (p.size ≡ row.size) × (p.available ≡ true)

clear_from-kept :
    (p : Part) (ps : List Part) (count : ℕ)
    → p.available ≡ true
    → clear_from (p ∷ ps) count ≡ (p ∷ (clear_from ps count).0, (clear_from ps count).1)
unfolding clear_from
clear_from-kept p ps count e = rw (e, clear_from) refl

clear_from-dropped :
    (p : Part) (ps : List Part) (count : ℕ)
    → p.available ≡ false
    → clear_from (p ∷ ps) count ≡ clear_from ps ((count + (2 ^ 32 - 1)) % 2 ^ 32)
unfolding clear_from
clear_from-dropped p ps count e = rw (e, clear_from) refl

pub clear_from-Each :
    (L : ℕ → ℕ → Type 0) (ps : List Part) (count : ℕ)
    → Each (λ p. p.available ≡ true → L p.start p.size) ps
    → Each (λ p. (p.available ≡ true) × L p.start p.size) (clear_from ps count).0
unfolding clear_from
clear_from-Each L [] count e = tt
clear_from-Each L (p ∷ ps) count (e, es) = elim (Bool-cases p.available) [
  | inl a ↦
      subst (λ (r : List Part × ℕ). Each (λ p. (p.available ≡ true) × L p.start p.size) r.0)
        (sym (clear_from-kept p ps count a)) ((a, e a), clear_from-Each L ps count es)
  | inr a ↦
      subst (λ (r : List Part × ℕ). Each (λ p. (p.available ≡ true) × L p.start p.size) r.0)
        (sym (clear_from-dropped p ps count a))
        (clear_from-Each L ps ((count + (2 ^ 32 - 1)) % 2 ^ 32) es)
]

pub clear_from-Exists :
    (row : Row) (ps : List Part) (count : ℕ)
    → Exists (Stands row) ps
    → Exists (Stands row) (clear_from ps count).0
clear_from-Exists row [] count none_there = elim none_there [ ]
clear_from-Exists row (p ∷ ps) count (inl stands) =
    subst (λ (r : List Part × ℕ). Exists (Stands row) r.0)
      (sym (clear_from-kept p ps count stands.2)) (inl stands)
clear_from-Exists row (p ∷ ps) count (inr later) = elim (Bool-cases p.available) [
  | inl a ↦
      subst (λ (r : List Part × ℕ). Exists (Stands row) r.0) (sym (clear_from-kept p ps count a))
        (inr (clear_from-Exists row ps count later))
  | inr a ↦
      subst (λ (r : List Part × ℕ). Exists (Stands row) r.0) (sym (clear_from-dropped p ps count a))
        (clear_from-Exists row ps ((count + (2 ^ 32 - 1)) % 2 ^ 32) later)
]

abbrev Counted : ℕ → List Part × ℕ → Type 0
Counted k r = r.1 ≡ (k + length r.0) % 2 ^ 32

clear_from-Counted :
    (ps : List Part) (k count : ℕ)
    → count ≡ (k + length ps) % 2 ^ 32
    → Counted k (clear_from ps count)
unfolding clear_from
clear_from-Counted [] k count e = e
clear_from-Counted (p ∷ ps) k count e = elim (Bool-cases p.available) [
  | inl a ↦
      subst (Counted k) (sym (clear_from-kept p ps count a))
        (omega (arith, clear_from-Counted ps (suc k) count (omega (arith, e))))
  | inr a ↦
      subst (Counted k) (sym (clear_from-dropped p ps count a))
        (clear_from-Counted ps k ((count + (2 ^ 32 - 1)) % 2 ^ 32) (omega (arith, e)))
]

pub clear_from-count :
    (ps : List Part) (count : ℕ)
    → count ≡ length ps % 2 ^ 32
    → (clear_from ps count).1 ≡ length (clear_from ps count).0 % 2 ^ 32
clear_from-count ps count e = omega (arith, clear_from-Counted ps 0 count (omega (arith, e)))
