-- ===== src/Mm/Region/Chain.antt =====
-- What region_add, region_del and region_find do to a chain of regions.
use sdx.Prelude.{
  ℕ, refl, ap, inl, inr, true, false, Option, none, some, List, [], arith, Bool-cases, Each, ◌≡◌,
  ◌≢◌, ◌∷◌, ◌++◌, ◌==◌,
}
use sdx.Errno.{ok}
use sdx.Mm.Region.{Region, append_regions, region_add, without, region_del, is_match, region_find}

-- A search found the first match, or there is none.
abbrev pub FirstMatch : (type vma : ℕ) → List Region → Option Region → Type 0
FirstMatch type vma rs none = Each (λ r. is_match type vma r ≡ false) rs
FirstMatch type vma rs (some r) =
    (before : List Region) × (after : List Region) × (rs ≡ before ++ (r ∷ after))
    × (is_match type vma r ≡ true)
    × Each (λ q. is_match type vma q ≡ false) before

later :
    (type vma : ℕ) (r : Region) (rs : List Region) (found : Option Region)
    → is_match type vma r ≡ false
    → FirstMatch type vma rs found
    → FirstMatch type vma (r ∷ rs) found
later type vma r rs none e m = (e, m)
later type vma r rs (some q) e (before, after, joined, same, others) =
    (r ∷ before, after, ap (λ xs. r ∷ xs) joined, same, (e, others))

-- region_find returns the first region of the chain with the address space and the type, where the
-- type 0 stands for every type, and NULL exactly where there is no such region.
pub region_find-FirstMatch :
    (type vma : ℕ) (rs : List Region) → FirstMatch type vma rs (region_find type vma rs)
unfolding region_find
region_find-FirstMatch type vma [] = tt
region_find-FirstMatch type vma (r ∷ rs) = elim (Bool-cases (is_match type vma r)) [
  | inl e ↦ rw e ([], rs, refl, e, tt)
  | inr e ↦
      rw e (later type vma r rs (region_find type vma rs) e (region_find-FirstMatch type vma rs))
]

same_address : (n : ℕ) → (n == n) ≡ true
same_address n = ground arith

other_address : (m n : ℕ) → m ≢ n → (m == n) ≡ false
other_address m n ne = ground (arith, ne)

without-append :
    (new : Region) (rs : List Region)
    → Each (λ r. r.ptr ≢ new.ptr) rs
    → without new.ptr (append_regions rs (new ∷ [])) ≡ rs
unfolding without append_regions
without-append new [] absent = rw (same_address new.ptr) refl
without-append new (r ∷ rs) (ne, absent) =
    rw (other_address r.ptr new.ptr ne) (ap (λ xs. r ∷ xs) (without-append new rs absent))

-- Deleting a region that was added to a chain in which it was not gives the old chain back.
pub region_del-region_add :
    (new : Region) (rs : List Region)
    → new.ptr ≢ 0
    → Each (λ r. r.ptr ≢ new.ptr) rs
    → region_del new.ptr (region_add rs (new ∷ [])).1 ≡ (ok tt, rs)
unfolding region_del region_add
region_del-region_add new rs ne absent =
    rw (other_address new.ptr 0 ne) (ap (λ xs. (ok tt, xs)) (without-append new rs absent))
