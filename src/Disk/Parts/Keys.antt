-- ===== src/Disk/Parts/Keys.antt =====
-- What finding and changing a partition object does to the list.
use mathlib.Core.Option.{some-injective}
use mathlib.Core.Path.{subst}
use sdx.Prelude.{
  ℕ, suc, refl, sym, ap, inl, inr, true, false, Option, none, some, List, [], arith, Bool-cases,
  Option-cases, length, Each, Exists, ◌≡◌, ◌∙◌, ◌∷◌,
}
use sdx.Disk.Parts.{Part, Row, has_key, find_key, modify_at}

-- The assignments of a loader to the object of a row.
abbrev pub enable : Row → Part → Part
enable row p = record p { bootable = row.bootable; available = true }

-- The second list is the first one with its first object of the row's key assigned.
pub data Assigned (row : Row) : List Part → List Part → Type 0 where
  here :
      {p : Part} {ps : List Part}
      → has_key row.start row.size p ≡ true
      → Assigned row (p ∷ ps) (enable row p ∷ ps)
  there : {p : Part} {ps qs : List Part} → Assigned row ps qs → Assigned row (p ∷ ps) (p ∷ qs)

find_key-nil : (s z : ℕ) → find_key s z [] ≡ none
unfolding find_key
find_key-nil s z = refl

find_key-here :
    (s z : ℕ) (p : Part) (ps : List Part) → has_key s z p ≡ true → find_key s z (p ∷ ps) ≡ some 0
unfolding find_key
find_key-here s z p ps e = rw e refl

find_key-there :
    (s z : ℕ) (p : Part) (ps : List Part) (r : Option ℕ)
    → has_key s z p ≡ false
    → find_key s z ps ≡ r
    → find_key s z (p ∷ ps) ≡ (elim r [ none ↦ none | some i ↦ some (suc i) ])
unfolding find_key
find_key-there s z p ps r e e' = rw (e, e') refl

pub modify_at-Assigned :
    (row : Row) (ps : List Part) (i : ℕ)
    → find_key row.start row.size ps ≡ some i
    → Assigned row ps (modify_at i (enable row) ps)
unfolding modify_at
modify_at-Assigned row [] i found = ground (arith, found, find_key-nil row.start row.size)
modify_at-Assigned row (p ∷ ps) i found = elim (Bool-cases (has_key row.start row.size p)) [
  | inl same ↦
      let e : 0 ≡ i =
        some-injective _ _ (sym (find_key-here row.start row.size p ps same) ∙ found) in
      subst (λ k. Assigned row (p ∷ ps) (modify_at k (enable row) (p ∷ ps))) e (Assigned.here same)
  | inr differs ↦ elim (Option-cases (find_key row.start row.size ps)) [
    | inl e ↦ ground (arith, found, find_key-there row.start row.size p ps none differs e)
    | inr (j, e) ↦
        let e' : suc j ≡ i =
          some-injective _ _
            (sym (find_key-there row.start row.size p ps (some j) differs e) ∙ found) in
        subst (λ k. Assigned row (p ∷ ps) (modify_at k (enable row) (p ∷ ps))) e'
          (Assigned.there (modify_at-Assigned row ps j e))
  ]
]

module _ (row : Row) where
  pub Each-Assigned :
      (P : Part → Type 0) {ps qs : List Part}
      → Assigned row ps qs
      → Each P ps
      → ((p : Part) → has_key row.start row.size p ≡ true → P (enable row p))
      → Each P qs
  Each-Assigned P (Assigned.here {p} {ps} e) (x, xs) f = (f p e, xs)
  Each-Assigned P (Assigned.there a) (x, xs) f = (x, Each-Assigned P a xs f)

  pub Exists-Assigned :
      (P : Part → Type 0) {ps qs : List Part}
      → Assigned row ps qs
      → Exists P ps
      → ((p : Part) → P p → P (enable row p))
      → Exists P qs
  Exists-Assigned P (Assigned.here {p} {ps} e) (inl x) f = inl (f p x)
  Exists-Assigned P (Assigned.here {p} {ps} e) (inr xs) f = inr xs
  Exists-Assigned P (Assigned.there a) (inl x) f = inl x
  Exists-Assigned P (Assigned.there a) (inr xs) f = inr (Exists-Assigned P a xs f)

  pub Assigned-Exists :
      (P : Part → Type 0) {ps qs : List Part}
      → Assigned row ps qs
      → ((p : Part) → has_key row.start row.size p ≡ true → P (enable row p))
      → Exists P qs
  Assigned-Exists P (Assigned.here {p} {ps} e) f = inl (f p e)
  Assigned-Exists P (Assigned.there a) f = inr (Assigned-Exists P a f)

  pub Assigned-length : {ps qs : List Part} → Assigned row ps qs → length qs ≡ length ps
  Assigned-length (Assigned.here e) = refl
  Assigned-length (Assigned.there a) = ap suc (Assigned-length a)
