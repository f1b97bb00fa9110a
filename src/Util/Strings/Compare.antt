-- ===== src/Util/Strings/Compare.antt =====
-- What strlen, strcmp and strncpy do with the strings in memory.
use mathlib.Core.Path.{subst}
use sdx.Prelude.{
  ℕ, suc, refl, inl, inr, some, List, [], arith, Bool-cases, length, ◌+◌, ◌-◌, ◌%◌, ◌<◌, ◌≡◌, ◌≢◌,
  ◌∷◌, ◌==◌,
}
use sdx.Util.Strings.{Memory, length_from, strlen, compare_from, strcmp, strncpy, memcpy, bzero}

-- The bytes of a string from an address on, up to its terminator.
abbrev pub IsString : Memory → ℕ → List ℕ → Type 0
IsString mem p [] = mem p ≡ 0
IsString mem p (x ∷ xs) = (mem p ≡ x) × (x ≢ 0) × (x < 256) × IsString mem (p + 1) xs

add_one : (a b : ℕ) → (a + b) + 1 ≡ a + (b + 1)
add_one a b = omega arith

add_zero : (a : ℕ) → a ≡ a + 0
add_zero a = omega arith

length_from-IsString :
    (mem : Memory) (str len : ℕ) (xs : List ℕ)
    → IsString mem (str + len) xs
    → length_from mem (suc (length xs)) str len ≡ some (len + length xs)
unfolding length_from
length_from-IsString mem str len [] e = ground (arith, e)
length_from-IsString mem str len (x ∷ xs) (e, ne, small, rest) = ground (
  arith,
  e,
  ne,
  length_from-IsString mem str (len + 1) xs (subst (λ p. IsString mem p xs) (add_one str len) rest),
)

-- For a string in memory, with fuel for its bytes and the terminator, strlen returns its length.
pub strlen-length :
    (mem : Memory) (str : ℕ) (xs : List ℕ)
    → str ≢ 0
    → IsString mem str xs
    → strlen mem (suc (length xs)) str ≡ some (length xs)
unfolding strlen
strlen-length mem str xs ne s =
    ground (
      arith,
      ne,
      length_from-IsString mem str 0 xs (subst (λ p. IsString mem p xs) (add_zero str) s),
    )

-- The result of a comparison: 0 for equal strings, else the difference of the first bytes that differ,
-- which is not 0.
abbrev pub Compared : List ℕ → List ℕ → ℕ → Type 0
Compared [] [] r = r ≡ 0
Compared [] (y ∷ ys) r = r ≢ 0
Compared (x ∷ xs) [] r = r ≢ 0
Compared (x ∷ xs) (y ∷ ys) r =
    (x ≡ y → Compared xs ys r) × (x ≢ y → (r ≡ (x + 256 - y) % 256) × (r ≢ 0))

compare_from-Compared :
    (mem : Memory) (p q : ℕ) (xs ys : List ℕ)
    → IsString mem p xs
    → IsString mem q ys
    → (r : ℕ) × (compare_from mem (suc (length xs)) p q ≡ some r) × Compared xs ys r
unfolding compare_from
compare_from-Compared mem p q [] [] e e' = (0, ground (arith, e, e'), refl)
compare_from-Compared mem p q [] (y ∷ ys) e (e', ne, small, rest) =
    ((256 - y) % 256, ground (arith, e, e'), (λ z. ne (omega (arith, z, small))))
compare_from-Compared mem p q (x ∷ xs) [] (e, ne, small, rest) e' =
    (x, ground (arith, e, e', small), ne)
compare_from-Compared mem p q (x ∷ xs) (y ∷ ys) (e, ne, small, rest) (e', ne', small', rest') =
    elim (Bool-cases (x == y)) [
      | inl same ↦
          let (r, eq, c) = compare_from-Compared mem (p + 1) (q + 1) xs ys rest rest' in
          (
            r,
            ground (arith, e, ne, e', ne', same, eq),
            ((λ t. c), (λ differs. absurd (differs (ground (arith, same))))),
          )
      | inr differs ↦ (
        (x + 256 - y) % 256,
        ground (arith, e, e', differs, small, small'),
        (
          (λ t. absurd (ground (arith, t, differs))),
          (λ t. (refl, (λ z. t (omega (arith, z, small, small'))))),
        ),
      )
    ]

-- For two strings in memory, with fuel for the first one, strcmp returns 0 where they are equal and
-- else the difference of the first bytes that differ, as a byte that is not 0.
pub strcmp-Compared :
    (mem : Memory) (p q : ℕ) (xs ys : List ℕ)
    → p ≢ 0
    → q ≢ 0
    → IsString mem p xs
    → IsString mem q ys
    → (r : ℕ) × (strcmp mem (suc (length xs)) p q ≡ some r) × Compared xs ys r
unfolding strcmp
strcmp-Compared mem p q xs ys np nq s s' =
    let (r, e, c) = compare_from-Compared mem p q xs ys s s' in (r, ground (arith, np, nq, e), c)

-- Copying the empty string changes nothing: neither the terminator nor the padding is written.
pub strncpy_empty :
    (mem : Memory) (dst src dsize : ℕ)
    → src ≢ 0
    → IsString mem src []
    → strncpy 1 dst src dsize mem ≡ some (0, mem)
unfolding strncpy memcpy bzero
strncpy_empty mem dst src dsize ne e = ground (arith, strlen-length mem src [] ne e)
