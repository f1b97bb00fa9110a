-- ===== src/Util/ErrorTable/Lookup.antt =====
-- What strerror returns.
use Prim.Native.String.{String}
use sdx.Prelude.{ℕ, refl, inl, inr, List, [], arith, Bool-cases, ◌+◌, ◌≡◌, ◌≢◌, ◌⊎◌, ◌∷◌, ◌==◌}
use sdx.Prelude.Int.{ℤ, pos, negsuc}
use sdx.Util.ErrorTable.{ErrorInfo, error_table, matches, find_row, strerror}

-- The absolute value of an error number.
abbrev pub magnitude : ℤ → ℕ
magnitude (pos n) = n
magnitude (negsuc n) = n + 1

abbrev pub NoRow : ℕ → List ErrorInfo → Type 0
NoRow n [] = Unit
NoRow n (row ∷ rows) = (row.value ≢ n) × NoRow n rows

-- `row` is the first row of the list with the number `n`.
pub data FirstRow (n : ℕ) (row : ErrorInfo) : List ErrorInfo → Type 0 where
  here : (rows : List ErrorInfo) → row.value ≡ n → FirstRow n row (row ∷ rows)
  there :
      (other : ErrorInfo) (rows : List ErrorInfo)
      → other.value ≢ n
      → FirstRow n row rows
      → FirstRow n row (other ∷ rows)

matches-magnitude : (err : ℤ) (row : ErrorInfo) → matches err row ≡ (magnitude err == row.value)
unfolding matches
matches-magnitude (pos n) row = refl
matches-magnitude (negsuc n) row = refl

abbrev Found : ℤ → List ErrorInfo → String → Type 0
Found err rows msg =
    ((row : ErrorInfo) × FirstRow (magnitude err) row rows × (msg ≡ row.msg))
    ⊎ (NoRow (magnitude err) rows × (msg ≡ "Unknown error code"))

Found-cons :
    (err : ℤ) (row : ErrorInfo) (rows : List ErrorInfo) {msg : String}
    → row.value ≢ magnitude err
    → Found err rows msg
    → Found err (row ∷ rows) msg
Found-cons err row rows ne (inl (r, first, e)) = inl (r, FirstRow.there row rows ne first, e)
Found-cons err row rows ne (inr (none_of, e)) = inr ((ne, none_of), e)

find_row-Found : (err : ℤ) (rows : List ErrorInfo) → Found err rows (find_row err rows)
unfolding find_row
find_row-Found err [] = inr (tt, refl)
find_row-Found err (row ∷ rows) = elim (Bool-cases (matches err row)) [
  | inl hit ↦ inl (row, FirstRow.here rows (ground (arith, matches-magnitude err row)), rw hit)
  | inr miss ↦ rw miss (
      Found-cons err row rows (ground (arith, matches-magnitude err row)) (find_row-Found err rows))
]

-- strerror takes the error number with either sign. It returns the message of the first row of the
-- table with that number, and the default text exactly where the table has no such row.
pub strerror-first :
    (err : ℤ)
    → ((row : ErrorInfo) × FirstRow (magnitude err) row error_table × (strerror err ≡ row.msg))
      ⊎ (NoRow (magnitude err) error_table × (strerror err ≡ "Unknown error code"))
unfolding strerror
strerror-first err = find_row-Found err error_table
