-- ===== src/Fs/Fat/Spelling.antt =====
-- The text in the part of a long name, and what __fat32_lfn_read makes of it.
use sdx.Prelude.{ℕ, refl, ap, List, [], arith, Each, ◌≡◌, ◌≢◌, ◌⊎◌, ◌∷◌, ◌++◌}
use sdx.Fs.Fat.Names.{Entry, low_bytes, until_end, lfn_read}

-- Bytes that begin with a text and end with the fill 0 and 0xff.
abbrev pub Spells : (bytes text : List ℕ) → Type 0
Spells bs [] = Each (λ b. (b ≡ 0) ⊎ (b ≡ 255)) bs
Spells [] (c ∷ cs) = ⊥
Spells (b ∷ bs) (c ∷ cs) = (b ≡ c) × (c ≢ 0) × (c ≢ 255) × Spells bs cs

-- The part of a long name that an entry has.
abbrev pub HasPart : Entry → List ℕ → Type 0
HasPart e text = Spells (low_bytes e 1 5 ++ (low_bytes e 14 6 ++ low_bytes e 28 2)) text

until_end-Spells : (bytes text : List ℕ) → Spells bytes text → until_end bytes ≡ text
unfolding until_end
until_end-Spells [] [] s = refl
until_end-Spells [] (c ∷ cs) s = elim s [ ]
until_end-Spells (b ∷ bs) [] (stop, stops) = ground (arith, stop)
until_end-Spells (b ∷ bs) (c ∷ cs) (e, n0, n255, s) =
    let rest = until_end-Spells bs cs s in ground (arith, e, n0, n255, rest)

until_end-stop : (x : ℕ) (xs : List ℕ) → (x ≡ 0) ⊎ (x ≡ 255) → until_end (x ∷ xs) ≡ []
unfolding until_end
until_end-stop x xs stop = ground (arith, stop)

until_end-plain :
    (x c : ℕ) (xs : List ℕ) → x ≡ c → c ≢ 0 → c ≢ 255 → until_end (x ∷ xs) ≡ c ∷ until_end xs
unfolding until_end
until_end-plain x c xs e n0 n255 = ground (arith, e, n0, n255)

Each-tail : (P : ℕ → Type 0) (xs ys : List ℕ) → Each P (xs ++ ys) → Each P ys
Each-tail P [] ys each = each
Each-tail P (x ∷ xs) ys (p, each) = Each-tail P xs ys each

Spells-split :
    (xs ys text : List ℕ)
    → Spells (xs ++ ys) text
    → (rest : List ℕ) × (until_end xs ++ rest ≡ text) × Spells ys rest
unfolding until_end
Spells-split [] ys text s = (text, refl, s)
Spells-split (x ∷ xs) ys [] (stop, stops) =
    ([], rw (until_end-stop x xs stop) refl, Each-tail _ xs ys stops)
Spells-split (x ∷ xs) ys (c ∷ cs) (e, n0, n255, s) =
    let (rest, eq, s') = Spells-split xs ys cs s in
    (rest, rw (until_end-plain x c xs e n0 n255) (ap (λ ts. c ∷ ts) eq), s')

pub lfn_read-HasPart : (e : Entry) (text : List ℕ) → HasPart e text → lfn_read e ≡ text
unfolding lfn_read
lfn_read-HasPart e text s =
    let (more, eq, s') =
      Spells-split (low_bytes e 1 5) (low_bytes e 14 6 ++ low_bytes e 28 2) text s in
    let (rest, eq', s'') = Spells-split (low_bytes e 14 6) (low_bytes e 28 2) more s' in
    rw (until_end-Spells (low_bytes e 28 2) rest s'', eq') eq
