-- ===== src/Fs/Fat/Buffers.antt =====
-- What a buffer of the FAT32 driver holds after bytes are put into it.
use mathlib.Core.Path.{subst}
use sdx.Prelude.{ℕ, suc, refl, true, List, [], arith, length, ◌+◌, ◌<◌, ◌≡◌, ◌∙◌, ◌∷◌, ◌++◌, ◌==◌}
use sdx.Util.Strings.{Memory, write_byte}
use sdx.Fs.Fat.{put_bytes}
use sdx.Fs.Fat.Directory.{same_name}

-- A buffer has bytes from an index on.
abbrev pub Holds : Memory → (index : ℕ) → List ℕ → Type 0
Holds buffer i [] = Unit
Holds buffer i (c ∷ cs) = (buffer i ≡ c) × Holds buffer (i + 1) cs

Holds-write :
    (buffer : Memory) (i j b : ℕ) (cs : List ℕ)
    → j < i
    → Holds buffer i cs
    → Holds (write_byte buffer j b) i cs
Holds-write buffer i j b [] less h = tt
Holds-write buffer i j b (c ∷ cs) less (e, h) =
    (ground (arith, less, e), Holds-write buffer (i + 1) j b cs (omega (arith, less)) h)

put_bytes-below :
    (buffer : Memory) (i j : ℕ) (cs : List ℕ) → j < i → put_bytes cs i buffer j ≡ buffer j
unfolding put_bytes
put_bytes-below buffer i j [] less = refl
put_bytes-below buffer i j (c ∷ cs) less =
    put_bytes-below (write_byte buffer i c) (i + 1) j cs (omega (arith, less))
    ∙ ground (arith, less)

pub put_bytes-Holds :
    (buffer : Memory) (i : ℕ) (xs ys : List ℕ)
    → Holds buffer (i + length xs) ys
    → Holds (put_bytes xs i buffer) i (xs ++ ys)
unfolding put_bytes
put_bytes-Holds buffer i [] ys h = subst (λ k. Holds buffer k ys) (omega arith) h
put_bytes-Holds buffer i (x ∷ xs) ys h = (
  put_bytes-below (write_byte buffer i x) (i + 1) i xs (omega arith) ∙ ground arith,
  put_bytes-Holds (write_byte buffer i x) (i + 1) xs ys (
      subst (λ k. Holds (write_byte buffer i x) k ys) (omega arith)
        (Holds-write buffer (i + suc (length xs)) i x ys (omega arith) h)),
)

pub same_name-Holds :
    (buffer : Memory) (i : ℕ) (cs : List ℕ)
    → Holds buffer i cs
    → same_name (write_byte buffer (i + length cs) 0) i cs ≡ true
unfolding same_name
same_name-Holds buffer i [] h = ground arith
same_name-Holds buffer i (c ∷ cs) (e, h) =
    let rest = same_name-Holds buffer (i + 1) cs h in
    let place : (i + 1) + length cs ≡ i + suc (length cs) = omega arith in
    let later = subst (λ k. same_name (write_byte buffer k 0) (i + 1) cs ≡ true) place rest in
    let first : (write_byte buffer (i + suc (length cs)) 0 i == c) ≡ true = ground (arith, e) in
    rw first later
