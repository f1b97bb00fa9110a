-- ===== src/Util/Strings/Reverse.antt =====
-- What strrev does to a string.
use sdx.Prelude.{
  ℕ, zero, suc, refl, ap, inl, inr, false, some, arith, leb, Bool-cases, ◌+◌, ◌-◌, ◌≤◌, ◌<◌, ◌≡◌,
  ◌≢◌, ◌⊎◌, ◌&&◌, ◌∙◌, ◌==◌, if◌then◌else◌,
}
use sdx.Util.Strings.{Memory, write_byte, length_from, strlen}
use sdx.Util.Strings.Numbers.{rev_from, strrev}

-- A string of `n` bytes that are not 0.
pub record HasLength (mem : Memory) (str n : ℕ) : Type 0 where
  pub bytes : (i : ℕ) → i < n → mem (str + i) ≢ 0
  pub ended : mem (str + n) ≡ 0

length_from-HasLength :
    (mem : Memory) (k str i : ℕ)
    → ((j : ℕ) → j < k → mem (str + (i + j)) ≢ 0)
    → mem (str + (i + k)) ≡ 0
    → length_from mem (suc k) str i ≡ some (i + k)
unfolding length_from
length_from-HasLength mem zero str i bytes ended =
    let here : mem (str + i) ≡ 0 = ap mem (omega arith) ∙ ended in ground (arith, here)
length_from-HasLength mem (suc k) str i bytes ended =
    let here : mem (str + i) ≢ 0 = λ e. bytes 0 (omega arith) (ap mem (omega arith) ∙ e) in
    let more : (mem (str + i) == 0) ≡ false = ground (arith, here) in
    rw more (
      length_from-HasLength mem k str (i + 1)
        (λ j less e. bytes (suc j) (omega (arith, less)) (ap mem (omega arith) ∙ e))
        (ap mem (omega arith) ∙ ended)
      ∙ ap some (omega arith))

pub strlen-HasLength :
    (mem : Memory) (str n : ℕ) → str ≢ 0 → HasLength mem str n → strlen mem (suc n) str ≡ some n
unfolding strlen
strlen-HasLength mem str n ne s =
    let not_null : (str == 0) ≡ false = ground (arith, ne) in
    rw not_null (
      length_from-HasLength mem n str 0 (λ j less e. s.bytes j less (ap mem (omega arith) ∙ e))
        (ap mem (omega arith) ∙ s.ended)
      ∙ ap some (omega arith))

-- The place of an address in the mirror of a range.
abbrev pub mirror : (front back a : ℕ) → ℕ
mirror front back a = if leb front a && leb a back then front + back - a else a

-- The two bytes at the ends of a range change places.
abbrev swap_ends : (front back : ℕ) → Memory → Memory
swap_ends front back mem = write_byte (write_byte mem front (mem back)) back (mem front)

swap_ends-back :
    (front back a : ℕ) (mem : Memory) → a ≡ back → swap_ends front back mem a ≡ mem front
swap_ends-back front back a mem e = ground (arith, e)

swap_ends-front :
    (front back a : ℕ) (mem : Memory) → a ≡ front → a ≢ back → swap_ends front back mem a ≡ mem back
swap_ends-front front back a mem e ne = ground (arith, e, ne)

swap_ends-other :
    (front back a : ℕ) (mem : Memory) → a ≢ front → a ≢ back → swap_ends front back mem a ≡ mem a
swap_ends-other front back a mem nf nb = ground (arith, nf, nb)

swap_ends-mirror :
    (front back a : ℕ) (mem : Memory)
    → front < back
    → (a ≤ front) ⊎ (back ≤ a)
    → swap_ends front back mem a ≡ mem (mirror front back a)
swap_ends-mirror front back a mem less outside = elim (Bool-cases (a == back)) [
  | inl e ↦
      let at_back : a ≡ back = ground (arith, e) in
      let place : front ≡ mirror front back a = ground (arith, at_back, less) in
      swap_ends-back front back a mem at_back ∙ ap mem place
  | inr ne ↦
      let not_back : a ≢ back = ground (arith, ne) in
      elim (Bool-cases (a == front)) [
        | inl e ↦
            let at_front : a ≡ front = ground (arith, e) in
            let place : back ≡ mirror front back a = ground (arith, at_front, less) in
            swap_ends-front front back a mem at_front not_back ∙ ap mem place
        | inr nf ↦
            let not_front : a ≢ front = ground (arith, nf) in
            let place : a ≡ mirror front back a = ground (arith, outside, not_front, not_back) in
            swap_ends-other front back a mem not_front not_back ∙ ap mem place
      ]
]

swap_ends-inner :
    (front back a : ℕ) (mem : Memory)
    → front + 1 < back
    → swap_ends front back mem (mirror (front + 1) (back - 1) a) ≡ mem (mirror front back a)
swap_ends-inner front back a mem far = elim (Bool-cases (leb (front + 1) a && leb a (back - 1))) [
  | inl inside ↦
      let place : mirror (front + 1) (back - 1) a ≡ mirror front back a =
        ground (arith, inside, far) in
      let nf : mirror front back a ≢ front = ground (arith, inside, far) in
      let nb : mirror front back a ≢ back = ground (arith, inside, far) in
      ap (swap_ends front back mem) place ∙ swap_ends-other front back _ mem nf nb
  | inr outside ↦
      let place : mirror (front + 1) (back - 1) a ≡ a = ground (arith, outside) in
      let away : (a ≤ front) ⊎ (back ≤ a) = ground (arith, outside, far) in
      ap (swap_ends front back mem) place
      ∙ swap_ends-mirror front back a mem (omega (arith, far)) away
]

rev_from-mirror :
    (fuel front back : ℕ) (mem : Memory)
    → front ≤ back
    → back < front + fuel
    → (a : ℕ) → rev_from fuel front back mem a ≡ mem (mirror front back a)
unfolding rev_from
rev_from-mirror zero front back mem le enough a = absurd (omega (arith, le, enough))
rev_from-mirror (suc fuel) front back mem le enough a = elim (Bool-cases (front == back)) [
  | inl met ↦ let place : a ≡ mirror front back a = ground (arith, met) in rw met (ap mem place)
  | inr apart ↦ elim (Bool-cases (front + 1 == back)) [
    | inl next ↦
        let less : front < back = ground (arith, next) in
        let outside : (a ≤ front) ⊎ (back ≤ a) = ground (arith, next) in
        rw (apart, next) (swap_ends-mirror front back a mem less outside)
    | inr far ↦
        let gap : front + 1 < back = ground (arith, le, apart, far) in
        let inner =
          rev_from-mirror fuel (front + 1) (back - 1) (swap_ends front back mem)
            (omega (arith, gap)) (omega (arith, enough)) a in
        rw (apart, far) (inner ∙ swap_ends-inner front back a mem gap)
  ]
]

-- For a string of `n` bytes at an address that is not 0, with fuel for them and the terminator,
-- strrev mirrors the bytes of the string, and leaves every other byte as it was.
pub strrev-mirror :
    (mem : Memory) (str n : ℕ)
    → str ≢ 0
    → HasLength mem str n
    → (mem' : Memory) × (strrev (suc n) str mem ≡ some mem')
      × ((i : ℕ) → i < n → mem' (str + i) ≡ mem (str + (n - 1 - i)))
      × ((a : ℕ) → (a < str) ⊎ (str + n ≤ a) → mem' a ≡ mem a)
unfolding strrev
strrev-mirror mem str n ne s = elim (Bool-cases (leb n 1)) [
  | inl short ↦ (
    mem,
    rw (strrev, strlen-HasLength mem str n ne s, short) refl,
    (λ i less. ap mem (ground (arith, short, less))),
    (λ a outside. refl),
  )
  | inr long ↦
      let last = str + n - 1 in
      let turned = rev_from-mirror n str last mem (ground (arith, long)) (ground (arith, long)) in
      (
        rev_from n str last mem,
        rw (strrev, strlen-HasLength mem str n ne s, long) refl,
        (λ i less. turned (str + i) ∙ ap mem (ground (arith, long, less))),
        (λ a outside. turned a ∙ ap mem (ground (arith, long, outside))),
      )
]
