-- ===== src/Pic/Masks.antt =====
-- Which interrupts pic_mask and pic_unmask act on.
use native.Mathlib.Nat.{pow-succ', add-mul-mod_self_right}
use sdx.Prelude.{
  ℕ, zero, suc, refl, ap, inl, inr, true, false, arith, ltb, Bool-cases, ◌+◌, ◌-◌, ◌*◌, ◌%◌, ◌^◌,
  ◌≤◌, ◌<◌, ◌≡◌, ◌∙◌, ◌==◌, if◌then◌else◌,
}
use sdx.Util.Bits.{bit_get, bit_on, bit_get-bit_on}
use sdx.Pic.{Io, master_data, slave_data, data_port, pic_mask}

add_suc : (a b : ℕ) → a + suc b ≡ suc (a + b)
add_suc a b = omega arith

pow-above : (k : ℕ) → 2 ^ (8 + k) ≡ 2 ^ k * 256
pow-above zero = refl
pow-above (suc k) =
    ap (λ n. 2 ^ n) (add_suc 8 k) ∙ pow-succ' 2 (8 + k) ∙ omega (arith, pow-above k, pow-succ' 2 k)

above : (i : ℕ) → 7 < i → 2 ^ i ≡ 2 ^ (i - 8) * 256
above i lo = ap (λ n. 2 ^ n) (omega arith) ∙ pow-above (i - 8)

byte_kept : (v j : ℕ) → v < 256 → (v + j * 256) % 256 ≡ v
byte_kept v j small = add-mul-mod_self_right v j 256 ∙ omega arith

bit_on-above : (v i : ℕ) → 7 < i → v < 256 → bit_on v i % 256 ≡ v
unfolding bit_on
bit_on-above v i lo small = elim (Bool-cases (bit_get v i == 1)) [
  | inl e ↦ rw e (omega arith)
  | inr e ↦ rw e (ap (λ n. (v + n) % 256) (above i lo) ∙ byte_kept v (2 ^ (i - 8)) small)
]

is_slave : (i : ℕ) → 7 < i → ltb 7 i ≡ true
is_slave i lo = ground arith

is_known : (i : ℕ) → i ≤ 15 → ltb 15 i ≡ false
is_known i hi = ground arith

bit_get-low : (w k : ℕ) → k < 8 → bit_get (w % 256) k ≡ bit_get w k
unfolding bit_get
bit_get-low w zero small = omega arith
bit_get-low w (suc zero) small = omega arith
bit_get-low w (suc (suc zero)) small = omega arith
bit_get-low w (suc (suc (suc zero))) small = omega arith
bit_get-low w (suc (suc (suc (suc zero)))) small = omega arith
bit_get-low w (suc (suc (suc (suc (suc zero))))) small = omega arith
bit_get-low w (suc (suc (suc (suc (suc (suc zero)))))) small = omega arith
bit_get-low w (suc (suc (suc (suc (suc (suc (suc zero))))))) small = omega arith
bit_get-low w (suc (suc (suc (suc (suc (suc (suc (suc k)))))))) small =
    absurd (omega (arith, small))

module _ (io : Io) where
  open io use {State, in8, out8_wait}

  -- For an interrupt of the slave, 8 to 15, pic_mask writes the byte that it read: the bit of the
  -- interrupt's number lies outside of it, so no interrupt is masked.
  pub pic_mask-slave :
      (i : ℕ) (s : State)
      → 7 < i
      → i ≤ 15
      → in8 slave_data s < 256
      → pic_mask io i s ≡ out8_wait slave_data (in8 slave_data s) s
  unfolding pic_mask data_port
  pic_mask-slave i s lo hi byte =
      rw (is_slave i lo, is_known i hi)
        (ap (λ w. out8_wait slave_data w s) (bit_on-above (in8 slave_data s) i lo byte))

  -- For an interrupt of the master, 0 to 7, pic_mask writes a byte that has the interrupt's bit set and
  -- the others as they were read.
  pub pic_mask-master :
      (i : ℕ) (s : State)
      → i ≤ 7
      → in8 master_data s < 256
      → (w : ℕ) × (pic_mask io i s ≡ out8_wait master_data w s)
        × ((k : ℕ) → k < 8 → bit_get w k ≡ (if i == k then 1 else bit_get (in8 master_data s) k))
  unfolding pic_mask data_port
  pic_mask-master i s small byte = (
    bit_on (in8 master_data s) i % 256,
    ground arith,
    (λ k low.
        bit_get-low (bit_on (in8 master_data s) i) k low ∙ bit_get-bit_on (in8 master_data s) i k),
  )
