-- ===== src/Mm/Vmm/Walk.antt =====
-- What the steps of __vmm_map_to_paddr_internal (kernel/mm/vmm.c) do to the addresses that resolve.
use sdx.Prelude.{
  ℕ, refl, inl, inr, true, false, some, arith, Option-cases, ◌/◌, ◌%◌, ◌^◌, ◌≡◌, ◌≢◌, ◌∙◌, ◌==◌,
}
use sdx.Util.Words.{word_or}
use sdx.Mm.Vmm.{
  entry_to_addr, pt_index, clear_pt, pd_index, set_pd, set_pdpt, clear_pd, pdpt_index, flag_ps,
  set_pt, vmm_resolve, pml4_index, bit_get, pt_slot, pdpt_entry, pd_slot, Space, pml4_entry,
  pd_entry, pt_entry, walk, entry_from_vaddr, set_pml4, clear_pdpt,
}

-- The walk finds the same entry at an address, with the same contents.
pub record SameWalk (s s' : Space) (v : ℕ) : Type 0 where
  pub slot : entry_from_vaddr s' v ≡ entry_from_vaddr s v
  pub large : entry_from_vaddr s v ≡ some pd_slot → pd_entry s' v ≡ pd_entry s v
  pub small : entry_from_vaddr s v ≡ some pt_slot → pt_entry s' v ≡ pt_entry s v

pub SameWalk-refl : (s : Space) (v : ℕ) → SameWalk s s v
SameWalk-refl s v = record { slot = refl; large = λ e. refl; small = λ e. refl }

pub SameWalk-trans :
    (s s' s'' : Space) (v : ℕ) → SameWalk s s' v → SameWalk s' s'' v → SameWalk s s'' v
SameWalk-trans s s' s'' v a b = record {
  slot = b.slot ∙ a.slot;
  large = λ e. b.large (a.slot ∙ e) ∙ a.large e;
  small = λ e. b.small (a.slot ∙ e) ∙ a.small e;
}

-- Then it resolves to the same physical address.
pub SameWalk-resolve : (s s' : Space) (v : ℕ) → SameWalk s s' v → vmm_resolve s' v ≡ vmm_resolve s v
unfolding vmm_resolve
SameWalk-resolve s s' v w = elim (Option-cases (entry_from_vaddr s v)) [
  | inl e ↦ rw (w.slot, e, vmm_resolve) refl
  | inr (pd_slot, e) ↦ rw (w.slot, e, w.large e, vmm_resolve) refl
  | inr (pt_slot, e) ↦ rw (w.slot, e, w.small e, vmm_resolve) refl
]

module _ (s : Space) (v e w : ℕ) (filled : (e == 0) ≡ false) where
  pub SameWalk-set_pml4 : (pml4_entry s v == 0) ≡ false → SameWalk s (set_pml4 v e s) w
  unfolding entry_from_vaddr walk
  SameWalk-set_pml4 old = ground arith

  pub SameWalk-new_pdpt :
      (pml4_entry s v == 0) ≡ true → SameWalk s (clear_pdpt v (set_pml4 v e s)) w
  unfolding entry_from_vaddr walk
  SameWalk-new_pdpt old = ground arith

  pub SameWalk-set_pdpt : (pdpt_entry s v == 0) ≡ false → SameWalk s (set_pdpt v e s) w
  unfolding entry_from_vaddr walk
  SameWalk-set_pdpt old = ground arith

  pub SameWalk-new_pd : (pdpt_entry s v == 0) ≡ true → SameWalk s (clear_pd v (set_pdpt v e s)) w
  unfolding entry_from_vaddr walk
  SameWalk-new_pd old = ground arith

  pub SameWalk-set_pd :
      (pd_entry s v == 0) ≡ false
      → (bit_get (pd_entry s v) flag_ps == 1) ≡ false
      → (bit_get e flag_ps == 1) ≡ false
      → SameWalk s (set_pd v e s) w
  unfolding entry_from_vaddr walk
  SameWalk-set_pd old small new = ground arith

  pub SameWalk-new_pt :
      (pd_entry s v == 0) ≡ true
      → (bit_get e flag_ps == 1) ≡ false
      → SameWalk s (clear_pt v (set_pd v e s)) w
  unfolding entry_from_vaddr walk
  SameWalk-new_pt old new = ground arith

-- The tables that lead to an address are there, and its PD entry is none of 2 MiB.
pub record Tabled (s : Space) (v : ℕ) : Type 0 where
  pub in_pml4 : (pml4_entry s v == 0) ≡ false
  pub in_pdpt : (pdpt_entry s v == 0) ≡ false
  pub in_pd : (pd_entry s v == 0) ≡ false
  pub small : (bit_get (pd_entry s v) flag_ps == 1) ≡ false

-- The pages of two addresses.
abbrev pub page_of : ℕ → ℕ
page_of v = v / 4096 % 2 ^ 36

same_indexes :
    (v w : ℕ)
    → pml4_index v ≡ pml4_index w
    → pdpt_index v ≡ pdpt_index w
    → pd_index v ≡ pd_index w
    → pt_index v ≡ pt_index w
    → page_of v ≡ page_of w
same_indexes v w a b c d = omega arith

-- A write of the page's entry changes what is found at its own page only.
pub SameWalk-set_pt : (s : Space) (v e w : ℕ) → page_of v ≢ page_of w → SameWalk s (set_pt v e s) w
unfolding entry_from_vaddr walk
SameWalk-set_pt s v e w ne = ground (arith, same_indexes w v)

pub found-set_pt :
    (s : Space) (v e w : ℕ)
    → Tabled s v
    → (e == 0) ≡ false
    → page_of w ≡ page_of v
    → (entry_from_vaddr (set_pt v e s) w ≡ some pt_slot) × (pt_entry (set_pt v e s) w ≡ e)
unfolding entry_from_vaddr walk
found-set_pt s v e w t filled same = ground (arith, t.in_pml4, t.in_pdpt, t.in_pd, t.small)

pub resolve-pt_slot :
    (s : Space) (v : ℕ)
    → entry_from_vaddr s v ≡ some pt_slot
    → (bit_get (pt_entry s v) flag_ps == 1) ≡ false
    → vmm_resolve s v ≡ word_or 64 (entry_to_addr (pt_entry s v)) (v % 2 ^ 12)
unfolding vmm_resolve
resolve-pt_slot s v found small = rw (found, vmm_resolve) (rw small refl)
