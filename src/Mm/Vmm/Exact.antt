-- ===== src/Mm/Vmm/Exact.antt =====
-- vmm_map_exact of kernel/mm/vmm.c.
use sdx.Prelude.{
  ℕ, zero, suc, refl, ap, inl, inr, Bool, true, not, Option, none, some, leb, eq_refl, Bool-cases,
  ◌+◌, ◌-◌, ◌%◌, ◌≡◌, ◌&&◌, ◌||◌, ◌∙◌, ◌==◌, if◌then◌else◌,
}
use sdx.Util.Math.{u64_mod}
use sdx.Mm.Pages.{Pages}
use sdx.Mm.Vmm.{
  Slot, Space, entry_to_addr, has_attr, reuse, entry_from_vaddr, read_slot, does_contain,
}
use sdx.Mm.Vmm.Ops.{Vmm, map_pages}

-- The variables of the loop that the code after it reads.
pub record Exact : Type 0 where
  pub num : ℕ
  pub cur : ℕ
  pub vaddr : ℕ
  pub paddr : ℕ

-- The first page is there already: it is left out of the range.
unfoldable pub leave_out : Bool → Exact → Exact
leave_out moved x =
    if moved
    then record x {
      num = x.num - 1;
      vaddr = (x.vaddr + 4096) % u64_mod;
      paddr = (x.paddr + 4096) % u64_mod;
    }
    else x

-- The loop; `cur` rises or `num` falls in every round, so that `num` rounds are enough.
unfoldable pub exact_from : (kernel_end attr fuel vaddr_pos paddr_pos : ℕ) → Space → Exact → Exact
exact_from kernel_end attr zero v p s x = x
exact_from kernel_end attr (suc fuel) v p s x =
    let next = λ (y : Exact).
      exact_from kernel_end attr fuel ((v + 4096) % u64_mod) ((p + 4096) % u64_mod) s
        (record y { cur = x.cur + 1 }) in
    let taken = λ (slot : Slot).
      let y = leave_out (x.cur == 0 && entry_to_addr (read_slot s v slot) == p) x in
      if has_attr attr reuse then next y else y in
    if leb x.num x.cur || not (does_contain kernel_end v)
    then x
    else elim (entry_from_vaddr s v) [ none ↦ next x | some slot ↦ taken slot ]

again_exact :
    (kernel_end paddr vaddr attr : ℕ) (slot : Slot) (s : Space)
    → does_contain kernel_end vaddr ≡ true
    → entry_from_vaddr s vaddr ≡ some slot
    → entry_to_addr (read_slot s vaddr slot) ≡ paddr
    → exact_from kernel_end attr 1 vaddr paddr s
        (record { num = 1; cur = 0; vaddr = vaddr; paddr = paddr })
      ≡ record {
        num = 0;
        cur = if has_attr attr reuse then 1 else 0;
        vaddr = (vaddr + 4096) % u64_mod;
        paddr = (paddr + 4096) % u64_mod;
      }
unfolding exact_from leave_out
again_exact kernel_end paddr vaddr attr slot s inside found same =
    elim (Bool-cases (has_attr attr reuse)) [
      | inl r ↦ rw inside rw found rw (same, eq_refl paddr, r) refl
      | inr r ↦ rw inside rw found rw (same, eq_refl paddr, r) refl
    ]

module _ (p : Pages) where
  open p use {State}

  -- What follows the loop.
  unfoldable pub map_rest : (attr : ℕ) → Exact → Vmm State → Option (ℕ × Vmm State)
  map_rest attr x s =
      if x.cur == x.num
      then elim (map_pages p attr x.num x.paddr x.vaddr s) [
        | none ↦ none
        | some s' ↦ some (x.vaddr, s')
      ]
      else some (0, s)

  unfoldable pub vmm_map_exact :
      (kernel_end paddr vaddr num attr : ℕ) → Vmm State → Option (ℕ × Vmm State)
  vmm_map_exact kernel_end paddr vaddr num attr s =
      map_rest attr
        (exact_from kernel_end attr num vaddr paddr s.space
          (record { num = num; cur = 0; vaddr = vaddr; paddr = paddr }))
        s

  -- A page that is mapped to the asked physical page already: with REUSE the call fails, and without it
  -- the call returns the address after that page; neither changes anything.
  pub vmm_map_exact_again :
      (kernel_end paddr vaddr attr : ℕ) (slot : Slot) (s : Vmm State)
      → does_contain kernel_end vaddr ≡ true
      → entry_from_vaddr s.space vaddr ≡ some slot
      → entry_to_addr (read_slot s.space vaddr slot) ≡ paddr
      → vmm_map_exact kernel_end paddr vaddr 1 attr s
        ≡ some (if has_attr attr reuse then 0 else (vaddr + 4096) % u64_mod, s)
  unfolding vmm_map_exact map_rest map_pages
  vmm_map_exact_again kernel_end paddr vaddr attr slot s inside found same =
      ap (λ (x : Exact). map_rest attr x s)
        (again_exact kernel_end paddr vaddr attr slot s.space inside found same)
      ∙ elim (Bool-cases (has_attr attr reuse)) [ inl r ↦ rw r refl | inr r ↦ rw r refl ]
