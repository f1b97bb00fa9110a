-- ===== src/Mm/Vmm/Ordinary.antt =====
-- vmm_map_to_paddr and vmm_map of kernel/mm/vmm.c, for addresses outside of the slot of the PML4
-- that shows the tables themselves.
use sdx.Prelude.{ℕ, inl, inr, Option, none, some, ◌+◌, ◌*◌, ◌%◌, ◌^◌, ◌≤◌, ◌<◌, ◌≡◌, ◌≢◌, ◌⊎◌}
use sdx.Mm.Pages.{Pages}
use sdx.Mm.Vmm.{pml4_index, vmm_resolve}
use sdx.Mm.Vmm.Range.{page_offset}
use sdx.Mm.Vmm.Search.{find_contiguous}
use sdx.Mm.Vmm.Find.{FoundAt}
use sdx.Mm.Vmm.Ops.{Vmm, map_pages, vmm_map}
use sdx.Mm.Vmm.Tables.{Outcome, Outcome-map}
use sdx.Mm.Vmm.Map.{Mapped, IsSmall, map_pages-Mapped}
use sdx.Mm.Vmm.Fresh.{Fresh, vmm_map-Fresh}

-- The slot of the recursive entry.
abbrev pub recursive_slot : ℕ
recursive_slot = 510

abbrev pub IsOrdinary : ℕ → Type 0
IsOrdinary w = pml4_index w ≢ recursive_slot

-- No page of a range is in the recursive slot.
abbrev pub OrdinaryRange : (v num : ℕ) → Type 0
OrdinaryRange v num = (w : ℕ) → page_offset v w < num → IsOrdinary w

module _ (p : Pages) where
  open p use {State, IsSound, alloc}

  -- The i-th page from `v` on leads to the i-th physical page, and the other addresses outside of the
  -- recursive slot resolve as before.
  pub record Leads (v num paddr : ℕ) (s s' : Vmm State) : Type 0 where
    pub sound : IsSound s'.memory
    pub inside :
        (w : ℕ)
        → page_offset v w < num
        → vmm_resolve s'.space w ≡ paddr + page_offset v w * 4096 + w % 4096
    pub outside :
        (w : ℕ)
        → num ≤ page_offset v w
        → IsOrdinary w
        → vmm_resolve s'.space w ≡ vmm_resolve s.space w

  Mapped-Leads :
      (v num paddr : ℕ) (s s' : Vmm State) → Mapped p v num paddr s s' → Leads v num paddr s s'
  Mapped-Leads v num paddr s s' m = record {
    sound = m.sound;
    inside = m.inside;
    outside = λ w le ordinary. m.outside w le;
  }

  -- Mapping up to 2^36 pages outside of the recursive slot 510, to physical memory below 2^47, either
  -- needs a table that the allocator has no page for, or makes each page of the range resolve to its
  -- physical page, at every offset, and leaves where the other addresses outside of that slot resolve. No
  -- page of the range may be part of a mapped page of 2 MiB.
  pub map_pages-Leads :
      (attr num paddr v : ℕ) (s : Vmm State)
      → IsSound s.memory
      → paddr % 4096 ≡ 0
      → paddr + num * 4096 ≤ 2 ^ 47
      → num ≤ 2 ^ 36
      → OrdinaryRange v num
      → IsSmall p v num s.space
      → Outcome p (Leads v num paddr s) (map_pages p attr num paddr v s)
  map_pages-Leads attr num paddr v s sound aligned bound fits ordinary small =
      Outcome-map p _ _ _ (λ s' m. Mapped-Leads v num paddr s s' m)
        (map_pages-Mapped p attr num paddr v s sound aligned bound fits small)

  -- No page for a table, or the address with the state.
  unfoldable pub Allotted : (num align a : ℕ) → Vmm State → Option (ℕ × Vmm State) → Type 0
  Allotted num align a s r =
      ((m : State) × IsSound m × ((alloc 1 0 m).0 ≡ 0) × (r ≡ none))
      ⊎ ((s' : Vmm State) × (r ≡ some (a, s')) × Leads a num (alloc num align s.memory).0 s s')

  Fresh-Allotted :
      (num align a : ℕ) (s : Vmm State) (r : Option (ℕ × Vmm State))
      → Fresh p num align a s r
      → Allotted num align a s r
  unfolding Fresh Allotted
  Fresh-Allotted num align a s r (inl failed) = inl failed
  Fresh-Allotted num align a s r (inr (s', e, m)) = inr (s', e, Mapped-Leads a num _ s s' m)

  -- Where the search ends with an address whose range is outside of the recursive slot 510, and the
  -- allocator has the pages, vmm_map either needs a table that the allocator has no page for, or returns
  -- that address. Then no page from there on had an entry before, each leads to its page of the allocated
  -- ones after, and the other addresses outside of that slot resolve as before.
  pub vmm_map-Allotted :
      (fuel num align attr a : ℕ) (s : Vmm State)
      → IsSound s.memory
      → 0 < num
      → find_contiguous s.space fuel num align attr ≡ some a
      → a ≢ 0
      → OrdinaryRange a num
      → (alloc num align s.memory).0 ≢ 0
      → FoundAt s.space num align a × Allotted num align a s (vmm_map p fuel num align attr s)
  vmm_map-Allotted fuel num align attr a s sound more found nonzero ordinary got =
      let (found_at, fresh) =
        vmm_map-Fresh p fuel num align attr a s sound more found nonzero got in
      (found_at, Fresh-Allotted num align a s _ fresh)
