-- ===== src/Mm/Vmm/Fresh.antt =====
-- vmm_map of kernel/mm/vmm.c: the search, the allocation and the mapping together.
use sdx.Prelude.{ℕ, refl, inl, inr, false, Option, none, some, arith, ◌<◌, ◌≡◌, ◌≢◌, ◌⊎◌, ◌==◌}
use sdx.Mm.Pages.{Pages}
use sdx.Mm.Vmm.{entry_from_vaddr}
use sdx.Mm.Vmm.Range.{page_offset}
use sdx.Mm.Vmm.Search.{find_contiguous}
use sdx.Mm.Vmm.Find.{FoundAt, find_contiguous-FoundAt}
use sdx.Mm.Vmm.Ops.{Vmm, map_pages, map_to_vaddr, vmm_map}
use sdx.Mm.Vmm.Tables.{Outcome}
use sdx.Mm.Vmm.Map.{Mapped, map_pages-Mapped}

module _ (p : Pages) where
  open p use {State, IsSound, alloc, alloc-IsSound, alloc_aligned, alloc_bound}

  -- No page for a table, or the address with the state.
  unfoldable pub Fresh : (num align a : ℕ) → Vmm State → Option (ℕ × Vmm State) → Type 0
  Fresh num align a s r =
      ((m : State) × IsSound m × ((alloc 1 0 m).0 ≡ 0) × (r ≡ none))
      ⊎ ((s' : Vmm State) × (r ≡ some (a, s')) × Mapped p a num (alloc num align s.memory).0 s s')

  module _ (num align a attr : ℕ) (s : Vmm State) (sound : IsSound s.memory) (more : 0 < num)
      (got : (alloc num align s.memory).0 ≢ 0)
      (empty : (w : ℕ) → page_offset a w < num → entry_from_vaddr s.space w ≡ none) where
    mapped :
        Outcome p
          (Mapped p a num
            (alloc num align s.memory).0
            (record s { memory = (alloc num align s.memory).1 }))
          (map_pages p attr num
            (alloc num align s.memory).0
            a
            (record s { memory = (alloc num align s.memory).1 }))
    mapped =
        let bound = alloc_bound num align s.memory more sound got in
        map_pages-Mapped p attr num _ a (record s { memory = (alloc num align s.memory).1 })
          (alloc-IsSound num align s.memory more sound)
          (alloc_aligned num align s.memory more sound) bound (omega (arith, bound))
          (λ w lt e. cc (empty w lt, e))

    with_address :
        (o : Option (Vmm State))
        → Outcome p
            (Mapped p a num
              (alloc num align s.memory).0
              (record s { memory = (alloc num align s.memory).1 }))
            o
        → Fresh num align a s (elim o [ none ↦ none | some s' ↦ some (a, s') ])
    unfolding Outcome Fresh
    with_address none (m, sound', z) = inl (m, sound', z, refl)
    with_address (some s') m = inr (
      s',
      refl,
      record {
        sound = m.sound;
        inside = m.inside;
        slots = m.slots;
        same = m.same;
        outside = m.outside;
      },
    )

    pub map_to_vaddr-Fresh : Fresh num align a s (map_to_vaddr p a num align attr s)
    unfolding map_to_vaddr
    map_to_vaddr-Fresh =
        let z : ((alloc num align s.memory).0 == 0) ≡ false = ground (arith, got) in
        rw z (with_address _ mapped)

  -- For the tables of `Space`: where the search ends with an address and the allocator has the
  -- pages, vmm_map either needs a table that the allocator has no page for, or returns that
  -- address. Then no page from there on had an entry before, each leads to its page of the
  -- allocated ones after, and the others resolve as before.
  pub vmm_map-Fresh :
      (fuel num align attr a : ℕ) (s : Vmm State)
      → IsSound s.memory
      → 0 < num
      → find_contiguous s.space fuel num align attr ≡ some a
      → a ≢ 0
      → (alloc num align s.memory).0 ≢ 0
      → FoundAt s.space num align a × Fresh num align a s (vmm_map p fuel num align attr s)
  unfolding vmm_map
  vmm_map-Fresh fuel num align attr a s sound more found nonzero got =
      let f = find_contiguous-FoundAt s.space fuel num align attr a more found in
      let z : (a == 0) ≡ false = ground (arith, nonzero) in
      (f, rw (found, vmm_map) rw z (map_to_vaddr-Fresh num align a attr s sound more got f.free))
