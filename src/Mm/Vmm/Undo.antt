-- ===== src/Mm/Vmm/Undo.antt =====
-- The loop of vmm_unmap (kernel/mm/vmm.c), alone and after the loop that maps.
use sdx.Prelude.{ℕ, zero, suc, refl, inl, inr, none, some, arith, ◌+◌, ◌%◌, ◌^◌, ◌≤◌, ◌<◌, ◌≡◌, ◌∙◌}
use sdx.Mm.Pages.{Pages}
use sdx.Mm.Vmm.{Space, pt_slot, entry_from_vaddr, vmm_resolve}
use sdx.Mm.Vmm.Walk.{SameWalk, SameWalk-refl, SameWalk-trans}
use sdx.Mm.Vmm.Range.{
  page_offset, same_page, step_offset, last_offset, zero_offset, below_zero, past_last,
}
use sdx.Mm.Vmm.Ops.{Vmm}
use sdx.Mm.Vmm.Unmap.{unmap_page, vmm_unmap}
use sdx.Mm.Vmm.Release.{
  UnmapOutcome, UnmapOutcome-map, UnmapOutcome-on_ok, Cleared, unmap_page-Cleared,
}

-- An address without an entry resolves to 0.
pub resolve-none : (s : Space) (v : ℕ) → entry_from_vaddr s v ≡ none → vmm_resolve s v ≡ 0
unfolding vmm_resolve
resolve-none s v e = rw (e, vmm_resolve) refl

module _ (p : Pages) where
  open p use {State, IsSound}

  -- What unmapping `num` pages from `v` on does.
  pub record Unmapped (v num : ℕ) (s s' : Vmm State) : Type 0 where
    pub gone : (w : ℕ) → page_offset v w < num → entry_from_vaddr s'.space w ≡ none
    pub same : (w : ℕ) → num ≤ page_offset v w → SameWalk s.space s'.space w

  -- Each page of the range has an entry in a PT.
  abbrev pub IsMapped : (v num : ℕ) → Space → Type 0
  IsMapped v num s = (w : ℕ) → page_offset v w < num → entry_from_vaddr s w ≡ some pt_slot

  module _ (v num : ℕ) (s s1 : Vmm State) (page : Cleared p v s s1) (fits : num < 2 ^ 36) where
    pub Unmapped-suc :
        (s2 : Vmm State) → Unmapped ((v + 4096) % 2 ^ 64) num s1 s2 → Unmapped v (suc num) s s2
    Unmapped-suc s2 rest = record {
      gone = λ w lt. elim (same_page v w) [
        | inl eq ↦ (rest.same w (omega (arith, last_offset v w eq, fits))).slot ∙ page.gone w eq
        | inr ne ↦ rest.gone w (omega (arith, step_offset v w ne, lt))
      ];
      same = λ w le. elim (same_page v w) [
        | inl eq ↦ elim (zero_offset (last_offset v w eq).0 le) [ ]
        | inr ne ↦
            SameWalk-trans s.space s1.space s2.space w (page.same w ne)
              (rest.same w (omega (arith, step_offset v w ne, le)))
      ];
    }

    pub IsMapped-suc : IsMapped v (suc num) s.space → IsMapped ((v + 4096) % 2 ^ 64) num s1.space
    IsMapped-suc mapped w lt = elim (same_page v w) [
      | inl eq ↦ elim (past_last (last_offset v w eq).1 lt fits) [ ]
      | inr ne ↦ (page.same w ne).slot ∙ mapped w (omega (arith, step_offset v w ne, lt))
    ]

  -- For the tables of `Space`: unmapping up to 2^36 mapped pages of 4 KiB never faults: it takes
  -- the entry of each page of the range away and leaves what the other addresses have, or it
  -- returns an error with which the allocator refused to take a page back, which it is not asked to
  -- where the pages are saved.
  pub vmm_unmap-Unmapped :
      (v num attr : ℕ) (s : Vmm State)
      → num ≤ 2 ^ 36
      → IsMapped v num s.space
      → UnmapOutcome p attr (Unmapped v num s) (vmm_unmap p v num attr s)
  unfolding vmm_unmap UnmapOutcome
  vmm_unmap-Unmapped v zero attr s fits mapped = record {
    gone = λ w lt. elim (below_zero lt) [ ];
    same = λ w le. SameWalk-refl s.space w;
  }
  vmm_unmap-Unmapped v (suc num) attr s fits mapped =
      UnmapOutcome-on_ok p attr _ _ (unmap_page p attr v s) _
        (unmap_page-Cleared p attr v s (mapped v (omega arith)))
        (λ s1 page.
          UnmapOutcome-map p attr _ _ _ (Unmapped-suc v num s s1 page (omega (arith, fits))) (
            vmm_unmap-Unmapped ((v + 4096) % 2 ^ 64) num attr s1 (omega (arith, fits))
              (IsMapped-suc v num s s1 page (omega (arith, fits)) mapped)))

  -- Every address resolves as before.
  abbrev pub SameResolve : Vmm State → Vmm State → Type 0
  SameResolve s s' = (w : ℕ) → vmm_resolve s'.space w ≡ vmm_resolve s.space w
