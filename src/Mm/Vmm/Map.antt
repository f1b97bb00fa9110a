-- ===== src/Mm/Vmm/Map.antt =====
-- The loop of __vmm_map_to_paddr_internal (kernel/mm/vmm.c): which addresses resolve where after it.
use sdx.Prelude.{
  ℕ, zero, suc, refl, sym, inl, inr, some, arith, ◌+◌, ◌*◌, ◌%◌, ◌^◌, ◌≤◌, ◌<◌, ◌≡◌, ◌≢◌, ◌∙◌,
}
use sdx.Util.Words.{word_or}
use sdx.Mm.Pages.{Pages}
use sdx.Mm.Vmm.{
  set_pt, pd_slot, pt_slot, Space, table_flags, page_flags, pt_entry, entry_from_vaddr, vmm_resolve,
}
use sdx.Mm.Vmm.Flags.{
  page_flags-IsPageFlags, table_flags-IsPageFlags, word_or-page, entry_to_addr-page, entry_bits,
  word_or-flags, word_or-offset,
}
use sdx.Mm.Vmm.Walk.{
  SameWalk-resolve, page_of, SameWalk, SameWalk-refl, SameWalk-trans, Tabled, SameWalk-set_pt,
  found-set_pt, resolve-pt_slot,
}
use sdx.Mm.Vmm.Range.{page_offset, same_page, step_offset, last_offset, zero_offset, below_zero}
use sdx.Mm.Vmm.Tables.{
  Outcome, Outcome-chain, Outcome-map, Step, Step-trans, ensure_pdpt-Step, ensure_pd-Step,
  ensure_pt-Step,
}
use sdx.Mm.Vmm.Ops.{Vmm, map_pages, ensure_pdpt, ensure_pd, ensure_pt, write_page, map_page}

module _ (p : Pages) where
  open p use {State, IsSound}

  -- What map_page does: its page leads to the physical page, the others resolve as before.
  record Paged (v paddr : ℕ) (s s' : Vmm State) : Type 0 where
    sound : IsSound s'.memory
    same : (w : ℕ) → page_of v ≢ page_of w → SameWalk s.space s'.space w
    slot : (w : ℕ) → page_of w ≡ page_of v → entry_from_vaddr s'.space w ≡ some pt_slot
    here : (w : ℕ) → page_of w ≡ page_of v → vmm_resolve s'.space w ≡ paddr + w % 4096

  module _ (attr paddr v : ℕ) (aligned : paddr % 4096 ≡ 0) (bound : paddr < 2 ^ 47) where
    resolve_page :
        (s : Space) (w : ℕ)
        → entry_from_vaddr s w ≡ some pt_slot
        → pt_entry s w ≡ word_or 64 paddr (page_flags attr)
        → vmm_resolve s w ≡ paddr + w % 4096
    resolve_page s w found entry =
        let fl = page_flags-IsPageFlags attr in
        let e : word_or 64 paddr (page_flags attr) ≡ paddr + page_flags attr =
          word_or-page paddr (page_flags attr) aligned bound fl in
        resolve-pt_slot s w found (rw (entry, e) (entry_bits paddr (page_flags attr) aligned fl).1)
        ∙ rw (entry, e, entry_to_addr-page paddr (page_flags attr) aligned bound fl)
            (word_or-offset paddr (w % 4096) aligned (omega (arith, bound)) (omega arith))

    write_page-Paged :
        (s s' : Vmm State)
        → Step p s s'
        → Tabled s'.space v
        → Paged v paddr s (write_page p attr paddr v s')
    unfolding write_page
    write_page-Paged s s' step tabled =
        let fl = page_flags-IsPageFlags attr in
        let e = word_or-flags paddr (page_flags attr) fl in
        let new = set_pt v (word_or 64 paddr (page_flags attr)) s'.space in
        record {
          sound = step.sound;
          same = λ w ne.
              SameWalk-trans s.space s'.space new w (step.same w)
                (SameWalk-set_pt s'.space v _ w ne);
          slot = λ w eq. (found-set_pt s'.space v _ w tabled e.0 eq).0;
          here = λ w eq.
              let f = found-set_pt s'.space v _ w tabled e.0 eq in resolve_page new w f.0 f.1;
        }

    map_page-Paged :
        (s : Vmm State)
        → IsSound s.memory
        → entry_from_vaddr s.space v ≢ some pd_slot
        → Outcome p (Paged v paddr s) (map_page p attr paddr v s)
    unfolding map_page Outcome
    map_page-Paged s sound small =
        let fl = table_flags-IsPageFlags attr in
        let flags = table_flags attr in
        Outcome-chain p _ _ (ensure_pdpt p flags v s) _ (ensure_pdpt-Step p flags v fl s sound)
          (λ s1 a.
            Outcome-chain p _ _ (ensure_pd p flags v s1) _
              (ensure_pd-Step p flags v fl s1 a.0.sound a.1)
              (λ s2 b.
                let before = Step-trans p s s1 s2 a.0 b.0 in
                Outcome-chain p _ _ (ensure_pt p flags v s2) _
                  (ensure_pt-Step p flags v fl s2 b.0.sound b.1 b.2
                    (λ e. small (sym (before.same v).slot ∙ e)))
                  (λ s3 c. write_page-Paged s s3 (Step-trans p s s2 s3 before c.0) c.1)))

  -- What mapping `num` pages does: the i-th page from `v` on leads to the i-th physical page, and the
  -- other addresses resolve as before.
  pub record Mapped (v num paddr : ℕ) (s s' : Vmm State) : Type 0 where
    pub sound : IsSound s'.memory
    pub inside :
        (w : ℕ)
        → page_offset v w < num
        → vmm_resolve s'.space w ≡ paddr + page_offset v w * 4096 + w % 4096
    pub slots : (w : ℕ) → page_offset v w < num → entry_from_vaddr s'.space w ≡ some pt_slot
    pub same : (w : ℕ) → num ≤ page_offset v w → SameWalk s.space s'.space w
    pub outside : (w : ℕ) → num ≤ page_offset v w → vmm_resolve s'.space w ≡ vmm_resolve s.space w

  -- No page of the range is part of a page of 2 MiB.
  abbrev pub IsSmall : (v num : ℕ) → Space → Type 0
  IsSmall v num s = (w : ℕ) → page_offset v w < num → entry_from_vaddr s w ≢ some pd_slot

  module _ (paddr v num : ℕ) (s s1 : Vmm State) (page : Paged v paddr s s1)
      (fits : num < 2 ^ 36) where
    Mapped-suc :
        (s2 : Vmm State)
        → Mapped ((v + 4096) % 2 ^ 64) num (paddr + 4096) s1 s2
        → Mapped v (suc num) paddr s s2
    Mapped-suc s2 rest = record {
      sound = rest.sound;
      inside = λ w lt. elim (same_page v w) [
        | inl eq ↦
            rest.outside w (omega (arith, last_offset v w eq, fits))
            ∙ page.here w eq
            ∙ omega (arith, last_offset v w eq)
        | inr ne ↦
            rest.inside w (omega (arith, step_offset v w ne, lt))
            ∙ omega (arith, step_offset v w ne)
      ];
      slots = λ w lt. elim (same_page v w) [
        | inl eq ↦ (rest.same w (omega (arith, last_offset v w eq, fits))).slot ∙ page.slot w eq
        | inr ne ↦ rest.slots w (omega (arith, step_offset v w ne, lt))
      ];
      same = λ w le. elim (same_page v w) [
        | inl eq ↦ elim (zero_offset (last_offset v w eq).0 le) [ ]
        | inr ne ↦
            SameWalk-trans s.space s1.space s2.space w (page.same w ne)
              (rest.same w (omega (arith, step_offset v w ne, le)))
      ];
      outside = λ w le. elim (same_page v w) [
        | inl eq ↦ omega (arith, last_offset v w eq, le)
        | inr ne ↦
            rest.outside w (omega (arith, step_offset v w ne, le))
            ∙ SameWalk-resolve s.space s1.space w (page.same w ne)
      ];
    }

    IsSmall-suc : IsSmall v (suc num) s.space → IsSmall ((v + 4096) % 2 ^ 64) num s1.space
    IsSmall-suc small w lt = elim (same_page v w) [
      | inl eq ↦ λ e. omega (arith, last_offset v w eq, lt, fits)
      | inr ne ↦
          λ e. small w (omega (arith, step_offset v w ne, lt)) (sym (page.same w ne).slot ∙ e)
    ]

  -- For the tables of `Space`: mapping up to 2^36 pages of physical memory below 2^47 either needs
  -- a table that the allocator has no page for, or makes each page of the range resolve to its
  -- physical page, at every offset, and leaves where the others resolve. No page of the range may
  -- be part of a mapped page of 2 MiB.
  pub map_pages-Mapped :
      (attr num paddr v : ℕ) (s : Vmm State)
      → IsSound s.memory
      → paddr % 4096 ≡ 0
      → paddr + num * 4096 ≤ 2 ^ 47
      → num ≤ 2 ^ 36
      → IsSmall v num s.space
      → Outcome p (Mapped v num paddr s) (map_pages p attr num paddr v s)
  unfolding map_pages Outcome
  map_pages-Mapped attr zero paddr v s sound aligned bound fits small = record {
    sound = sound;
    inside = λ w lt. omega (arith, lt);
    slots = λ w lt. elim (below_zero lt) [ ];
    same = λ w le. SameWalk-refl s.space w;
    outside = λ w le. refl;
  }
  map_pages-Mapped attr (suc num) paddr v s sound aligned bound fits small =
      let next : (paddr + 4096) % 2 ^ 64 ≡ paddr + 4096 = omega (arith, bound) in
      Outcome-chain p _ _ (map_page p attr paddr v s) _
        (map_page-Paged attr paddr v aligned (omega (arith, bound)) s sound (small v (omega arith)))
        (λ s1 page.
          let rest =
            map_pages-Mapped attr num (paddr + 4096) ((v + 4096) % 2 ^ 64) s1 page.sound
              (omega (arith, aligned)) (omega (arith, bound)) (omega (arith, fits))
              (IsSmall-suc paddr v num s s1 page (omega (arith, fits)) small) in
          rw next
            (Outcome-map p _ _ _ (Mapped-suc paddr v num s s1 page (omega (arith, fits))) rest))
