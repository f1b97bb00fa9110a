-- ===== src/Mm/Region/Mapping.antt =====
-- Mapping memory regions: region_new, region_free, region_map and region_unmap of kernel/mm/region.c
-- over kernel/mm/vmm.c.
use sdx.Prelude.{
  ℕ, refl, sym, inl, inr, true, false, Option, none, some, arith, ◌+◌, ◌*◌, ◌%◌, ◌^◌, ◌≤◌, ◌<◌, ◌≡◌,
  ◌≢◌, ◌⊎◌, ◌∙◌, ◌==◌, if◌then◌else◌,
}
use sdx.Errno.{Errno, Result, ok, err}
use sdx.Util.Bits.{bit_get}
use sdx.Mm.Pages.{Pages}
use sdx.Mm.Region.{Region}
use sdx.Mm.Vmm.{has_attr, vmm_resolve}
use sdx.Mm.Vmm.Walk.{SameWalk-resolve}
use sdx.Mm.Vmm.Range.{page_offset, le_or_lt}
use sdx.Mm.Vmm.Search.{find_contiguous}
use sdx.Mm.Vmm.Find.{FoundAt}
use sdx.Mm.Vmm.Ops.{Vmm, vmm_map, vmm_map_vaddr}
use sdx.Mm.Vmm.Exact.{vmm_map_exact}
use sdx.Mm.Vmm.Unmap.{vmm_unmap}
use sdx.Mm.Vmm.Map.{Mapped}
use sdx.Mm.Vmm.Release.{UnmapOutcome}
use sdx.Mm.Vmm.Undo.{Unmapped, SameResolve, vmm_unmap-Unmapped, resolve-none}
use sdx.Mm.Vmm.Fresh.{Fresh, vmm_map-Fresh}

-- The attributes of the types in `region_type_data`: none, VMM_ATTR_RDONLY or VMM_ATTR_NO_EXEC.
unfoldable pub type_attr : (type : ℕ) → ℕ
type_attr type = if type == 1 then 0 else if type == 2 then 4 else 1

-- `attr` of region_map. The bits of VMM_ATTR_REUSE, VMM_ATTR_SAVE and VMM_ATTR_USER are not among those
-- of the types, so that `|` adds.
unfoldable pub region_attr : (type vma : ℕ) → ℕ
region_attr type vma = type_attr type + 32 + 16 + (if vma == 2 then 8 else 0)

-- `region_new`; `fresh` is what heap_alloc returns.
unfoldable pub region_new : (fresh type vma vaddr num : ℕ) → Option Region
region_new fresh type vma vaddr num =
    if fresh == 0
    then none
    else some (record { ptr = fresh; type = type; vma = vma; vaddr = vaddr; paddr = 0; num = num })

module _ (p : Pages) where
  open p use {State, IsSound, alloc, free}

  -- What region_map makes of the address that a call of the manager returned.
  abbrev mapped_at : Region → (ℕ × Vmm State) → Option (Result (Unit {0}) × Region × Vmm State)
  mapped_at r (vaddr, s) = some (if vaddr == 0 then err Errno.efault else ok tt, r, s)

  -- `none` where a call of the manager ends without a result.
  unfoldable pub region_map :
      (kernel_end fuel : ℕ) → Region → Vmm State → Option (Result (Unit {0}) × Region × Vmm State)
  region_map kernel_end fuel r s =
      let attr = region_attr r.type r.vma in
      if r.vaddr == 0
      then elim (vmm_map p fuel r.num 0 attr s) [
        | none ↦ none
        | some (a, s') ↦ mapped_at (record r { vaddr = a; paddr = vmm_resolve s'.space a }) (a, s')
      ]
      else if r.paddr == 0
      then elim (vmm_map_vaddr p kernel_end r.vaddr r.num 0 attr s) [
        | none ↦ none
        | some (a, s') ↦ mapped_at (record r { paddr = vmm_resolve s'.space a }) (a, s')
      ]
      else elim (vmm_map_exact p kernel_end r.paddr r.vaddr r.num attr s) [
        | none ↦ none
        | some m ↦ mapped_at r m
      ]

  -- `region_unmap`, with VMM_ATTR_SAVE
  unfoldable pub region_unmap : Region → Vmm State → Option (Result (Unit {0}) × Vmm State)
  region_unmap r s = vmm_unmap p r.vaddr r.num 16 s

  -- `region_free` of a region; freeing its object changes no page.
  unfoldable pub region_free : Region → State → State
  region_free r m = if r.paddr == 0 then m else (free r.paddr r.num m).1

  -- With VMM_ATTR_SAVE nothing is asked of the allocator that it could refuse.
  saved-ok :
      (Q : Vmm State → Type 0) (o : Option (Result (Unit {0}) × Vmm State))
      → UnmapOutcome p 16 Q o
      → (s' : Vmm State) × (o ≡ some (ok tt, s')) × Q s'
  unfolding UnmapOutcome has_attr bit_get
  saved-ok Q none out = elim out [ ]
  saved-ok Q (some (err e, s)) (freed, a, m, refused) = let bad : ⊥ = cc freed in elim bad [ ]
  saved-ok Q (some (ok u, s)) q = (s, refl, q)

  -- A new region and the pages behind it, which were not mapped before; after unmapping it every
  -- address resolves as before.
  pub record Placed (r : Region) (a : ℕ) (s : Vmm State) (r' : Region) (s' : Vmm State)
      : Type 0 where
    pub vaddr : r'.vaddr ≡ a
    pub paddr : r'.paddr ≡ (alloc r.num 0 s.memory).0
    pub pages :
        (w : ℕ)
        → page_offset a w < r.num
        → (vmm_resolve s.space w ≡ 0)
          × (vmm_resolve s'.space w ≡ r'.paddr + page_offset a w * 4096 + w % 4096)
    pub undone : (s'' : Vmm State) × (region_unmap r' s' ≡ some (ok tt, s'')) × SameResolve p s s''

  module _ (r : Region) (a : ℕ) (s s' : Vmm State) (fits : r.num ≤ 2 ^ 36) (more : 0 < r.num)
      (f : FoundAt s.space r.num 0 a) (m : Mapped p a r.num (alloc r.num 0 s.memory).0 s s') where
    resolves : vmm_resolve s'.space a ≡ (alloc r.num 0 s.memory).0
    resolves = m.inside a (omega (arith, more)) ∙ omega (arith, f.page)

    Placed-Mapped : Placed r a s (record r { vaddr = a; paddr = vmm_resolve s'.space a }) s'
    unfolding region_unmap
    Placed-Mapped =
        let (s'', e, u) =
          saved-ok (Unmapped p a r.num s') (vmm_unmap p a r.num 16 s')
            (vmm_unmap-Unmapped p a r.num 16 s' fits m.slots) in
        record {
          vaddr = refl;
          paddr = resolves;
          pages = λ w lt. (resolve-none s.space w (f.free w lt), rw resolves (m.inside w lt));
          undone = (
            s'',
            e,
            λ w. elim (le_or_lt r.num (page_offset a w)) [
              | inl le ↦ SameWalk-resolve s'.space s''.space w (u.same w le) ∙ m.outside w le
              | inr lt ↦
                  resolve-none s''.space w (u.gone w lt)
                  ∙ sym (resolve-none s.space w (f.free w lt))
            ],
          );
        }

  -- Mapping a region without addresses, where the search finds free addresses and the allocator has its
  -- pages: region_map ends without a result where a table finds no page, or succeeds. Then the region
  -- has the found address and its physical one, its pages were not mapped before and lead to its
  -- physical pages now, and region_unmap succeeds and takes every address back to what it was.
  pub region_map-Placed :
      (kernel_end fuel a : ℕ) (r : Region) (s : Vmm State)
      → IsSound s.memory
      → r.vaddr ≡ 0
      → 0 < r.num
      → r.num ≤ 2 ^ 36
      → find_contiguous s.space fuel r.num 0 (region_attr r.type r.vma) ≡ some a
      → a ≢ 0
      → (alloc r.num 0 s.memory).0 ≢ 0
      → ((m : State) × IsSound m × ((alloc 1 0 m).0 ≡ 0) × (region_map kernel_end fuel r s ≡ none))
        ⊎ ((r' : Region) × (s' : Vmm State) × (region_map kernel_end fuel r s
              ≡ some (ok tt, r', s'))
            × Placed r a s r' s')
  unfolding region_map Fresh
  region_map-Placed kernel_end fuel a r s sound new more fits found nonzero got =
      let (f, out) =
        vmm_map-Fresh p fuel r.num 0 (region_attr r.type r.vma) a s sound more found nonzero got in
      let unplaced : (r.vaddr == 0) ≡ true = ground (arith, new) in
      let at_a : (a == 0) ≡ false = ground (arith, nonzero) in
      elim out [
        | inl (m, sound', z, e) ↦ inl (m, sound', z, rw unplaced rw e refl)
        | inr (s', e, m) ↦ inr (
          record r { vaddr = a; paddr = vmm_resolve s'.space a },
          s',
          rw unplaced rw e rw at_a refl,
          Placed-Mapped r a s s' fits more f m,
        )
      ]
