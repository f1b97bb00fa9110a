-- ===== src/Mm/Vmm/Release.antt =====
-- What vmm_unmap (kernel/mm/vmm.c) does to the addresses that resolve.
use sdx.Prelude.{
  ℕ, zero, suc, refl, ap, inl, inr, true, false, Option, none, some, arith, Bool-cases, ◌<◌, ◌≡◌,
  ◌≢◌, ◌⊎◌, ◌∙◌, ◌==◌,
}
use sdx.Errno.{Errno, Result, ok, err}
use sdx.Util.Bits.{bit_get}
use sdx.Mm.Pages.{Pages}
use sdx.Mm.Vmm.{
  entry_to_addr, flag_pmm, pt_slot, has_attr, save, pt_entry, flag_ps, Space, pml4_index,
  pdpt_index, pd_index, pt_index, pd_entry, entry_from_vaddr, walk, set_pml4, set_pdpt, set_pd,
  set_pt,
}
use sdx.Mm.Vmm.Walk.{page_of, SameWalk, SameWalk-refl, SameWalk-trans, SameWalk-set_pt}
use sdx.Mm.Vmm.Range.{below_zero}
use sdx.Mm.Vmm.Ops.{Vmm, alert_tasks, is_table_free}
use sdx.Mm.Vmm.Unmap.{
  free_page, release_pt, release_pd, release_pdpt, clear_page, unmap_page, on_ok,
}

is_table_free-zero :
    (n : ℕ) (table : ℕ → ℕ) (i : ℕ) → is_table_free n table ≡ true → i < n → table i ≡ 0
unfolding is_table_free
is_table_free-zero zero table i e lt = elim (below_zero lt) [ ]
is_table_free-zero (suc n) table i e lt = elim (Bool-cases (table n == 0)) [
  | inl z ↦ elim (Bool-cases (i == n)) [
    | inl same ↦ let i_eq : i ≡ n = ground (arith, same) in ap table i_eq ∙ ground (arith, z)
    | inr other ↦ is_table_free-zero n table i (ground (arith, e)) (ground (arith, other, lt))
  ]
  | inr z ↦ ground (arith, z, e)
]

Result-cases : (r : Result (Unit {0})) → (r ≡ ok tt) ⊎ ((e : Errno) × (r ≡ err e))
Result-cases (ok tt) = inl refl
Result-cases (err e) = inr (e, refl)

-- An entry whose table is empty can go.
module _ (s : Space) (v w : ℕ) where
  SameWalk-drop_pt :
      is_table_free 512 (s.pt (pml4_index v) (pdpt_index v) (pd_index v)) ≡ true
      → (bit_get (pd_entry s v) flag_ps == 1) ≡ false
      → SameWalk s (set_pd v 0 s) w
  unfolding entry_from_vaddr walk
  SameWalk-drop_pt e small = ground (
    arith,
    is_table_free-zero 512 (s.pt (pml4_index v) (pdpt_index v) (pd_index v)) (pt_index w) e
        (omega arith),
  )

  SameWalk-drop_pd :
      is_table_free 512 (s.pd (pml4_index v) (pdpt_index v)) ≡ true → SameWalk s (set_pdpt v 0 s) w
  unfolding entry_from_vaddr walk
  SameWalk-drop_pd e = ground (
    arith,
    is_table_free-zero 512 (s.pd (pml4_index v) (pdpt_index v)) (pd_index w) e (omega arith),
  )

  SameWalk-drop_pdpt :
      is_table_free 512 (s.pdpt (pml4_index v)) ≡ true → SameWalk s (set_pml4 v 0 s) w
  unfolding entry_from_vaddr walk
  SameWalk-drop_pdpt e =
      ground (arith, is_table_free-zero 512 (s.pdpt (pml4_index v)) (pdpt_index w) e (omega arith))

small_pd :
    (s : Space) (v : ℕ)
    → entry_from_vaddr s v ≡ some pt_slot
    → (bit_get (pd_entry s v) flag_ps == 1) ≡ false
unfolding entry_from_vaddr walk
small_pd s v found = ground (arith, found)

gone-set_pt :
    (s : Space) (v w : ℕ)
    → (bit_get (pd_entry s v) flag_ps == 1) ≡ false
    → page_of w ≡ page_of v
    → entry_from_vaddr (set_pt v 0 s) w ≡ none
unfolding entry_from_vaddr walk
gone-set_pt s v w small same = ground arith

module _ (p : Pages) where
  open p use {State, free}

  -- The page of the address is gone and the others are as before.
  pub record Cleared (v : ℕ) (s s' : Vmm State) : Type 0 where
    pub same : (w : ℕ) → page_of v ≢ page_of w → SameWalk s.space s'.space w
    pub gone : (w : ℕ) → page_of w ≡ page_of v → entry_from_vaddr s'.space w ≡ none

  SameWalk-release_pt :
      (v w : ℕ) (s : Vmm State)
      → (bit_get (pd_entry s.space v) flag_ps == 1) ≡ false
      → SameWalk s.space (release_pt p v s).space w
  unfolding release_pt
  SameWalk-release_pt v w s small =
      elim (Bool-cases
        (is_table_free 512 (s.space.pt (pml4_index v) (pdpt_index v) (pd_index v)))) [
          | inl e ↦ rw e (SameWalk-drop_pt s.space v w e small)
          | inr e ↦ rw e (SameWalk-refl s.space w)
        ]

  SameWalk-release_pd : (v w : ℕ) (s : Vmm State) → SameWalk s.space (release_pd p v s).space w
  unfolding release_pd
  SameWalk-release_pd v w s =
      elim (Bool-cases (is_table_free 512 (s.space.pd (pml4_index v) (pdpt_index v)))) [
        | inl e ↦ rw e (SameWalk-drop_pd s.space v w e)
        | inr e ↦ rw e (SameWalk-refl s.space w)
      ]

  SameWalk-release_pdpt : (v w : ℕ) (s : Vmm State) → SameWalk s.space (release_pdpt p v s).space w
  unfolding release_pdpt alert_tasks
  SameWalk-release_pdpt v w s =
      elim (Bool-cases (is_table_free 512 (s.space.pdpt (pml4_index v)))) [
        | inl e ↦ rw e (SameWalk-drop_pdpt s.space v w e)
        | inr e ↦ rw e (SameWalk-refl s.space w)
      ]

  pub clear_page-Cleared :
      (v : ℕ) (m : State) (s : Vmm State)
      → entry_from_vaddr s.space v ≡ some pt_slot
      → Cleared v s (clear_page p v m s)
  clear_page-Cleared v m s found =
      let small = small_pd s.space v found in
      let s1 = record s { memory = m; space = set_pt v 0 s.space } in
      let s2 = release_pt p v s1 in
      let s3 = release_pd p v s2 in
      let s4 = release_pdpt p v s3 in
      let after = λ (w : ℕ).
        SameWalk-trans s1.space s2.space s4.space w (SameWalk-release_pt v w s1 small) (
          SameWalk-trans s2.space s3.space s4.space w (SameWalk-release_pd v w s2)
            (SameWalk-release_pdpt v w s3)) in
      record {
        same = λ w ne.
            SameWalk-trans s.space s1.space s4.space w (SameWalk-set_pt s.space v 0 w ne) (after w);
        gone = λ w eq. (after w).slot ∙ gone-set_pt s.space v w small eq;
      }

  -- An error is one of the allocator, which is not asked where the attributes say to save the pages.
  unfoldable pub UnmapOutcome :
      (attr : ℕ) → (Vmm State → Type 0) → Option (Result (Unit {0}) × Vmm State) → Type 0
  UnmapOutcome attr Q none = ⊥
  UnmapOutcome attr Q (some (err e, s)) =
      (has_attr attr save ≡ false) × (a : ℕ) × (m : State) × ((free a 1 m).0 ≡ err e)
  UnmapOutcome attr Q (some (ok u, s)) = Q s

  pub UnmapOutcome-on_ok :
      (attr : ℕ) (Q R : Vmm State → Type 0) (o : Option (Result (Unit {0}) × Vmm State))
      (f : Vmm State → Option (Result (Unit {0}) × Vmm State))
      → UnmapOutcome attr Q o
      → ((s : Vmm State) → Q s → UnmapOutcome attr R (f s))
      → UnmapOutcome attr R (on_ok p o f)
  unfolding UnmapOutcome
  UnmapOutcome-on_ok attr Q R none f h k = elim h [ ]
  UnmapOutcome-on_ok attr Q R (some (err e, s)) f h k = h
  UnmapOutcome-on_ok attr Q R (some (ok u, s)) f h k = k s h

  pub UnmapOutcome-map :
      (attr : ℕ) (Q R : Vmm State → Type 0) (o : Option (Result (Unit {0}) × Vmm State))
      → ((s : Vmm State) → Q s → R s)
      → UnmapOutcome attr Q o
      → UnmapOutcome attr R o
  unfolding UnmapOutcome
  UnmapOutcome-map attr Q R none k h = elim h [ ]
  UnmapOutcome-map attr Q R (some (err e, s)) k h = h
  UnmapOutcome-map attr Q R (some (ok u, s)) k h = k s h

  pub free_page-cases :
      (attr entry : ℕ) (m : State)
      → ((free_page p attr entry m).0 ≡ ok tt)
        ⊎ ((e : Errno) × ((free_page p attr entry m).0 ≡ err e)
            × (has_attr attr save ≡ false)
            × ((free (entry_to_addr entry) 1 m).0 ≡ err e))
  unfolding free_page
  free_page-cases attr entry m = elim (Bool-cases (bit_get entry flag_pmm == 1)) [
    | inr e ↦ inl (rw e refl)
    | inl e ↦ elim (Bool-cases (has_attr attr save)) [
      | inl saved ↦ inl (rw (e, saved) refl)
      | inr freed ↦ elim (Result-cases (free (entry_to_addr entry) 1 m).0) [
        | inl h ↦ inl (rw (e, freed) h)
        | inr (c, h) ↦ inr (c, rw (e, freed) h, freed, h)
      ]
    ]
  ]

  pub unmap_page-Cleared :
      (attr v : ℕ) (s : Vmm State)
      → entry_from_vaddr s.space v ≡ some pt_slot
      → UnmapOutcome attr (Cleared v s) (unmap_page p attr v s)
  unfolding unmap_page UnmapOutcome
  unmap_page-Cleared attr v s found = elim (free_page-cases attr (pt_entry s.space v) s.memory) [
    | inl h ↦ rw (found, unmap_page) rw h (clear_page-Cleared v _ s found)
    | inr (e, h, freed, refused) ↦
        rw (found, unmap_page) rw h (freed, entry_to_addr (pt_entry s.space v), s.memory, refused)
  ]
