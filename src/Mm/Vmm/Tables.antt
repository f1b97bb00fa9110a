-- ===== src/Mm/Vmm/Tables.antt =====
-- The steps of __vmm_map_to_paddr_internal (kernel/mm/vmm.c) that get or create the tables of an address.
use sdx.Prelude.{
  ℕ, refl, inl, inr, false, Option, none, some, arith, Bool-cases, ◌≡◌, ◌≢◌, ◌⊎◌, ◌==◌,
}
use sdx.Mm.Pages.{Pages}
use sdx.Util.Bits.{bit_get}
use sdx.Util.Words.{word_or}
use sdx.Mm.Vmm.{
  entry_to_flags, pd_slot, Space, flag_ps, pml4_entry, pdpt_entry, pd_entry, entry_from_vaddr, walk,
}
use sdx.Mm.Vmm.Flags.{IsPageFlags, word_or-flags}
use sdx.Mm.Vmm.Walk.{
  SameWalk, SameWalk-trans, SameWalk-set_pml4, SameWalk-new_pdpt, SameWalk-set_pdpt,
  SameWalk-new_pd, SameWalk-set_pd, SameWalk-new_pt, Tabled,
}
use sdx.Mm.Vmm.Ops.{Vmm, table_page, ensure_pdpt, ensure_pd, ensure_pt, chain, alert_tasks}

not_large :
    (s : Space) (v : ℕ)
    → (pml4_entry s v == 0) ≡ false
    → (pdpt_entry s v == 0) ≡ false
    → (pd_entry s v == 0) ≡ false
    → entry_from_vaddr s v ≢ some pd_slot
    → (bit_get (pd_entry s v) flag_ps == 1) ≡ false
unfolding entry_from_vaddr walk
not_large s v a b c large = elim (Bool-cases (bit_get (pd_entry s v) flag_ps == 1)) [
  | inl e ↦ elim (large (rw (a, b, c, e) refl)) [ ]
  | inr e ↦ e
]

module _ (p : Pages) where
  open p use {State, IsSound, alloc, alloc-IsSound, alloc_aligned, alloc_bound}

  -- A result has the property; there is none only where the allocator has no page for a table.
  unfoldable pub Outcome : (Vmm State → Type 0) → Option (Vmm State) → Type 0
  Outcome Q none = (m : State) × IsSound m × ((alloc 1 0 m).0 ≡ 0)
  Outcome Q (some s) = Q s

  pub Outcome-chain :
      (Q R : Vmm State → Type 0) (o : Option (Vmm State)) (f : Vmm State → Option (Vmm State))
      → Outcome Q o
      → ((s : Vmm State) → Q s → Outcome R (f s))
      → Outcome R (chain p o f)
  unfolding Outcome
  Outcome-chain Q R none f h k = h
  Outcome-chain Q R (some s) f h k = k s h

  pub Outcome-map :
      (Q R : Vmm State → Type 0) (o : Option (Vmm State))
      → ((s : Vmm State) → Q s → R s)
      → Outcome Q o
      → Outcome R o
  unfolding Outcome
  Outcome-map Q R none k h = h
  Outcome-map Q R (some s) k h = k s h

  -- What a step keeps that adds tables.
  pub record Step (s s' : Vmm State) : Type 0 where
    pub sound : IsSound s'.memory
    pub same : (w : ℕ) → SameWalk s.space s'.space w

  pub Step-trans : (s s' s'' : Vmm State) → Step s s' → Step s' s'' → Step s s''
  Step-trans s s' s'' a b = record {
    sound = b.sound;
    same = λ w. SameWalk-trans s.space s'.space s''.space w (a.same w) (b.same w);
  }

  -- The page of a table.
  table_page-cases :
      (m : State)
      → IsSound m
      → ((table_page p m ≡ none) × ((alloc 1 0 m).0 ≡ 0))
        ⊎ ((table_page p m ≡ some (alloc 1 0 m))
            × ((bit_get (alloc 1 0 m).0 flag_ps == 1) ≡ false)
            × IsSound (alloc 1 0 m).1)
  unfolding table_page bit_get
  table_page-cases m sound = elim (Bool-cases ((alloc 1 0 m).0 == 0)) [
    | inl e ↦ inl (rw e refl, ground (arith, e))
    | inr e ↦ inr (
      rw e refl,
      ground (arith, alloc_aligned 1 0 m (omega arith) sound),
      alloc-IsSound 1 0 m (omega arith) sound,
    )
  ]

  module _ (flags v : ℕ) (fl : IsPageFlags flags) where
    -- The PDPT, the PD and the PT of the address are there after their steps.
    pub ensure_pdpt-Step :
        (s : Vmm State)
        → IsSound s.memory
        → Outcome
            (λ s'. Step s s' × ((pml4_entry s'.space v == 0) ≡ false))
            (ensure_pdpt p flags v s)
    unfolding ensure_pdpt alert_tasks Outcome
    ensure_pdpt-Step s sound = elim (Bool-cases (pml4_entry s.space v == 0)) [
      | inl e ↦ elim (table_page-cases s.memory sound) [
        | inl (h, z) ↦ rw (e, h) (s.memory, sound, z)
        | inr (h, small, sound') ↦
            let w = word_or-flags (alloc 1 0 s.memory).0 flags fl in
            rw (e, h)
              (
                record { sound = sound'; same = λ a. SameWalk-new_pdpt s.space v _ a w.0 e },
                ground (arith, w.0),
              )
      ]
      | inr e ↦
          let w = word_or-flags (pml4_entry s.space v) flags fl in
          elim (Bool-cases (entry_to_flags (pml4_entry s.space v) == flags)) [
            | inl c ↦
                rw (e, c)
                  (
                    record { sound = sound; same = λ a. SameWalk-set_pml4 s.space v _ a w.0 e },
                    ground (arith, w.0),
                  )
            | inr c ↦
                rw (e, c)
                  (
                    record { sound = sound; same = λ a. SameWalk-set_pml4 s.space v _ a w.0 e },
                    ground (arith, w.0),
                  )
          ]
    ]

    pub ensure_pd-Step :
        (s : Vmm State)
        → IsSound s.memory
        → (pml4_entry s.space v == 0) ≡ false
        → Outcome
            (λ s'.
              Step s s'
              × ((pml4_entry s'.space v == 0) ≡ false)
              × ((pdpt_entry s'.space v == 0) ≡ false))
            (ensure_pd p flags v s)
    unfolding ensure_pd Outcome
    ensure_pd-Step s sound in_pml4 = elim (Bool-cases (pdpt_entry s.space v == 0)) [
      | inl e ↦ elim (table_page-cases s.memory sound) [
        | inl (h, z) ↦ rw (e, h) (s.memory, sound, z)
        | inr (h, small, sound') ↦
            let w = word_or-flags (alloc 1 0 s.memory).0 flags fl in
            rw (e, h)
              (
                record { sound = sound'; same = λ a. SameWalk-new_pd s.space v _ a w.0 e },
                in_pml4,
                ground (arith, w.0),
              )
      ]
      | inr e ↦
          let w = word_or-flags (pdpt_entry s.space v) flags fl in
          rw e (
            record { sound = sound; same = λ a. SameWalk-set_pdpt s.space v _ a w.0 e },
            in_pml4,
            ground (arith, w.0),
          )
    ]

    pub ensure_pt-Step :
        (s : Vmm State)
        → IsSound s.memory
        → (pml4_entry s.space v == 0) ≡ false
        → (pdpt_entry s.space v == 0) ≡ false
        → entry_from_vaddr s.space v ≢ some pd_slot
        → Outcome (λ s'. Step s s' × Tabled s'.space v) (ensure_pt p flags v s)
    unfolding ensure_pt Outcome
    ensure_pt-Step s sound in_pml4 in_pdpt small = elim (Bool-cases (pd_entry s.space v == 0)) [
      | inl e ↦ elim (table_page-cases s.memory sound) [
        | inl (h, z) ↦ rw (e, h) (s.memory, sound, z)
        | inr (h, even, sound') ↦
            let w = word_or-flags (alloc 1 0 s.memory).0 flags fl in
            let ps : (bit_get (word_or 64 (alloc 1 0 s.memory).0 flags) flag_ps == 1) ≡ false =
              rw w.1 even in
            rw (e, h)
              (
                record { sound = sound'; same = λ a. SameWalk-new_pt s.space v _ a w.0 e ps },
                record {
                  in_pml4 = in_pml4;
                  in_pdpt = in_pdpt;
                  in_pd = ground (arith, w.0);
                  small = ground (arith, ps);
                },
              )
      ]
      | inr e ↦
          let w = word_or-flags (pd_entry s.space v) flags fl in
          let even : (bit_get (pd_entry s.space v) flag_ps == 1) ≡ false =
            not_large s.space v in_pml4 in_pdpt e small in
          let ps : (bit_get (word_or 64 (pd_entry s.space v) flags) flag_ps == 1) ≡ false =
            rw w.1 even in
          rw e (
            record { sound = sound; same = λ a. SameWalk-set_pd s.space v _ a w.0 e even ps },
            record {
              in_pml4 = in_pml4;
              in_pdpt = in_pdpt;
              in_pd = ground (arith, w.0);
              small = ground (arith, ps);
            },
          )
    ]
