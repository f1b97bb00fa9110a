-- ===== src/Mm/Vmm/Ops.antt =====
-- The operations of kernel/mm/vmm.c that map and unmap pages, over the page allocator's interface.
use sdx.Prelude.{
  ℕ, zero, suc, Bool, true, not, Option, none, some, List, map, ◌+◌, ◌%◌, ◌&&◌, ◌==◌, if◌then◌else◌,
}
use sdx.Util.Math.{u64_mod}
use sdx.Util.Words.{word_or}
use sdx.Mm.Pages.{Pages}
use sdx.Mm.Vmm.Search.{find_contiguous, can_map}
use sdx.Mm.Vmm.{
  entry_to_flags, table_flags, page_flags, Space, pml4_entry, pdpt_entry, pd_entry, set_pml4,
  set_pdpt, set_pd, set_pt, clear_pdpt, clear_pd, clear_pt,
}

-- The fields `vmm` and `old` of a task in the queue.
pub record Owner : Type 0 where
  pub vmm : ℕ
  pub old : Bool

-- The current tables and their PML4's address, the page allocator, and the tasks.
pub record Vmm (M : Type 0) : Type 0 where
  pub space : Space
  pub root : ℕ
  pub memory : M
  pub tasks : List Owner

-- `__vmm_alert_tasks`
unfoldable pub alert_tasks : {M : Type 0} → Vmm M → Vmm M
alert_tasks s = record s {
  tasks = map {A = Owner} (λ t. if t.vmm == s.root then t else record t { old = true }) s.tasks;
}

-- `__vmm_is_table_free`, for the entries below `count`.
unfoldable pub is_table_free : (count : ℕ) → (ℕ → ℕ) → Bool
is_table_free zero table = true
is_table_free (suc count) table = table count == 0 && is_table_free count table

module _ (p : Pages) where
  open p use {State, alloc, free}

  -- A page for a table. Where pmm_alloc fails the source uses the page at 0; that is `none`.
  unfoldable pub table_page : State → Option (ℕ × State)
  table_page m = if (alloc 1 0 m).0 == 0 then none else some (alloc 1 0 m)

  -- The part of __vmm_map_to_paddr_internal that gets or creates the PDPT of an address.
  unfoldable pub ensure_pdpt : (flags vaddr : ℕ) → Vmm State → Option (Vmm State)
  ensure_pdpt flags v s =
      let entry = pml4_entry s.space v in
      let shared = record s { space = set_pml4 v (word_or 64 entry flags) s.space } in
      if entry == 0
      then elim (table_page s.memory) [
        | none ↦ none
        | some (page, m) ↦ some (
            alert_tasks (record s {
              memory = m;
              space = clear_pdpt v (set_pml4 v (word_or 64 page flags) s.space);
            }))
      ]
      else some (if entry_to_flags entry == flags then shared else alert_tasks shared)

  -- The same for the PD and the PT; other tasks share these tables.
  unfoldable pub ensure_pd : (flags vaddr : ℕ) → Vmm State → Option (Vmm State)
  ensure_pd flags v s =
      let entry = pdpt_entry s.space v in
      if entry == 0
      then elim (table_page s.memory) [
        | none ↦ none
        | some (page, m) ↦ some (record s {
          memory = m;
          space = clear_pd v (set_pdpt v (word_or 64 page flags) s.space);
        })
      ]
      else some (record s { space = set_pdpt v (word_or 64 entry flags) s.space })

  unfoldable pub ensure_pt : (flags vaddr : ℕ) → Vmm State → Option (Vmm State)
  ensure_pt flags v s =
      let entry = pd_entry s.space v in
      if entry == 0
      then elim (table_page s.memory) [
        | none ↦ none
        | some (page, m) ↦
            some (record s {
              memory = m;
              space = clear_pt v (set_pd v (word_or 64 page flags) s.space);
            })
      ]
      else some (record s { space = set_pd v (word_or 64 entry flags) s.space })

  abbrev pub chain : Option (Vmm State) → (Vmm State → Option (Vmm State)) → Option (Vmm State)
  chain none f = none
  chain (some s) f = f s

  -- The write of the page's entry; `invlpg` changes no table.
  unfoldable pub write_page : (attr paddr vaddr : ℕ) → Vmm State → Vmm State
  write_page attr paddr v s = record s {
    space = set_pt v (word_or 64 paddr (page_flags attr)) s.space;
  }

  -- The body of the loop of __vmm_map_to_paddr_internal.
  unfoldable pub map_page : (attr paddr vaddr : ℕ) → Vmm State → Option (Vmm State)
  map_page attr paddr v s = chain (ensure_pdpt (table_flags attr) v s) (λ s1.
      chain (ensure_pd (table_flags attr) v s1)
        (λ s2. chain (ensure_pt (table_flags attr) v s2) (λ s3. some (write_page attr paddr v s3))))

  unfoldable pub map_pages : (attr num paddr vaddr : ℕ) → Vmm State → Option (Vmm State)
  map_pages attr zero paddr v s = some s
  map_pages attr (suc num) paddr v s =
      chain (map_page attr paddr v s)
        (map_pages attr num ((paddr + 4096) % u64_mod) ((v + 4096) % u64_mod))

  -- `__vmm_map_to_vaddr_internal`: the address, 0 for NULL.
  unfoldable pub map_to_vaddr : (vaddr num align attr : ℕ) → Vmm State → Option (ℕ × Vmm State)
  map_to_vaddr vaddr num align attr s =
      let (paddr, m) = alloc num align s.memory in
      if paddr == 0
      then some (0, record s { memory = m })
      else elim (map_pages attr num paddr vaddr (record s { memory = m })) [
        | none ↦ none
        | some s' ↦ some (vaddr, s')
      ]

  unfoldable pub vmm_map : (fuel num align attr : ℕ) → Vmm State → Option (ℕ × Vmm State)
  vmm_map fuel num align attr s = elim (find_contiguous s.space fuel num align attr) [
    | none ↦ none
    | some vaddr ↦ if vaddr == 0 then some (0, s) else map_to_vaddr vaddr num align attr s
  ]

  unfoldable pub vmm_map_paddr : (fuel paddr num attr : ℕ) → Vmm State → Option (ℕ × Vmm State)
  vmm_map_paddr fuel paddr num attr s = elim (find_contiguous s.space fuel num 0 attr) [
    | none ↦ none
    | some vaddr ↦
        if vaddr == 0
        then some (0, s)
        else if not (paddr % 4096 == 0)
        then some (0, s)
        else elim (map_pages attr num paddr vaddr s) [ none ↦ none | some s' ↦ some (vaddr, s') ]
  ]

  unfoldable pub vmm_map_vaddr :
      (kernel_end vaddr num align attr : ℕ) → Vmm State → Option (ℕ × Vmm State)
  vmm_map_vaddr kernel_end vaddr num align attr s =
      if can_map kernel_end attr num vaddr s.space
      then map_to_vaddr vaddr num align attr s
      else some (0, s)
