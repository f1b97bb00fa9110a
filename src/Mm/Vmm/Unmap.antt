-- ===== src/Mm/Vmm/Unmap.antt =====
-- vmm_unmap of kernel/mm/vmm.c.
use sdx.Prelude.{ℕ, zero, suc, not, Option, none, some, ◌+◌, ◌%◌, ◌&&◌, ◌==◌, if◌then◌else◌}
use sdx.Errno.{Errno, Result, ok, err}
use sdx.Util.Math.{u64_mod}
use sdx.Util.Bits.{bit_get}
use sdx.Mm.Pages.{Pages}
use sdx.Mm.Vmm.{
  entry_to_addr, has_attr, flag_pmm, save, pd_slot, pt_slot, pml4_index, pdpt_index, pd_index,
  pml4_entry, pdpt_entry, pd_entry, read_slot, entry_from_vaddr, set_pml4, set_pdpt, set_pd, set_pt,
}
use sdx.Mm.Vmm.Ops.{Vmm, alert_tasks, is_table_free}

module _ (p : Pages) where
  open p use {State, free}

  -- The physical page goes back where the entry says that the manager allocated it.
  unfoldable pub free_page : (attr entry : ℕ) → State → Result (Unit {0}) × State
  free_page attr entry m =
      if bit_get entry flag_pmm == 1 && not (has_attr attr save)
      then free (entry_to_addr entry) 1 m
      else (ok tt, m)

  -- Tables that have no entry left; an error of pmm_free is only logged.
  unfoldable pub release_pt : ℕ → Vmm State → Vmm State
  release_pt v s =
      if is_table_free 512 (s.space.pt (pml4_index v) (pdpt_index v) (pd_index v))
      then record s {
        memory = (free (entry_to_addr (pd_entry s.space v)) 1 s.memory).1;
        space = set_pd v 0 s.space;
      }
      else s

  unfoldable pub release_pd : ℕ → Vmm State → Vmm State
  release_pd v s =
      if is_table_free 512 (s.space.pd (pml4_index v) (pdpt_index v))
      then record s {
        memory = (free (entry_to_addr (pdpt_entry s.space v)) 1 s.memory).1;
        space = set_pdpt v 0 s.space;
      }
      else s

  unfoldable pub release_pdpt : ℕ → Vmm State → Vmm State
  release_pdpt v s =
      if is_table_free 512 (s.space.pdpt (pml4_index v))
      then alert_tasks (record s {
        memory = (free (entry_to_addr (pml4_entry s.space v)) 1 s.memory).1;
        space = set_pml4 v 0 s.space;
      })
      else s

  abbrev pub clear_page : ℕ → State → Vmm State → Vmm State
  clear_page v m s =
      release_pdpt v
        (release_pd v (release_pt v (record s { memory = m; space = set_pt v 0 s.space })))

  -- The body of the loop of vmm_unmap: `none` for the page fault at a page of 2 MiB, whose cleared entry
  -- leads to no PT that `__vmm_is_table_free` could read.
  unfoldable pub unmap_page : (attr vaddr : ℕ) → Vmm State → Option (Result (Unit {0}) × Vmm State)
  unmap_page attr v s = elim (entry_from_vaddr s.space v) [
    | none ↦ some (err Errno.efault, s)
    | some slot ↦
        let (freed, m) = free_page attr (read_slot s.space v slot) s.memory in
        elim freed [
          | err e ↦ some (err e, record s { memory = m })
          | ok u ↦ elim slot [ pd_slot ↦ none | pt_slot ↦ some (ok tt, clear_page v m s) ]
        ]
  ]

  abbrev pub on_ok :
      Option (Result (Unit {0}) × Vmm State)
      → (Vmm State → Option (Result (Unit {0}) × Vmm State))
      → Option (Result (Unit {0}) × Vmm State)
  on_ok none f = none
  on_ok (some (err e, s)) f = some (err e, s)
  on_ok (some (ok u, s)) f = f s

  unfoldable pub vmm_unmap :
      (vaddr num attr : ℕ) → Vmm State → Option (Result (Unit {0}) × Vmm State)
  vmm_unmap v zero attr s = some (ok tt, s)
  vmm_unmap v (suc num) attr s =
      on_ok (unmap_page attr v s) (vmm_unmap ((v + 4096) % u64_mod) num attr)
