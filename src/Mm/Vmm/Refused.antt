-- ===== src/Mm/Vmm/Refused.antt =====
-- The loop of vmm_unmap (kernel/mm/vmm.c), with the page where it stops on an error.
use sdx.Prelude.{ℕ, false, Option, none, some, ◌+◌, ◌*◌, ◌%◌, ◌^◌, ◌≤◌, ◌<◌, ◌≡◌}
use sdx.Errno.{Errno, Result, ok, err}
use sdx.Mm.Pages.{Pages}
use sdx.Mm.Vmm.{pt_entry, entry_to_addr, has_attr, save, entry_from_vaddr}
use sdx.Mm.Vmm.Walk.{SameWalk}
use sdx.Mm.Vmm.Range.{page_offset}
use sdx.Mm.Vmm.Ops.{Vmm}
use sdx.Mm.Vmm.Unmap.{vmm_unmap}
use sdx.Mm.Vmm.Undo.{Unmapped}
use sdx.Mm.Vmm.Ordinary.{IsOrdinary}

module _ (p : Pages) where
  open p use {State, free}

  -- The unmapping of a range stopped at one of its pages: those in front of it are unmapped, and
  -- pmm_free refused the page that its entry leads to. Pages are to be freed.
  pub record StoppedAt (v num attr : ℕ) (s : Vmm State) (e : Errno) : Type 0 where
    pub freed : has_attr attr save ≡ false
    pub k : ℕ
    pub within : k < num
    pub before : Vmm State
    pub unmapped : vmm_unmap p v k attr s ≡ some (ok tt, before)
    pub refused :
        (free (entry_to_addr (pt_entry before.space ((v + k * 4096) % 2 ^ 64))) 1 before.memory).0
        ≡ err e

  -- What vmm_unmap returns: no fault, an error at a page of the range, or no entry for the pages of the
  -- range and the same ones for the others outside of the recursive slot.
  abbrev pub Unmapping :
      (v num attr : ℕ) → Vmm State → Option (Result (Unit {0}) × Vmm State) → Type 0
  Unmapping v num attr s none = ⊥
  Unmapping v num attr s (some (err e, s')) = StoppedAt v num attr s e
  Unmapping v num attr s (some (ok u, s')) =
      ((w : ℕ) → page_offset v w < num → entry_from_vaddr s'.space w ≡ none)
      × ((w : ℕ) → num ≤ page_offset v w → IsOrdinary w → SameWalk s.space s'.space w)

  -- The same for all addresses, as the model's tables have it.
  abbrev Everywhere : (v num attr : ℕ) → Vmm State → Option (Result (Unit {0}) × Vmm State) → Type 0
  Everywhere v num attr s none = ⊥
  Everywhere v num attr s (some (err e, s')) = StoppedAt v num attr s e
  Everywhere v num attr s (some (ok u, s')) = Unmapped p v num s s'
