-- ===== src/Mm/Pmm/Ops.antt =====
-- The loops and the entry points of kernel/mm/pmm.c: pmm_alloc, pmm_free, pmm_is_allocated, and the
-- allocation before the bitmap is there.
use sdx.Prelude.{
  ℕ, zero, suc, Bool, false, not, Option, none, some, leb, ◌+◌, ◌-◌, ◌*◌, ◌/◌, ◌%◌, ◌&&◌, ◌||◌,
  ◌==◌, if◌then◌else◌,
}
use sdx.Errno.{Errno, Result, ok, err}
use sdx.Util.Math.{u64_mod}
use sdx.Mm.Pmm.{
  page_size, entry_bits, Pos, Machine, Pmm, max_index, is_ready, pos_to_addr, pos_get, pos_set,
  pos_clear, pos_from_addr, pos_next, is_free_memory, divisor, bad_align,
}

-- `pmm_bm_pos_t` after `__pmm_bm_pos_reset`.
abbrev pub pos_zero : Pos
pos_zero = record { bit = 0; index = 0 }

-- The loop of pmm_alloc over the bitmap: `(cur, start)` when it stops, `none` where the fuel runs out.
-- `val` is what reading the position `p` gave.
unfoldable pub scan :
    Machine → Pmm → (num align fuel : ℕ) → Result ℕ → Pos → (cur start : ℕ) → Option (ℕ × ℕ)
scan m s num align zero val p cur start = none
scan m s num align (suc fuel) val p cur start =
    if leb num cur then some (cur, start) else elim val [
      | err e ↦ some (cur, start)
      | ok v ↦
          let addr = pos_to_addr s p in
          let start' = if cur == 0 then addr else start in
          let skip = cur == 0 && not (start' % divisor align == 0) in
          let cur' =
            if skip
            then cur
            else if not (v == 0) || not (is_free_memory m addr)
            then 0
            else cur + 1 in
          let (val', p') = pos_next s p in scan m s num align fuel val' p' cur' start'
    ]

-- The loop that marks the pages of an allocation.
unfoldable pub mark : ℕ → Pmm → Pos → Pmm
mark zero s p = s
mark (suc num) s p = mark num (pos_set s p) (pos_next (pos_set s p) p).1

-- The loop of __pmm_alloc_no_bm: `(place, start, cur)` when it stops.
unfoldable pub scan_no_bm : Machine → (end num align fuel place start cur : ℕ) → Option (ℕ × ℕ × ℕ)
scan_no_bm m end num align zero place start cur = none
scan_no_bm m end num align (suc fuel) place start cur =
    let start' = if cur == 0 then place else start in
    let skip = cur == 0 && not (start' % divisor align == 0) in
    let cur' = if skip then cur else if is_free_memory m place then cur + 1 else 0 in
    let rest = scan_no_bm m end num align fuel ((place + page_size) % u64_mod) start' cur' in
    if leb num cur
    then some (place, start, cur)
    else if leb end place
    then some (place, start, cur)
    else rest

-- A position below the end of the region is passed once.
abbrev pub no_bm_fuel : Pmm → ℕ
no_bm_fuel s = (s.end - s.pos) / page_size + 2

unfoldable pub alloc_no_bm : Machine → Pmm → (num align : ℕ) → Option (ℕ × Pmm)
unfolding scan_no_bm
alloc_no_bm m s num align = elim (scan_no_bm m s.end num align (no_bm_fuel s) s.pos 0 0) [
  | none ↦ none
  | some (place, start, cur) ↦
      if cur == num then some (start, record s { pos = place }) else some (0, s)
]

-- Every position of the bitmap is read once.
abbrev pub scan_fuel : Pmm → ℕ
scan_fuel s = max_index s * entry_bits + 2

-- The address, 0 for a failure, with the new state; `none` only where the fuel runs out.
unfoldable pub alloc : Machine → Pmm → (num align : ℕ) → Option (ℕ × Pmm)
alloc m s num align =
    if bad_align align
    then some (0, s)
    else if not (is_ready s)
    then alloc_no_bm m s num align
    else elim (scan m s num align (scan_fuel s) (ok (pos_get s pos_zero)) pos_zero 0 0) [
      | none ↦ none
      | some (cur, start) ↦
          if cur == num then some (start, mark num s (pos_from_addr s start).1) else some (0, s)
    ]

unfoldable pub is_allocated : Pmm → ℕ → Bool
is_allocated s paddr =
    let (found, p) = pos_from_addr s paddr in if found then not (pos_get s p == 0) else false

-- The loop of pmm_free; what it cleared before an error stays cleared.
unfoldable pub unmark : ℕ → Pmm → Result ℕ → Pos → Result (Unit {0}) × Pmm
unmark zero s val p = (ok tt, s)
unmark (suc num) s (err e) p = (err Errno.erange, s)
unmark (suc num) s (ok v) p =
    let s' = pos_clear s p in
    let (val', p') = pos_next s' p in
    let rest = unmark num s' val' p' in if v == 0 then (err Errno.efault, s) else rest

unfoldable pub free : Pmm → (paddr num : ℕ) → Result (Unit {0}) × Pmm
unfolding unmark
free s paddr num =
    let (found, p) = pos_from_addr s paddr in
    if found then unmark num s (ok (pos_get s p)) p else (err Errno.efault, s)
