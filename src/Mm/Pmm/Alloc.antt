-- ===== src/Mm/Pmm/Alloc.antt =====
-- What pmm_alloc and pmm_free promise.
use mathlib.Core.Option.{some-injective}
use mathlib.Core.Path.{subst}
use sdx.Prelude.{
  ℕ, refl, sym, ap, inl, inr, true, false, Option, some, arith, leb, eq_refl, Bool-cases, ◌+◌, ◌-◌,
  ◌%◌, ◌≤◌, ◌<◌, ◌≡◌, ◌≢◌, ◌⊎◌, ◌∙◌, ◌==◌, if◌then◌else◌,
}
use sdx.Errno.{Errno, Result, ok, err}
use sdx.Mm.Pmm.{Machine, Pmm, max_index, is_ready, pos_get, pos_from_addr, divisor, bad_align}
use sdx.Mm.Pmm.Bitmap.{page, size, used, InRange, pos_from_addr-page}
use sdx.Mm.Pmm.Ops.{pos_zero, scan, scan_fuel, mark, alloc, free}
use sdx.Mm.Pmm.Scan.{
  page_addr, FreeRun, reading, Scanning, begin-Scanning, scan-Scanned, Fits, scan-Fits,
}
use sdx.Mm.Pmm.Mark.{Writes, mark-Writes, UsedRun, Unmarked, unmark-Writes, unmark_free_page}

-- `s'` is `s` with a run of free, aligned pages allocated, and `addr` is the address of the run.
pub record Allocated (m : Machine) (s : Pmm) (num align addr : ℕ) (s' : Pmm) : Type 0 where
  pub first : ℕ
  pub is_first : addr ≡ page_addr s first
  pub inside : first + num ≤ size s
  pub aligned : addr % divisor align ≡ 0
  pub was_free : FreeRun m s first num
  pub writes : Writes 1 first num s s'

-- The page allocator is used with a bitmap, whose addresses do not wrap.
pub record IsReady (s : Pmm) : Type 0 where
  pub has_bitmap : 0 < max_index s
  pub range : InRange s

ready_test : (s : Pmm) → 0 < max_index s → is_ready s ≡ true
unfolding is_ready
ready_test s h = ground arith

-- Freeing a run of the bitmap's allocated pages clears exactly these.
free-Unmarked :
    (s : Pmm) (first num : ℕ)
    → IsReady s
    → 0 < num
    → first + num ≤ size s
    → UsedRun s first num
    → Unmarked first num s (free s (page_addr s first) num)
unfolding free
free-Unmarked s first num r p inside run =
    let valid : leb (size s) first ≡ false = ground arith in
    let read : reading s first ≡ ok (pos_get s (page first)) = rw valid refl in
    rw (pos_from_addr-page s first r.range (omega arith))
      (rw read at (unmark-Writes num first s inside run))

-- Failure without a change, or an allocation.
abbrev pub Outcome : Machine → Pmm → (num align : ℕ) → Option (ℕ × Pmm) → Type 0
Outcome m s num align result =
    (addr : ℕ) × (s' : Pmm) × (result ≡ some (addr, s'))
    × (((addr ≡ 0) × (s' ≡ s)) ⊎ Allocated m s num align addr s')

-- A double free: with a bitmap, and the run of pages inside it, pmm_free reports -EFAULT if a page of
-- the run is not allocated.
pub free_double :
    (s : Pmm) (first num i : ℕ)
    → IsReady s
    → first + num ≤ size s
    → first ≤ i
    → i < first + num
    → used s i ≡ 0
    → (free s (page_addr s first) num).0 ≡ err Errno.efault
unfolding free
free_double s first num i r inside p q e =
    let valid : leb (size s) first ≡ false = ground arith in
    let read : reading s first ≡ ok (pos_get s (page first)) = rw valid refl in
    rw (pos_from_addr-page s first r.range (omega arith))
      (rw read at (unmark_free_page num first i s inside p q e))

module _ (m : Machine) (s : Pmm) (num align : ℕ) (positive : 0 < num) (r : IsReady s) where
  first_reading : reading s 0 ≡ ok (pos_get s pos_zero)
  first_reading = let e : leb (size s) 0 ≡ false = ground (arith, r.has_bitmap) in rw e refl

  alloc-scan :
      (cur start : ℕ)
      → bad_align align ≡ false
      → scan m s num align (scan_fuel s) (reading s 0) (page 0) 0 0 ≡ some (cur, start)
      → alloc m s num align
        ≡ (if cur == num then some (start, mark num s (pos_from_addr s start).1) else some (0, s))
  unfolding alloc
  alloc-scan cur start good e = rw (good, ready_test s r.has_bitmap, ← first_reading, e) refl

  take_run :
      (n cur start : ℕ)
      → Scanning m s num align n cur start
      → cur ≡ num
      → Allocated m s num align start (mark num s (pos_from_addr s start).1)
  take_run n cur start v full = elim v.begins [
    | inl none_found ↦ absurd (omega arith)
    | inr (here, aligned) ↦
        let inside : n - cur + num ≤ size s = omega (arith, v.inside, v.behind) in
        record {
          first = n - cur;
          is_first = here;
          inside = inside;
          aligned = aligned;
          was_free = rw (← full) v.run;
          writes =
              rw (here, pos_from_addr-page s (n - cur) r.range (omega arith))
                (mark-Writes num (n - cur) s inside);
        }
  ]

  bad_align-fails : bad_align align ≡ true → alloc m s num align ≡ some (0, s)
  unfolding alloc
  bad_align-fails bad = rw bad refl

  -- With a bitmap, pmm_alloc ends for every request of at least one page. It fails and changes
  -- nothing, or it returns the address of an aligned run of pages that were neither allocated nor
  -- reserved, marks exactly these and keeps the region.
  pub alloc-Outcome : Outcome m s num align (alloc m s num align)
  alloc-Outcome = elim (Bool-cases (bad_align align)) [
    | inl bad ↦ (0, s, bad_align-fails bad, inl (refl, refl))
    | inr good ↦
        let found =
          scan-Scanned m s num align (scan_fuel s) 0 0 0 r.range (omega arith)
            (begin-Scanning m s num align 0) in
        elim (Bool-cases (found.cur == num)) [
          | inl full ↦ (
            found.start,
            mark num s (pos_from_addr s found.start).1,
            alloc-scan found.cur found.start good found.ends ∙ (rw full),
            inr (take_run found.at_page found.cur found.start found.state (ground arith)),
          )
          | inr part ↦
              (0, s, alloc-scan found.cur found.start good found.ends ∙ (rw part), inl (refl, refl))
        ]
  ]

  -- With a bitmap, for at least one page and an alignment that it accepts, pmm_alloc does not fail
  -- while some aligned run of free pages is long enough.
  pub alloc-Fits :
      (t : ℕ)
      → bad_align align ≡ false
      → Fits m s num align t
      → (addr : ℕ) × (s' : Pmm) × (alloc m s num align ≡ some (addr, s'))
        × Allocated m s num align addr s'
  alloc-Fits t good fits =
      let found =
        scan-Scanned m s num align (scan_fuel s) 0 0 0 r.range (omega arith)
          (begin-Scanning m s num align 0) in
      let (start, e) =
        scan-Fits m s num align t (scan_fuel s) 0 0 0 fits r.range (omega arith) (omega arith)
          (omega arith) (omega arith) (omega arith) in
      let same : some (found.cur, found.start) ≡ some (num, start) = sym found.ends ∙ e in
      let full : found.cur ≡ num = ap (λ (p : ℕ × ℕ). p.0) (some-injective _ _ same) in
      (
        found.start,
        mark num s (pos_from_addr s found.start).1,
        alloc-scan found.cur found.start good found.ends ∙ rw (full, eq_refl),
        take_run found.at_page found.cur found.start found.state full,
      )

  alloc-Allocated :
      (addr : ℕ) (s' : Pmm)
      → alloc m s num align ≡ some (addr, s')
      → addr ≢ 0
      → Allocated m s num align addr s'
  alloc-Allocated addr s' e ne = go alloc-Outcome
    where
      go : Outcome m s num align (alloc m s num align) → Allocated m s num align addr s'
      go (a, t, e', inl (failed, same)) =
          absurd (ne (ap (λ (p : ℕ × Pmm). p.0) (some-injective _ _ (sym e ∙ e')) ∙ failed))
      go (a, t, e', inr done) =
          subst (λ (p : ℕ × Pmm). Allocated m s num align p.0 p.1) (some-injective _ _ (sym e' ∙ e))
            done

  abbrev Restored : Result (Unit {0}) × Pmm → Type 0
  Restored result =
      (result.0 ≡ ok tt)
      × ((k : ℕ) → used result.1 k ≡ used s k)
      × (result.1.start ≡ s.start)
      × (max_index result.1 ≡ max_index s)

  free-Allocated :
      (addr : ℕ) (s' : Pmm) → Allocated m s num align addr s' → Restored (free s' addr num)
  free-Allocated addr s' a =
      let w = a.writes in
      let ready : IsReady s' = record {
        has_bitmap = omega (arith, w.same_size, r.has_bitmap);
        range = omega (arith, w.same_size, w.same_start, r.range);
      } in
      let run : UsedRun s' a.first num = λ i p q. ground (arith, w.pages i) in
      let here : addr ≡ page_addr s' a.first = omega (arith, a.is_first, w.same_start) in
      let (done, back) =
        free-Unmarked s' a.first num ready positive (omega (arith, a.inside, w.same_size)) run in
      rw here (
        done,
        λ k. ground (arith, back.pages k, w.pages k, a.was_free k),
        back.same_start ∙ w.same_start,
        back.same_size ∙ w.same_size,
      )

  -- With a bitmap, what pmm_alloc handed out pmm_free takes back: it reports success, and every page
  -- is again allocated or free as it was before.
  pub free-alloc :
      (addr : ℕ) (s' : Pmm)
      → alloc m s num align ≡ some (addr, s')
      → addr ≢ 0
      → ((free s' addr num).0 ≡ ok tt)
        × ((k : ℕ) → used (free s' addr num).1 k ≡ used s k)
        × ((free s' addr num).1.start ≡ s.start)
        × (max_index (free s' addr num).1 ≡ max_index s)
  free-alloc addr s' e ne = free-Allocated addr s' (alloc-Allocated addr s' e ne)
