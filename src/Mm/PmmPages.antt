-- ===== src/Mm/PmmPages.antt =====
-- The page allocator of kernel/mm/pmm.c as kernel/mm/vmm.c uses it: once it has a bitmap, it meets the
-- interface.
use sdx.Prelude.{ℕ, refl, inl, inr, none, some, arith, ◌+◌, ◌*◌, ◌%◌, ◌^◌, ◌≤◌, ◌<◌, ◌≡◌, ◌≢◌}
use sdx.Mm.Pages.{Pages}
use sdx.Mm.Pmm.{Machine, Pmm}
use sdx.Mm.Pmm.Bitmap.{size}
use sdx.Mm.Pmm.Ops.{alloc, free}
use sdx.Mm.Pmm.Alloc.{IsReady, Allocated, alloc-Outcome}

-- Pages at page addresses of the lower half.
pub record IsLow (s : Pmm) : Type 0 where
  pub ready : IsReady s
  pub page : s.start % 4096 ≡ 0
  pub low : s.start + size s * 4096 ≤ 2 ^ 47

-- The fuel of alloc never runs out, so that the default is not met.
unfoldable pub alloc_pages : Machine → (num align : ℕ) → Pmm → ℕ × Pmm
alloc_pages m num align s = elim (alloc m s num align) [ none ↦ (0, s) | some r ↦ r ]

-- What the interface asks of one allocation.
pub record Given (num : ℕ) (s : Pmm) (r : ℕ × Pmm) : Type 0 where
  pub sound : IsLow r.1
  pub page : r.0 % 4096 ≡ 0
  pub bound : r.0 ≢ 0 → r.0 + num * 4096 ≤ 2 ^ 47

module _ (m : Machine) where
  IsLow-Allocated :
      (num align addr : ℕ) (s s' : Pmm)
      → IsLow s
      → Allocated m s num align addr s'
      → Given num s (addr, s')
  IsLow-Allocated num align addr s s' low a = record {
    sound = record {
      ready = record {
        has_bitmap = omega (arith, low.ready.has_bitmap, a.writes.same_size);
        range = omega (arith, low.ready.range, a.writes.same_size, a.writes.same_start);
      };
      page = omega (arith, low.page, a.writes.same_start);
      low = omega (arith, low.low, a.writes.same_size, a.writes.same_start);
    };
    page = omega (arith, a.is_first, low.page);
    bound = λ ne. omega (arith, a.is_first, a.inside, low.low);
  }

  pub alloc_pages-Given :
      (num align : ℕ) (s : Pmm) → 0 < num → IsLow s → Given num s (alloc_pages m num align s)
  unfolding alloc_pages
  alloc_pages-Given num align s more low =
      let (addr, s', e, done) = alloc-Outcome m s num align more low.ready in
      elim done [
        | inr a ↦ rw (e, alloc_pages) (IsLow-Allocated num align addr s s' low a)
        | inl (z, same) ↦
            rw (e, alloc_pages) rw (z, same)
              (record { sound = low; page = refl; bound = λ ne. elim (ne refl) [ ] })
      ]

  abbrev pub pmm_pages : Pages
  pmm_pages = record {
    State = Pmm;
    IsSound = IsLow;
    alloc = alloc_pages m;
    free = λ addr num s. free s addr num;
    alloc-IsSound = λ num align s more low. (alloc_pages-Given num align s more low).sound;
    alloc_aligned = λ num align s more low. (alloc_pages-Given num align s more low).page;
    alloc_bound = λ num align s more low ne. (alloc_pages-Given num align s more low).bound ne;
  }
