-- ===== src/Mm/Vmm/FindEnd.antt =====
-- How long __vmm_find_contiguous (kernel/mm/vmm.c) searches.
use sdx.Prelude.{
  ℕ, zero, suc, refl, sym, inl, inr, true, false, not, none, arith, leb, Bool-cases, ◌+◌, ◌*◌, ◌%◌,
  ◌^◌, ◌≤◌, ◌<◌, ◌≡◌, ◌≢◌, ◌⊎◌, ◌&&◌, ◌==◌,
}
use sdx.Mm.Vmm.{Space, entry_from_vaddr}
use sdx.Mm.Vmm.Range.{page_offset, below_zero}
use sdx.Mm.Vmm.Find.{suc_not_zero, first_page, first_page-page}
use sdx.Mm.Vmm.Search.{find_from, find_contiguous}

-- `r` pages without an entry stand `k` pages ahead of `place`, and complete the `num` pages of the
-- search: alone, from an aligned address on, or with the `cur` pages that it counted up to here.
record Ahead (s : Space) (num align place cur k r : ℕ) : Type 0 where
  empty :
      (w : ℕ) → k ≤ page_offset place w → page_offset place w < k + r → entry_from_vaddr s w ≡ none
  fits : k + r ≤ 2 ^ 36
  enough :
      ((num ≤ r) × ((not (align == 0) && not ((place + k * 4096) % 2 ^ 64 % align == 0)) ≡ false))
      ⊎ ((k ≡ 0) × (0 < cur) × (num ≤ cur + r))

module _ (s : Space) (num align place cur : ℕ) where
  Ahead-far :
      (cur' k r : ℕ)
      → Ahead s num align place cur (suc k) r
      → Ahead s num align ((place + 4096) % 2 ^ 64) cur' k r
  Ahead-far cur' k r a = record {
    empty = λ w le lt. a.empty w (omega (arith, le, lt, a.fits)) (omega (arith, le, lt, a.fits));
    fits = omega (arith, a.fits);
    enough = elim a.enough [
      | inl (le, ali) ↦ inl (le, rw (same_place k) ali)
      | inr (z, more, le) ↦ elim (suc_not_zero z) [ ]
    ];
  }
    where
      same_place :
          (k : ℕ) → ((place + 4096) % 2 ^ 64 + k * 4096) % 2 ^ 64 ≡ (place + suc k * 4096) % 2 ^ 64
      same_place k = omega arith

  Ahead-near :
      (r : ℕ)
      → Ahead s num align place cur 0 (suc r)
      → Ahead s num align ((place + 4096) % 2 ^ 64) (cur + 1) 0 r
  Ahead-near r a = record {
    empty = λ w le lt. a.empty w (omega (arith, le, lt, a.fits)) (omega (arith, le, lt, a.fits));
    fits = omega (arith, a.fits);
    enough = inr (
      refl,
      omega arith,
      elim a.enough [ inl (le, ali) ↦ omega (arith, le) | inr (z, more, le) ↦ omega (arith, le) ],
    );
  }

  Ahead-entry : (r : ℕ) → Ahead s num align place cur 0 (suc r) → entry_from_vaddr s place ≡ none
  Ahead-entry r a = a.empty place (omega arith) (omega arith)

  Ahead-start :
      (r : ℕ)
      → place < 2 ^ 64
      → Ahead s num align place cur 0 r
      → (cur == 0 && not (align == 0) && not (place % align == 0)) ≡ false
  Ahead-start r lt a = elim a.enough [
    | inl (le, ali) ↦
        let same : (place + 0 * 4096) % 2 ^ 64 ≡ place = omega (arith, lt) in
        let here : (not (align == 0) && not (place % align == 0)) ≡ false = rw (sym same) ali in
        ground (arith, here)
    | inr (z, more, le) ↦ ground (arith, more)
  ]

  Ahead-more : Ahead s num align place cur 0 0 → num ≤ cur
  Ahead-more a = elim a.enough [
    | inl (le, ali) ↦ omega (arith, le)
    | inr (z, more, le) ↦ omega (arith, le)
  ]

find_from-ends :
    (s : Space) (num align fuel place start cur k r : ℕ)
    → place < 2 ^ 64
    → Ahead s num align place cur k r
    → k + r < fuel
    → find_from s num align fuel place start cur ≢ none
unfolding find_from
find_from-ends s num align zero place start cur k r lt a enough = elim (below_zero enough) [ ]
find_from-ends s num align (suc fuel) place start cur (suc k) r lt a enough =
    elim (Bool-cases (leb num cur)) [
      | inl done ↦ rw done (λ e. cc e)
      | inr going ↦ rw going (
          find_from-ends s num align fuel ((place + 4096) % 2 ^ 64) _ _ k r (omega arith)
            (Ahead-far s num align place cur _ k r a) (omega (arith, enough)))
    ]
find_from-ends s num align (suc fuel) place start cur zero (suc r) lt a enough =
    elim (Bool-cases (leb num cur)) [
      | inl done ↦ rw done (λ e. cc e)
      | inr going ↦
          rw
            (
              going,
              Ahead-start s num align place cur (suc r) lt a,
              Ahead-entry s num align place cur r a,
            )
            (find_from-ends s num align fuel ((place + 4096) % 2 ^ 64) _ (cur + 1) 0 r (omega arith)
              (Ahead-near s num align place cur r a) (omega (arith, enough)))
    ]
find_from-ends s num align (suc fuel) place start cur zero zero lt a enough =
    let done : leb num cur ≡ true = ground (arith, Ahead-more s num align place cur a) in
    rw done (λ e. cc e)

-- Where the search has `num` pages without an entry ahead of it, `k` pages after its first page and from
-- an aligned address on, it ends with an address once it has looked at `k + num` pages.
pub find_contiguous-ends :
    (s : Space) (fuel num align attr k : ℕ)
    → k + num ≤ 2 ^ 36
    → k + num < fuel
    → (align ≡ 0) ⊎ ((first_page attr + k * 4096) % 2 ^ 64 % align ≡ 0)
    → ((w : ℕ)
        → k ≤ page_offset (first_page attr) w
        → page_offset (first_page attr) w < k + num
        → entry_from_vaddr s w ≡ none)
    → find_contiguous s fuel num align attr ≢ none
unfolding find_contiguous
find_contiguous-ends s fuel num align attr k fits enough aligned empty =
    find_from-ends s num align fuel (first_page attr) 0 0 k num (first_page-page attr).0
      (record {
        empty = empty;
        fits = fits;
        enough =
            inl
              (omega arith, elim aligned [ inl z ↦ ground (arith, z) | inr z ↦ ground (arith, z) ]);
      })
      enough
