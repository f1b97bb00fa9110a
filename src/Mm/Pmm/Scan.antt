-- ===== src/Mm/Pmm/Scan.antt =====
-- What the loop of pmm_alloc finds.
use sdx.Prelude.{
  ℕ, zero, suc, refl, ap, inl, inr, Bool, true, false, not, Option, some, arith, ltb, leb,
  Bool-cases, ◌+◌, ◌-◌, ◌*◌, ◌%◌, ◌≤◌, ◌<◌, ◌≡◌, ◌≢◌, ◌⊎◌, ◌&&◌, ◌||◌, ◌∙◌, ◌==◌, if◌then◌else◌,
}
use sdx.Errno.{Errno, Result, ok, err}
use sdx.Mm.Pmm.{page_size, Machine, Pmm, is_free_memory, divisor}
use sdx.Mm.Pmm.Bitmap.{page, size, used, InRange, pos_next-page, pos_to_addr-page}
use sdx.Mm.Pmm.Ops.{scan}

-- The address of a page of the region.
abbrev pub page_addr : Pmm → ℕ → ℕ
page_addr s n = s.start + n * page_size

-- Neither allocated nor reserved.
abbrev pub IsFree : Machine → Pmm → ℕ → Type 0
IsFree m s n = (used s n ≡ 0) × (is_free_memory m (page_addr s n) ≡ true)

-- `count` free pages from page `first` on.
abbrev pub FreeRun : Machine → Pmm → (first count : ℕ) → Type 0
FreeRun m s first count = (i : ℕ) → first ≤ i → i < first + count → IsFree m s i

-- What reading page `n` gives.
abbrev pub reading : Pmm → ℕ → Result ℕ
reading s n = if leb (size s) n then err Errno.erange else ok (used s n)

module _ (m : Machine) (s : Pmm) (num align : ℕ) where
  next_start : (n cur start : ℕ) → ℕ
  next_start n cur start = if cur == 0 then page_addr s n else start

  next_cur : (n cur start : ℕ) → ℕ
  next_cur n cur start =
      if cur == 0 && not (next_start n cur start % divisor align == 0)
      then cur
      else if not (used s n == 0) || not (is_free_memory m (page_addr s n))
      then 0
      else cur + 1

  scan_stop :
      (fuel n cur start : ℕ)
      → (leb num cur ≡ true) ⊎ (size s ≤ n)
      → scan m s num align (suc fuel) (reading s n) (page n) cur start ≡ some (cur, start)
  unfolding scan
  scan_stop fuel n cur start (inl h) = rw h
  scan_stop fuel n cur start (inr h) =
      let e : leb (size s) n ≡ true = ground arith in rw e (ground arith)

  scan_step :
      (fuel n cur start : ℕ)
      → InRange s
      → cur < num
      → n < size s
      → scan m s num align (suc fuel) (reading s n) (page n) cur start
        ≡ scan m s num align fuel
            (reading s (n + 1))
            (page (n + 1))
            (next_cur n cur start)
            (next_start n cur start)
  unfolding scan next_cur next_start
  scan_step fuel n cur start range h p =
      let go_on : leb num cur ≡ false = ground arith in
      let valid : leb (size s) n ≡ false = ground arith in
      rw (go_on, valid, pos_to_addr-page s n range p, pos_next-page s n (omega arith)) refl

  -- Before page `n` is read: the last `cur` pages are free, and they begin at the aligned `start`.
  pub record Scanning (n cur start : ℕ) : Type 0 where
    pub few : cur ≤ num
    pub behind : cur ≤ n
    pub inside : n ≤ size s
    pub run : FreeRun m s (n - cur) cur
    pub begins : (cur ≡ 0) ⊎ ((start ≡ page_addr s (n - cur)) × (start % divisor align ≡ 0))

  pub begin-Scanning : (start : ℕ) → Scanning 0 0 start
  begin-Scanning start = record {
    few = omega arith;
    behind = omega arith;
    inside = omega arith;
    run = λ i p q. absurd (omega arith);
    begins = inl refl;
  }

  -- The three things that a round does.
  data Round (n cur start cur' start' : ℕ) : Type 0 where
    restart : cur' ≡ 0 → Round n cur start cur' start'
    first :
        cur ≡ 0
        → cur' ≡ 1
        → IsFree m s n
        → start' ≡ page_addr s n
        → start' % divisor align ≡ 0
        → Round n cur start cur' start'
    count : cur ≢ 0 → cur' ≡ suc cur → IsFree m s n → start' ≡ start → Round n cur start cur' start'

  abbrev free_test : ℕ → Bool
  free_test n = used s n == 0 && is_free_memory m (page_addr s n)

  round : (n cur start : ℕ) → Round n cur start (next_cur n cur start) (next_start n cur start)
  unfolding next_cur next_start
  round n cur start = elim (Bool-cases (cur == 0)) [
    | inl none_yet ↦ elim (Bool-cases (page_addr s n % divisor align == 0)) [
      | inl aligned ↦ elim (Bool-cases (free_test n)) [
        | inl free ↦
            first (ground arith) (ground arith) (ground arith) (ground arith) (ground arith)
        | inr busy ↦ restart (ground arith)
      ]
      | inr misaligned ↦ restart (ground arith)
    ]
    | inr some_yet ↦ elim (Bool-cases (free_test n)) [
      | inl free ↦ count (ground arith) (ground arith) (ground arith) (ground arith)
      | inr busy ↦ restart (ground arith)
    ]
  ]

  extend_run :
      (n cur : ℕ)
      → cur ≤ n
      → IsFree m s n
      → FreeRun m s (n - cur) cur
      → FreeRun m s (n - cur) (suc cur)
  extend_run n cur h f run i p q = elim (Bool-cases (i == n)) [
    | inl e ↦ let e' : i ≡ n = ground arith in rw e' f
    | inr ne ↦ run i p (ground arith)
  ]

  keep-Scanning :
      (n cur start : ℕ) {cur' start' : ℕ}
      → cur < num
      → n < size s
      → Scanning n cur start
      → Round n cur start cur' start'
      → Scanning (n + 1) cur' start'
  keep-Scanning n cur start h p v (restart e) = record {
    few = omega arith;
    behind = omega arith;
    inside = omega arith;
    run = λ i a b. absurd (omega arith);
    begins = inl e;
  }
  keep-Scanning n cur start {cur'} h p v (first e e' f a d) =
      let back : n + 1 - cur' ≡ n = omega arith in
      record {
        few = omega arith;
        behind = omega arith;
        inside = omega arith;
        run = λ i q r. let e'' : i ≡ n = omega arith in rw e'' f;
        begins = inr (rw back a, d);
      }
  keep-Scanning n cur start {cur'} h p v (count e e' f a) =
      let back : n + 1 - cur' ≡ n - cur = omega (arith, v.behind) in
      record {
        few = omega arith;
        behind = omega (arith, v.behind);
        inside = omega arith;
        run = rw (back, e') (extend_run n cur v.behind f v.run);
        begins = elim v.begins [ inl z ↦ absurd (e z) | inr (x, y) ↦ inr (rw (back, a) (x, y)) ];
      }

  -- How the loop ends: at some page, with the invariant.
  pub record Scanned (result : Option (ℕ × ℕ)) : Type 0 where
    pub at_page : ℕ
    pub cur : ℕ
    pub start : ℕ
    pub ends : result ≡ some (cur, start)
    pub state : Scanning at_page cur start

  pub scan-Scanned :
      (fuel n cur start : ℕ)
      → InRange s
      → size s < fuel + n
      → Scanning n cur start
      → Scanned (scan m s num align fuel (reading s n) (page n) cur start)
  scan-Scanned zero n cur start range h v = absurd (omega (arith, v.inside))
  scan-Scanned (suc fuel) n cur start range h v = elim (Bool-cases (leb num cur)) [
    | inl full ↦ record {
      at_page = n;
      cur = cur;
      start = start;
      ends = scan_stop fuel n cur start (inl full);
      state = v;
    }
    | inr open_run ↦ elim (Bool-cases (leb (size s) n)) [
      | inl past ↦ record {
        at_page = n;
        cur = cur;
        start = start;
        ends = scan_stop fuel n cur start (inr (ground arith));
        state = v;
      }
      | inr inside ↦
          let h' : cur < num = ground arith in
          let p : n < size s = ground arith in
          rw (scan_step fuel n cur start range h' p) (
            scan-Scanned fuel (n + 1) (next_cur n cur start) (next_start n cur start) range
              (omega arith) (keep-Scanning n cur start h' p v (round n cur start)))
    ]
  ]

  -- A suitable place: `num` free pages from page `t` on, at an aligned address.
  pub record Fits (t : ℕ) : Type 0 where
    pub inside : t + num ≤ size s
    pub run : FreeRun m s t num
    pub aligned : page_addr s t % divisor align ≡ 0

  -- While a place is not passed, a run that has reached it goes on.
  round-Fits :
      (t n cur start : ℕ)
      → Fits t
      → cur < num
      → n ≤ t + cur
      → cur ≤ n
      → n + 1 ≤ t + next_cur n cur start
  unfolding next_cur next_start
  round-Fits t n cur start fits h p q = elim (Bool-cases (ltb n t)) [
    | inl before ↦ ground arith
    | inr reached ↦
        let free = fits.run n (ground arith) (ground arith) in
        elim (Bool-cases (cur == 0)) [
          | inl none_yet ↦
              let e : n ≡ t = ground arith in
              let aligned : page_addr s n % divisor align ≡ 0 = rw e fits.aligned in
              ground (arith, free)
          | inr some_yet ↦ ground (arith, free)
        ]
  ]

  next_cur-le : (n cur start : ℕ) → next_cur n cur start ≤ suc cur
  unfolding next_cur next_start
  next_cur-le n cur start = ground arith

  pub scan-Fits :
      (t fuel n cur start : ℕ)
      → Fits t
      → InRange s
      → size s < fuel + n
      → cur ≤ num
      → cur ≤ n
      → n ≤ t + cur
      → n ≤ size s
      → (start' : ℕ) × (scan m s num align fuel (reading s n) (page n) cur start
          ≡ some (num, start'))
  scan-Fits t zero n cur start fits range h p q r i = absurd (omega arith)
  scan-Fits t (suc fuel) n cur start fits range h p q r i = elim (Bool-cases (leb num cur)) [
    | inl full ↦
        (start, scan_stop fuel n cur start (inl full) ∙ ap (λ c. some (c, start)) (ground arith))
    | inr open_run ↦
        let h' : cur < num = ground arith in
        let p' : n < size s = omega (arith, fits.inside) in
        rw (scan_step fuel n cur start range h' p') (
          scan-Fits t fuel (n + 1) (next_cur n cur start) (next_start n cur start) fits range
            (omega arith) (omega (arith, next_cur-le n cur start))
            (omega (arith, next_cur-le n cur start)) (round-Fits t n cur start fits h' r q)
            (omega arith))
  ]
