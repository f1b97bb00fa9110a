-- ===== src/Mm/Pmm/Mark.antt =====
-- What the loops of pmm_alloc and pmm_free write: a run of pages is marked, or cleared.
use sdx.Prelude.{
  ℕ, zero, suc, refl, inl, inr, Bool, false, arith, ltb, leb, Bool-cases, ◌+◌, ◌-◌, ◌≤◌, ◌<◌, ◌≡◌,
  ◌&&◌, ◌∙◌, ◌==◌, if◌then◌else◌,
}
use sdx.Errno.{Errno, Result, ok, err}
use sdx.Mm.Pmm.{Pmm, max_index, pos_set, pos_clear}
use sdx.Mm.Pmm.Bitmap.{
  page, size, used, pos_next-page, used-pos_set, used-pos_clear, size-pos_set, size-pos_clear,
}
use sdx.Mm.Pmm.Ops.{mark, unmark}
use sdx.Mm.Pmm.Scan.{reading}

-- Page `k` is one of the `num` pages from page `n` on.
abbrev pub within : (n num k : ℕ) → Bool
within n num k = leb n k && ltb k (n + num)

-- `s'` is `s` with the pages of a run set to `v`; the region is the same.
pub record Writes (v n num : ℕ) (s s' : Pmm) : Type 0 where
  pub same_start : s'.start ≡ s.start
  pub same_end : s'.end ≡ s.end
  pub same_pos : s'.pos ≡ s.pos
  pub same_size : max_index s' ≡ max_index s
  pub pages : (k : ℕ) → used s' k ≡ (if within n num k then v else used s k)

no-Writes : (v n : ℕ) (s : Pmm) → Writes v n 0 s s
no-Writes v n s = record {
  same_start = refl;
  same_end = refl;
  same_pos = refl;
  same_size = refl;
  pages = λ k. ground arith;
}

then-Writes :
    {v n num : ℕ} {s t u : Pmm}
    → Writes v n 1 s t
    → Writes v (n + 1) num t u
    → Writes v n (suc num) s u
then-Writes {v} {n} {num} {s} {t} {u} a b = record {
  same_start = b.same_start ∙ a.same_start;
  same_end = b.same_end ∙ a.same_end;
  same_pos = b.same_pos ∙ a.same_pos;
  same_size = b.same_size ∙ a.same_size;
  pages = λ k. ground (arith, a.pages k, b.pages k);
}

pos_set-Writes : (s : Pmm) (n : ℕ) → n < size s → Writes 1 n 1 s (pos_set s (page n))
unfolding pos_set
pos_set-Writes s n h = record {
  same_start = refl;
  same_end = refl;
  same_pos = refl;
  same_size = size-pos_set s (page n);
  pages = λ k. ground (arith, used-pos_set s n k h);
}

pos_clear-Writes : (s : Pmm) (n : ℕ) → n < size s → Writes 0 n 1 s (pos_clear s (page n))
unfolding pos_clear
pos_clear-Writes s n h = record {
  same_start = refl;
  same_end = refl;
  same_pos = refl;
  same_size = size-pos_clear s (page n);
  pages = λ k. ground (arith, used-pos_clear s n k h);
}

pub mark-Writes : (num n : ℕ) (s : Pmm) → n + num ≤ size s → Writes 1 n num s (mark num s (page n))
unfolding mark
mark-Writes zero n s h = no-Writes 1 n s
mark-Writes (suc num) n s h =
    let same = size-pos_set s (page n) in
    let s' = pos_set s (page n) in
    rw (pos_next-page (pos_set s (page n)) n (omega arith)) (
      then-Writes (pos_set-Writes s n (omega arith))
        (mark-Writes num (n + 1) (pos_set s (page n)) (omega arith)))

-- The pages of a run are all allocated.
abbrev pub UsedRun : Pmm → (n num : ℕ) → Type 0
UsedRun s n num = (i : ℕ) → n ≤ i → i < n + num → used s i ≡ 1

abbrev pub Unmarked : (n num : ℕ) → Pmm → Result (Unit {0}) × Pmm → Type 0
Unmarked n num s r = (r.0 ≡ ok tt) × Writes 0 n num s r.1

unmark_step :
    (num n : ℕ) (s : Pmm)
    → n < size s
    → unmark (suc num) s (reading s n) (page n) ≡ (
        if used s n == 0
        then (err Errno.efault, s)
        else unmark num
            (pos_clear s (page n))
            (reading (pos_clear s (page n)) (n + 1))
            (page (n + 1)))
unfolding unmark
unmark_step num n s h =
    let valid : leb (size s) n ≡ false = ground arith in
    rw (valid, pos_next-page (pos_clear s (page n)) n (omega (arith, size-pos_clear s (page n))))
      refl

pub unmark-Writes :
    (num n : ℕ) (s : Pmm)
    → n + num ≤ size s
    → UsedRun s n num
    → Unmarked n num s (unmark num s (reading s n) (page n))
unfolding unmark
unmark-Writes zero n s h run = (refl, no-Writes 0 n s)
unmark-Writes (suc num) n s h run =
    let one : (used s n == 0) ≡ false = ground (arith, run n (omega arith) (omega arith)) in
    let same = size-pos_clear s (page n) in
    let (done, writes) =
      unmark-Writes num (n + 1) (pos_clear s (page n)) (omega arith)
        (λ i p q. ground (arith, used-pos_clear s n i, run i (omega arith) (omega arith))) in
    rw (unmark_step num n s (omega arith), one)
      (done, then-Writes (pos_clear-Writes s n (omega arith)) writes)

-- A run with a page that is not allocated is not freed without an error.
pub unmark_free_page :
    (num n i : ℕ) (s : Pmm)
    → n + num ≤ size s
    → n ≤ i
    → i < n + num
    → used s i ≡ 0
    → (unmark num s (reading s n) (page n)).0 ≡ err Errno.efault
unmark_free_page zero n i s h p q e = absurd (omega arith)
unmark_free_page (suc num) n i s h p q e =
    let same = size-pos_clear s (page n) in
    rw (unmark_step num n s (omega arith)) (elim (Bool-cases (used s n == 0)) [
      | inl free ↦ rw free
      | inr busy ↦ rw busy (
          unmark_free_page num (n + 1) i (pos_clear s (page n)) (omega arith) (ground arith)
            (omega arith) (ground (arith, used-pos_clear s n i)))
    ])

-- A run of allocated pages that leaves the bitmap is cleared as far as the bitmap goes.
pub unmark_past_end :
    (num n : ℕ) (s : Pmm)
    → n ≤ size s
    → size s < n + num
    → UsedRun s n (size s - n)
    → (unmark num s (reading s n) (page n)).0 ≡ err Errno.erange
unfolding unmark
unmark_past_end zero n s h p run = absurd (omega arith)
unmark_past_end (suc num) n s h p run = elim (Bool-cases (leb (size s) n)) [
  | inl past ↦ rw past
  | inr inside ↦
      let one : (used s n == 0) ≡ false = ground (arith, run n (omega arith) (ground arith)) in
      let same = size-pos_clear s (page n) in
      let h' : n < size s = ground arith in
      rw (unmark_step num n s h', one)
        (unmark_past_end num (n + 1) (pos_clear s (page n)) (omega arith) (omega arith)
          (λ i a b. ground (arith, used-pos_clear s n i, run i (omega arith) (omega arith))))
]
