-- ===== src/Mm/Vmm/Find.antt =====
-- The search of __vmm_find_contiguous (kernel/mm/vmm.c).
use mathlib.Core.Path.{subst}
use sdx.Prelude.{
  ℕ, zero, suc, refl, inl, inr, true, false, not, Option, none, some, arith, leb, Bool-cases,
  Option-cases, ◌+◌, ◌*◌, ◌%◌, ◌^◌, ◌<◌, ◌≡◌, ◌⊎◌, ◌&&◌, ◌∙◌, ◌==◌, if◌then◌else◌,
}
use sdx.Mm.Vmm.{
  kernel_start, user_start, user, has_attr, pml4_index, pdpt_index, pd_index, pt_index, Space,
  entry_from_vaddr,
}
use sdx.Mm.Vmm.Walk.{page_of}
use sdx.Mm.Vmm.Range.{page_offset, le_or_lt}
use sdx.Mm.Vmm.Search.{find_contiguous, find_from}

same_indexes :
    (v w : ℕ)
    → page_of w ≡ page_of v
    → (pml4_index w ≡ pml4_index v)
      × (pdpt_index w ≡ pdpt_index v)
      × (pd_index w ≡ pd_index v)
      × (pt_index w ≡ pt_index v)
same_indexes v w e = omega (arith, e)

-- The addresses of one page have one entry.
pub same_entry :
    (s : Space) (v w : ℕ) → page_of w ≡ page_of v → entry_from_vaddr s w ≡ entry_from_vaddr s v
unfolding entry_from_vaddr
same_entry s v w e = let i = same_indexes v w e in cc (i.0, i.1, i.2, i.3)

-- `cur` pages from `start` on, up to `place`, have no entry.
record Run (s : Space) (align place start cur : ℕ) : Type 0 where
  next : place ≡ (start + cur * 4096) % 2 ^ 64
  page : start % 4096 ≡ 0
  aligned : (not (align == 0) && not (start % align == 0)) ≡ false
  free : (w : ℕ) → page_offset start w < cur → entry_from_vaddr s w ≡ none

Run-new :
    (s : Space) (align place : ℕ)
    → place < 2 ^ 64
    → place % 4096 ≡ 0
    → (not (align == 0) && not (place % align == 0)) ≡ false
    → entry_from_vaddr s place ≡ none
    → Run s align ((place + 4096) % 2 ^ 64) place 1
Run-new s align place lt page aligned empty = record {
  next = refl;
  page = page;
  aligned = aligned;
  free = λ w below. same_entry s place w (omega (arith, below)) ∙ empty;
}

Run-suc :
    (s : Space) (align place start cur : ℕ)
    → Run s align place start cur
    → entry_from_vaddr s place ≡ none
    → Run s align ((place + 4096) % 2 ^ 64) start (cur + 1)
Run-suc s align place start cur run empty = record {
  next = omega (arith, run.next);
  page = run.page;
  aligned = run.aligned;
  free = λ w below. elim (le_or_lt cur (page_offset start w)) [
    | inl le ↦ same_entry s place w (omega (arith, below, le, run.next, run.page)) ∙ empty
    | inr lt ↦ run.free w lt
  ];
}

suc_test : (n : ℕ) → (suc n == 0) ≡ false
suc_test n = ground arith

pub suc_not_zero : {n : ℕ} → suc n ≡ 0 → ⊥
suc_not_zero e = omega (arith, e)

Run-next :
    (s : Space) (align place start cur : ℕ)
    → place < 2 ^ 64
    → place % 4096 ≡ 0
    → (cur == 0 && not (align == 0) && not (place % align == 0)) ≡ false
    → entry_from_vaddr s place ≡ none
    → (cur ≡ 0) ⊎ Run s align place start cur
    → Run s align
        ((place + 4096) % 2 ^ 64)
        (if cur == 0 && not false then place else start)
        (cur + 1)
Run-next s align place start zero lt page here e run = Run-new s align place lt page here e
Run-next s align place start (suc n) lt page here e (inr run) =
    rw (suc_test n) (Run-suc s align place start (suc n) run e)
Run-next s align place start (suc n) lt page here e (inl z) = elim (suc_not_zero z) [ ]

none_left : {n c : ℕ} → 0 < n → c ≡ 0 → leb n c ≡ true → ⊥
none_left more z done = ground (arith, more, z, done)

-- The range that the search finds.
pub record FoundAt (s : Space) (num align start : ℕ) : Type 0 where
  pub page : start % 4096 ≡ 0
  pub aligned : (not (align == 0) && not (start % align == 0)) ≡ false
  pub free : (w : ℕ) → page_offset start w < num → entry_from_vaddr s w ≡ none

IfFound : (ℕ → Type 0) → Option ℕ → Type 0
IfFound Q none = Unit
IfFound Q (some a) = Q a

find_from-FoundAt :
    (s : Space) (num align fuel place start cur : ℕ)
    → 0 < num
    → place < 2 ^ 64
    → place % 4096 ≡ 0
    → (cur ≡ 0) ⊎ Run s align place start cur
    → IfFound (FoundAt s num align) (find_from s num align fuel place start cur)
unfolding find_from IfFound
find_from-FoundAt s num align zero place start cur more lt page run = tt
find_from-FoundAt s num align (suc fuel) place start cur more lt page run =
    elim (Bool-cases (leb num cur)) [
      | inl done ↦ elim run [
        | inl z ↦ elim (none_left more z done) [ ]
        | inr r ↦ rw done (record {
          page = r.page;
          aligned = r.aligned;
          free = λ w below. r.free w (ground (arith, below, done));
        })
      ]
      | inr going ↦
          let again =
            λ (start' cur' : ℕ)
                (run' : (cur' ≡ 0) ⊎ Run s align ((place + 4096) % 2 ^ 64) start' cur').
              find_from-FoundAt s num align fuel ((place + 4096) % 2 ^ 64) start' cur' more
                (omega arith) (omega (arith, page)) run' in
          elim (Bool-cases (cur == 0 && not (align == 0) && not (place % align == 0))) [
            | inl skip ↦ rw (going, skip) (again _ cur (inl (ground (arith, skip))))
            | inr here ↦ elim (Option-cases (entry_from_vaddr s place)) [
              | inr (slot, e) ↦ rw (going, here, e) (again _ 0 (inl refl))
              | inl e ↦
                  rw (going, here, e)
                    (again _ (cur + 1) (inr (Run-next s align place start cur lt page here e run)))
            ]
          ]
    ]

-- Where the search starts.
abbrev pub first_page : (attr : ℕ) → ℕ
first_page attr = if has_attr attr user then user_start else kernel_start

pub first_page-page : (attr : ℕ) → (first_page attr < 2 ^ 64) × (first_page attr % 4096 ≡ 0)
first_page-page attr = ground arith

-- What the search returns is the page address of `num` pages without an entry, aligned as asked.
pub find_contiguous-FoundAt :
    (s : Space) (fuel num align attr a : ℕ)
    → 0 < num
    → find_contiguous s fuel num align attr ≡ some a
    → FoundAt s num align a
unfolding find_contiguous IfFound
find_contiguous-FoundAt s fuel num align attr a more e =
    let first = first_page-page attr in
    subst (IfFound (FoundAt s num align)) e
      (find_from-FoundAt s num align fuel (first_page attr) 0 0 more first.0 first.1 (inl refl))
