-- ===== src/Sched/Files/Next.antt =====
-- What task_file_fd_next and task_file_from return.
use sdx.Prelude.{
  ℕ, zero, suc, refl, ap, inl, inr, Option, none, some, List, arith, ltb, leb, Bool-cases,
  Option-cases, length, get_or, get_elem?-get_or, ◌+◌, ◌-◌, ◌≤◌, ◌<◌, ◌≡◌, ◌∙◌, ◌==◌, if◌then◌else◌,
}
use sdx.Prelude.Int.{pos}
use sdx.Errno.{Errno, Result, ok, err}
use sdx.Sched.Files.{next_from, files_max, File, Files, free_from, reset_last, fd_next}

abbrev pub IsUsed : List (Option File) → ℕ → Type 0
IsUsed slots i = (f : File) × (get_or slots i none ≡ some f)

-- The array has its full length, and the last descriptor is not negative.
pub record IsValid (t : Files) (last : ℕ) : Type 0 where
  pub full : length t.slots ≡ files_max
  pub last_is : t.fd_last ≡ pos last

-- `r` is the first descriptor from `fd` on that is free, or the end where none is.
pub record FirstFree (slots : List (Option File)) (fd end r : ℕ) : Type 0 where
  pub above : fd ≤ r
  pub below : r ≤ end
  pub used_before : (i : ℕ) → fd ≤ i → i < r → IsUsed slots i
  pub free_there : r < end → get_or slots r none ≡ none

IsUsed-step :
    (slots : List (Option File)) {fd r : ℕ}
    → IsUsed slots fd
    → ((i : ℕ) → fd + 1 ≤ i → i < r → IsUsed slots i)
    → (i : ℕ) → fd ≤ i
    → i < r
    → IsUsed slots i
IsUsed-step slots {fd} taken rest i p q = elim (Bool-cases (fd == i)) [
  | inl same ↦ let e : i ≡ fd = ground arith in rw e taken
  | inr other ↦ rest i (ground arith) q
]

free_from-found :
    (slots : List (Option File)) (count fd : ℕ)
    → fd < length slots
    → get_or slots fd none ≡ none
    → free_from slots (suc count) fd ≡ some fd
unfolding free_from
free_from-found slots count fd inside empty =
    let here = get_elem?-get_or slots fd none inside ∙ ap some empty in rw (here, free_from) refl

free_from-used :
    (slots : List (Option File)) (count fd : ℕ) (f : File)
    → fd < length slots
    → get_or slots fd none ≡ some f
    → free_from slots (suc count) fd ≡ free_from slots count (fd + 1)
unfolding free_from
free_from-used slots count fd f inside taken =
    let here = get_elem?-get_or slots fd none inside ∙ ap some taken in rw (here, free_from) refl

free_from-FirstFree :
    (slots : List (Option File)) (count fd : ℕ)
    → fd + count ≤ length slots
    → (r : ℕ) × (free_from slots count fd ≡ some r) × FirstFree slots fd (fd + count) r
unfolding free_from
free_from-FirstFree slots zero fd inside = (
  fd,
  refl,
  record {
    above = omega arith;
    below = omega arith;
    used_before = λ i p q. absurd (omega arith);
    free_there = λ h. absurd (omega arith);
  },
)
free_from-FirstFree slots (suc count) fd inside = elim (Option-cases (get_or slots fd none)) [
  | inl empty ↦ (
    fd,
    free_from-found slots count fd (omega (arith, inside)) empty,
    record {
      above = omega arith;
      below = omega arith;
      used_before = λ i p q. absurd (omega arith);
      free_there = λ h. empty;
    },
  )
  | inr (f, taken) ↦
      let (r, eq, rest) = free_from-FirstFree slots count (fd + 1) (omega (arith, inside)) in
      (
        r,
        free_from-used slots count fd f (omega (arith, inside)) taken ∙ eq,
        record {
          above = omega (arith, rest.above);
          below = omega (arith, rest.below);
          used_before = λ i p q. IsUsed-step slots (f, taken) rest.used_before i p q;
          free_there = λ h. rest.free_there (omega arith);
        },
      )
]

abbrev pub start_of : ℕ → ℕ
start_of last = if ltb last files_max then last else 0

-- What the choice says: a first free descriptor, or that there is none from the start on.
abbrev pub Chosen : Files → ℕ → Result ℕ → Type 0
Chosen t last (ok fd) = (fd < files_max) × FirstFree t.slots (start_of last) files_max fd
Chosen t last (err e) =
    (e ≡ Errno.emfile) × ((i : ℕ) → start_of last ≤ i → i < files_max → IsUsed t.slots i)

reset_last-start :
    (t : Files) (last : ℕ)
    → IsValid t last
    → reset_last t ≡ record t { fd_last = pos (start_of last) }
unfolding reset_last
reset_last-start t last v = ground (arith, v.last_is)

next_from-eq :
    (t : Files) (n fd : ℕ)
    → free_from t.slots (files_max - n) n ≡ some fd
    → next_from t (pos n) ≡ some ((if leb files_max fd then err Errno.emfile else ok fd), t)
unfolding next_from
next_from-eq t n fd found = rw (found, next_from) refl

fd_next-eq :
    (t : Files) (last fd : ℕ)
    → IsValid t last
    → free_from t.slots (files_max - start_of last) (start_of last) ≡ some fd
    → fd_next t
      ≡ some (
        (if leb files_max fd then err Errno.emfile else ok fd),
        record t { fd_last = pos (start_of last) },
      )
unfolding fd_next
fd_next-eq t last fd v found =
    ap (λ (t : Files). next_from t t.fd_last) (reset_last-start t last v)
    ∙ next_from-eq (record t { fd_last = pos (start_of last) }) (start_of last) fd found

-- From a valid table task_file_fd_next reads only inside the array. It starts at the last descriptor
-- that was given out, or at 0 where that is past the end, returns the first free one from there on,
-- and fails with -EMFILE exactly where there is none from there on; no slot changes.
pub fd_next-Chosen :
    (t : Files) (last : ℕ)
    → IsValid t last
    → (r : Result ℕ) × (fd_next t ≡ some (r, record t { fd_last = pos (start_of last) }))
      × Chosen t last r
fd_next-Chosen t last v =
    let end : start_of last + (files_max - start_of last) ≡ files_max = ground arith in
    let (fd, eq, found) =
      free_from-FirstFree t.slots (files_max - start_of last) (start_of last)
        (omega (arith, end, v.full)) in
    elim (Bool-cases (leb files_max fd)) [
      | inl past ↦ (
        err Errno.emfile,
        fd_next-eq t last fd v eq ∙ rw past refl,
        (refl, λ i p q. found.used_before i p (ground arith)),
      )
      | inr inside ↦
          (ok fd, fd_next-eq t last fd v eq ∙ rw inside refl, (ground arith, rw end at found))
    ]
