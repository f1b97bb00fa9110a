-- ===== src/Fs/Fat/LongNames.antt =====
-- Long names in a directory, as a relation between its entries and a name, and what __fat32_entry_name
-- makes of them.
use mathlib.Core.Path.{subst}
use mathlib.Core.List.{append_assoc, append-nil}
use sdx.Prelude.{
  ℕ, zero, suc, refl, sym, ap, Bool, true, false, none, some, List, [], arith, length, get_or, drop,
  length-append, ◌+◌, ◌-◌, ◌*◌, ◌%◌, ◌^◌, ◌≤◌, ◌<◌, ◌≡◌, ◌&&◌, ◌∙◌, ◌∷◌, ◌++◌, ◌==◌, if◌then◌else◌,
}
use sdx.Errno.{ok}
use sdx.Util.Bits.{bit_get}
use sdx.Util.Strings.{Memory, write_byte}
use sdx.Fs.Fat.{put_bytes}
use sdx.Fs.Fat.Names.{
  copy_part, Entry, Naming, Named, entry_is_last, entry_is_unused, is_lfn, lfn_calc_size,
  name_check, name_append, end_name, lfn_step, name_from, entry_name,
}
use sdx.Fs.Fat.Directory.{same_name}
use sdx.Fs.Fat.Spelling.{HasPart, lfn_read-HasPart}
use sdx.Fs.Fat.Buffers.{Holds, put_bytes-Holds, same_name-Holds}

-- An entry inside of a name: no end, not unused, with a part of a name or, at the last, a short one.
abbrev pub Inside : Entry → (lfn : Bool) → Type 0
Inside e lfn = (entry_is_last e ≡ false) × (entry_is_unused e ≡ false) × (is_lfn e ≡ lfn)

-- Entries that begin with `k` full parts, the last one first, which make up a text, and the entry that
-- they belong to.
unfoldable pub Parts : (k : ℕ) → List Entry → (text : List ℕ) → Type 0
Parts k [] text = ⊥
Parts zero (e ∷ es) text = Inside e false × (text ≡ [])
Parts (suc k) (e ∷ es) text =
    (front : List ℕ) × (part : List ℕ) × (text ≡ front ++ part)
    × (length front ≡ k * 13)
    × (length part ≡ 13)
    × HasPart e part
    × Inside e true
    × Parts k es front

-- The first entry of a long name in `k + 1` parts: its part may be shorter, its order is `k + 1` and
-- has the mark of the last part.
unfoldable pub LongName : (k : ℕ) → List Entry → (text : List ℕ) → Type 0
LongName k [] text = ⊥
LongName k (e ∷ es) text =
    (front : List ℕ) × (part : List ℕ) × (text ≡ front ++ part)
    × (length front ≡ k * 13)
    × (0 < length part)
    × (length part ≤ 13)
    × HasPart e part
    × (is_lfn e ≡ true)
    × (bit_get (get_or e 0 0) 6 ≡ 1)
    × (get_or e 0 0 % 32 ≡ suc k)
    × Parts k es front

-- Where `name_index` stands with `k` parts to come.
abbrev index_at : (total k : ℕ) → ℕ
index_at total zero = total
index_at total (suc k) = suc k * 13

index_at-eq : (total k : ℕ) → (if k * 13 == 0 then total else k * 13) ≡ index_at total k
index_at-eq total zero = refl
index_at-eq total (suc k) = ground arith

copy_part-fits :
    (size total k : ℕ) (part : List ℕ) (name : Memory)
    → 0 < total
    → k * 13 + length part ≤ total
    → total < 255
    → total < size
    → copy_part size total (k * 13 + length part) part name ≡ (
      record { total = total; index = index_at total k; name = put_bytes part (k * 13) name },
      ok tt,
    )
unfolding copy_part name_check
copy_part-fits size total k part name more fits short room =
    let small : (total == 0) ≡ false = ground (arith, more) in
    let back : (k * 13 + length part + 2 ^ 16 - length part) % 2 ^ 16 ≡ k * 13 =
      omega (arith, fits, short) in
    let checked : name_check size (k * 13 + length part) ≡ none =
      ground (arith, fits, short, room) in
    rw (small, back, checked, back, index_at-eq total k) refl

-- A part of a name that fits is copied to its place, and the index moves there.
lfn_step-part :
    (size total k : ℕ) (e : Entry) (n : Naming) (part : List ℕ)
    → HasPart e part
    → (if n.total == 0 then lfn_calc_size e (length part) else n.total) ≡ total
    → (if n.total == 0 then total else n.index) ≡ k * 13 + length part
    → 0 < total
    → k * 13 + length part ≤ total
    → total < 255
    → total < size
    → lfn_step size e n ≡ (
      record { total = total; index = index_at total k; name = put_bytes part (k * 13) n.name },
      ok tt,
    )
unfolding lfn_step
lfn_step-part size total k e n part has et ei more fits short room =
    rw (lfn_read-HasPart e part has, et, ei)
      (copy_part-fits size total k part n.name more fits short room)

-- The entry behind all parts ends the name.
end_name-Holds :
    (size total : ℕ) (e : Entry) (buffer : Memory) (text : List ℕ)
    → Holds buffer 0 text
    → length text ≡ total
    → 0 < total
    → total < 255
    → total < size
    → end_name size e (record { total = total; index = total; name = buffer })
      ≡ (record { total = total; index = total + 1; name = write_byte buffer total 0 }, ok tt)
unfolding end_name name_check name_append
end_name-Holds size total e buffer text h len more short room =
    let started : (total == 0) ≡ false = ground (arith, more) in
    let checked : name_check size (total + 1) ≡ none = ground (arith, short, room) in
    rw (started, name_append, checked) refl

-- How the walk over the entries of a name ends.
pub record Finished (text : List ℕ) (rest : List Entry) (n : Named) : Type 0 where
  pub here : n.entries ≡ rest
  pub success : n.result ≡ ok tt
  pub size : n.naming.index ≡ length text + 1
  pub spelled : same_name n.naming.name 0 text ≡ true

lfn_calc_size-marked :
    (e : Entry) (k m : ℕ)
    → bit_get (get_or e 0 0) 6 ≡ 1
    → get_or e 0 0 % 32 ≡ suc k
    → lfn_calc_size e m ≡ k * 13 + m
unfolding lfn_calc_size
lfn_calc_size-marked e k m mark order = rw (mark, order) ground arith

none_before : (n : ℕ) → 0 + n ≡ n
none_before n = omega arith

name_from-short :
    (size : ℕ) (e : Entry) (es : List Entry) (n n' : Naming)
    → Inside e false
    → end_name size e n ≡ (n', ok tt)
    → name_from size true (e ∷ es) n
      ≡ some (record { entries = e ∷ es; naming = n'; result = ok tt })
unfolding name_from
name_from-short size e es n n' (last, unused, lfn) eq = rw (last, unused, lfn, eq) refl

name_from-lfn :
    (size : ℕ) (started : Bool) (e : Entry) (es : List Entry) (n n' : Naming)
    → (started && entry_is_last e) ≡ false
    → (started && entry_is_unused e) ≡ false
    → is_lfn e ≡ true
    → lfn_step size e n ≡ (n', ok tt)
    → name_from size started (e ∷ es) n ≡ name_from size true es n'
unfolding name_from
name_from-lfn size started e es n n' last unused lfn eq =
    rw (last, unused, lfn, eq) rw (unused) rw (eq) refl

name_from-Parts :
    (size total k : ℕ) (es : List Entry) (buffer : Memory) (front back : List ℕ)
    → Parts k es front
    → Holds buffer (k * 13) back
    → length front ≡ k * 13
    → length (front ++ back) ≡ total
    → 0 < total
    → total < 255
    → total < size
    → (n : Named) × (name_from size true es
          (record { total = total; index = index_at total k; name = buffer })
        ≡ some n)
      × Finished (front ++ back) (drop k es) n
unfolding name_from Parts
name_from-Parts size total k [] buffer front back parts h lf lt more short room = elim parts [ ]
name_from-Parts size total zero (e ∷ es) buffer front back ((last, unused, lfn), none_left) h lf lt
      more short room =
    let eq : (length back ≡ total) = ap length (ap (λ xs. xs ++ back) (sym none_left)) ∙ lt in
    (
      record {
        entries = e ∷ es;
        naming = record { total = total; index = total + 1; name = write_byte buffer total 0 };
        result = ok tt;
      },
      name_from-short size e es _ _ (last, unused, lfn)
          (end_name-Holds size total e buffer back h eq more short room),
      record {
        here = refl;
        success = refl;
        size = ap (λ m. m + 1) (sym lt);
        spelled =
            subst (λ xs. same_name (write_byte buffer total 0) 0 (xs ++ back) ≡ true)
              (sym none_left)
              (subst (λ m. same_name (write_byte buffer m 0) 0 back ≡ true)
                (none_before (length back) ∙ eq) (same_name-Holds buffer 0 back h));
      },
    )
name_from-Parts size total (suc k) (e ∷ es) buffer front back
      (front', part, split, lf', lp, has, (last, unused, lfn), parts) h lf lt more short room =
    let step =
      lfn_step-part size total k e (record { total = total; index = suc k * 13; name = buffer })
        part has (ground (arith, more)) (ground (arith, more, lp)) more
        (omega (arith, lp, lf, lt, length-append front back)) short room in
    let held =
      put_bytes-Holds buffer (k * 13) part back
        (subst (λ m. Holds buffer m back) (omega (arith, lp)) h) in
    let (n, eq, done) =
      name_from-Parts size total k es (put_bytes part (k * 13) buffer) front' (part ++ back) parts
        held lf'
        (omega (
          arith,
          length-append front' (part ++ back),
          length-append part back,
          length-append front back,
          lf',
          lp,
          lf,
          lt,
        ))
        more short room in
    (
      n,
      name_from-lfn size true e es _ _ last unused lfn step ∙ eq,
      subst (λ xs. Finished xs (drop k es) n)
          (sym (append_assoc front' part back) ∙ ap (λ xs. xs ++ back) (sym split)) done,
    )

-- A long name of at most 254 bytes in the entries, that fits into the buffer with its terminator:
-- __fat32_entry_name succeeds, has the name with its terminator in the buffer, and returns the size
-- of both.
pub entry_name-LongName :
    (size k : ℕ) (es : List Entry) (text : List ℕ) (buffer : Memory)
    → LongName k es text
    → length text < 255
    → length text < size
    → (n : Named) × (entry_name size es buffer ≡ some n) × Finished text (drop (suc k) es) n
unfolding entry_name LongName
entry_name-LongName size k [] text buffer long short room = elim long [ ]
entry_name-LongName size k (e ∷ es) text buffer
      (front, part, split, lf, more, le, has, lfn, mark, order, parts) short room =
    let total = length text in
    let lt : total ≡ k * 13 + length part =
      ap length split ∙ length-append front part ∙ ap (λ m. m + length part) lf in
    let some_text : 0 < total = omega (arith, lt, more) in
    let start : Naming = record { total = 0; index = 0; name = buffer } in
    let step =
      lfn_step-part size total k e start part has
        (lfn_calc_size-marked e k (length part) mark order ∙ sym lt) lt some_text
        (omega (arith, lt)) short room in
    let held = put_bytes-Holds buffer (k * 13) part [] tt in
    let (n, eq, done) =
      name_from-Parts size total k es (put_bytes part (k * 13) buffer) front (part ++ []) parts held
        lf (length-append front (part ++ []) ∙ omega (arith, length-append part [], lf, lt))
        some_text short room in
    (
      n,
      name_from-lfn size false e es _ _ refl refl lfn step ∙ eq,
      subst (λ xs. Finished xs (drop k es) n) (ap (λ xs. front ++ xs) (append-nil part) ∙ sym split)
          done,
    )
