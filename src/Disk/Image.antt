-- ===== src/Disk/Image.antt =====
-- Reading from a disk whose driver returns the bytes of one image.
use mathlib.Core.Path.{subst}
use native.Mathlib.Nat.{
  one-mul, zero-mul, div-add-mod', mod-lt, add-mul, mul-le-mul_right, mul-le-mul_left,
}
use sdx.Prelude.{
  ℕ, zero, suc, refl, ap, inl, inr, true, false, some, List, [], arith, ltb, Bool-cases, take, drop,
  ◌+◌, ◌-◌, ◌*◌, ◌/◌, ◌%◌, ◌≤◌, ◌<◌, ◌≡◌, ◌∙◌, ◌∷◌, ◌++◌, ◌==◌,
}
use sdx.Util.Math.{u64_mod}
use sdx.Disk.{Driver, read_rest, read_sectors, read_lba, disk_read}

-- The `count` bytes of an image from `start` on.
abbrev pub slice : (ℕ → ℕ) → (start count : ℕ) → List ℕ
slice image start zero = []
slice image start (suc count) = image start ∷ slice image (start + 1) count

zero_start : (n : ℕ) → 0 + n ≡ n
zero_start n = omega arith

zero_end : (n : ℕ) → n + 0 ≡ n
zero_end n = omega arith

add_suc : (a m : ℕ) → a + suc m ≡ (a + 1) + m
add_suc a m = omega arith

suc_add : (m n : ℕ) → suc m + n ≡ suc (m + n)
suc_add m n = omega arith

slice-append :
    (image : ℕ → ℕ) (start m n : ℕ)
    → slice image start m ++ slice image (start + m) n ≡ slice image start (m + n)
slice-append image start zero n = rw (zero_end start, zero_start n) refl
slice-append image start (suc m) n =
    rw (add_suc start m, suc_add m n)
      (ap (λ xs. image start ∷ xs) (slice-append image (start + 1) m n))

rejoin : (m n : ℕ) → m ≤ n → m + (n - m) ≡ n
rejoin m n le = omega arith

take-slice :
    (image : ℕ → ℕ) (start m n : ℕ) → take m (slice image start (m + n)) ≡ slice image start m
take-slice image start zero n = refl
take-slice image start (suc m) n =
    rw (suc_add m n) (ap (λ xs. image start ∷ xs) (take-slice image (start + 1) m n))

take-slice_le :
    (image : ℕ → ℕ) (start m n : ℕ) → m ≤ n → take m (slice image start n) ≡ slice image start m
take-slice_le image start m n le =
    subst (λ k. take m (slice image start k) ≡ slice image start m) (rejoin m n le)
      (take-slice image start m (n - m))

drop-slice :
    (image : ℕ → ℕ) (start m n : ℕ) → drop m (slice image start (m + n)) ≡ slice image (start + m) n
drop-slice image start zero n = rw (zero_end start, zero_start n) refl
drop-slice image start (suc m) n =
    rw (suc_add m n, add_suc start m) (drop-slice image (start + 1) m n)

read_rest-eq :
    (read : Driver) (sector_size lba rest : ℕ) (bytes : List ℕ)
    → read lba 1 ≡ some bytes
    → read_rest read sector_size lba rest ≡ some (take rest bytes)
unfolding read_rest
read_rest-eq read sector_size lba rest bytes e = rw (e, read_rest) refl

read_sectors-suc :
    (read : Driver) (sector_size count lba rest : ℕ) (xs ys : List ℕ)
    → read lba 1 ≡ some xs
    → read_sectors read sector_size count ((lba + 1) % u64_mod) rest ≡ some ys
    → read_sectors read sector_size (suc count) lba rest ≡ some (xs ++ ys)
unfolding read_sectors
read_sectors-suc read sector_size count lba rest xs ys e e' = rw (e, e', read_sectors) refl

-- A driver for a disk of `total` sectors, with a size in bytes that is a 64-bit number: a request for at
-- least one sector, and for sectors of the disk only, gives the bytes of an image. Nothing is said of
-- another request, which a driver refuses.
pub record Backed (image : ℕ → ℕ) (read : Driver) (sector_size total : ℕ) : Type 0 where
  pub not_zero : 0 < sector_size
  pub bytes : total * sector_size < u64_mod
  pub reads :
      (lba count : ℕ)
      → 0 < count
      → lba + count ≤ total
      → read lba count ≡ some (slice image (lba * sector_size) (count * sector_size))

module _ {image : ℕ → ℕ} {read : Driver} {sector_size total : ℕ}
    (backed : Backed image read sector_size total) where
  not_empty : (sector_size == 0) ≡ false
  not_empty = ground (arith, backed.not_zero)

  -- Sectors are on the disk where their bytes are.
  sectors_in :
      (a r : ℕ) → a * sector_size + r ≤ total * sector_size → (a ≤ total) × (0 < r → a < total)
  sectors_in a r le = elim (Bool-cases (ltb total a)) [
    | inl beyond ↦
        let more : suc total * sector_size ≤ a * sector_size =
          mul-le-mul_right sector_size (ground (arith, beyond)) in
        absurd (omega (arith, more, le, backed.not_zero))
    | inr within ↦ (
      ground (arith, within),
      λ some_left. elim (Bool-cases (a == total)) [
        | inl e ↦
            let same : a * sector_size ≡ total * sector_size =
              ap (λ m. m * sector_size) (ground (arith, e)) in
            absurd (omega (arith, same, le, some_left))
        | inr e ↦ ground (arith, within, e)
      ],
    )
  ]

  pub total-lt : total < u64_mod
  total-lt =
      let more : total * 1 ≤ total * sector_size = mul-le-mul_left total backed.not_zero in
      omega (arith, more, backed.bytes)

  read_one :
      (lba : ℕ) → lba < total → read lba 1 ≡ some (slice image (lba * sector_size) sector_size)
  read_one lba within =
      subst (λ n. read lba 1 ≡ some (slice image (lba * sector_size) n)) (one-mul sector_size)
        (backed.reads lba 1 (omega arith) (omega (arith, within)))

  read_sectors-slice :
      (count lba rest : ℕ)
      → rest < sector_size
      → lba + count < total
      → read_sectors read sector_size count lba rest
        ≡ some (slice image (lba * sector_size) (count * sector_size + rest))
  unfolding read_sectors
  read_sectors-slice zero lba rest small within =
      read_rest-eq read sector_size lba rest _ (read_one lba (omega (arith, within)))
      ∙ ap some (
          take-slice_le image (lba * sector_size) rest sector_size (omega (arith, small))
          ∙ ap (slice image (lba * sector_size)) (omega arith))
  read_sectors-slice (suc count) lba rest small within =
      let next : (lba + 1) % u64_mod ≡ lba + 1 = omega (arith, within, total-lt) in
      read_sectors-suc read sector_size count lba rest _ _ (read_one lba (omega (arith, within))) (
        ap (λ m. read_sectors read sector_size count m rest) next
        ∙ read_sectors-slice count (lba + 1) rest small (omega (arith, within)))
      ∙ ap some (
          ap
            (λ n.
              slice image (lba * sector_size) sector_size
              ++ slice image n (count * sector_size + rest))
            (omega arith)
          ∙ slice-append image (lba * sector_size) sector_size (count * sector_size + rest)
          ∙ ap (slice image (lba * sector_size)) (omega arith))

  whole : (n : ℕ) → (n % sector_size == 0) ≡ true → n / sector_size * sector_size ≡ n
  whole n e = ground (arith, e, div-add-mod' n sector_size)

  -- The sectors that a request of disk_read_lba needs.
  needed :
      (lba size : ℕ)
      → 0 < size
      → lba * sector_size + size ≤ total * sector_size
      → (lba + size / sector_size ≤ total)
        × (0 < size % sector_size → lba + size / sector_size < total)
        × ((size % sector_size == 0) ≡ true → 0 < size / sector_size)
  needed lba size more inside =
      let q = size / sector_size in
      let split = div-add-mod' size sector_size in
      let grouped : (lba + q) * sector_size ≡ lba * sector_size + q * sector_size =
        add-mul lba q sector_size in
      let (le, lt) =
        sectors_in (lba + q) (size % sector_size) (omega (arith, split, grouped, inside)) in
      (
        le,
        lt,
        λ e. elim (Bool-cases (q == 0)) [
          | inl z ↦
              let none_left : q * sector_size ≡ 0 =
                ap (λ m. m * sector_size) (ground (arith, z)) ∙ zero-mul sector_size in
              absurd (omega (arith, whole size e, none_left, more))
          | inr z ↦ ground (arith, z)
        ],
      )

  -- With a driver for a disk, disk_read_lba returns the bytes of the image from the given sector on, for
  -- every request of at least one byte of the disk, whether or not the size is a multiple of the
  -- sector's.
  pub read_lba-slice :
      (lba size : ℕ)
      → 0 < size
      → lba * sector_size + size ≤ total * sector_size
      → read_lba read sector_size lba size ≡ some (slice image (lba * sector_size) size)
  unfolding read_lba
  read_lba-slice lba size more inside =
      let (le, lt, some_sector) = needed lba size more inside in
      elim (Bool-cases (size % sector_size == 0)) [
        | inl e ↦
            rw (not_empty, e)
              (backed.reads lba (size / sector_size) (some_sector e) le
                ∙ ap (λ n. some (slice image (lba * sector_size) n)) (whole size e))
        | inr e ↦
            let left : 0 < size % sector_size = ground (arith, e) in
            rw (not_empty, e)
              (read_sectors-slice (size / sector_size) lba (size % sector_size)
                  (mod-lt size backed.not_zero) (lt left)
                ∙ ap (λ n. some (slice image (lba * sector_size) n))
                    (div-add-mod' size sector_size))
      ]

  -- With a driver for a disk of 64-bit size, which may refuse requests for no sector or for sectors
  -- behind the disk: for every request of at least one byte of the disk disk_read returns the bytes of
  -- the image, also where it starts or ends inside a sector.
  pub disk_read-slice :
      (offset size : ℕ)
      → 0 < size
      → offset + size ≤ total * sector_size
      → disk_read read sector_size offset size ≡ some (slice image offset size)
  unfolding disk_read
  disk_read-slice offset size more inside =
      let lba = offset / sector_size in
      let skip = offset % sector_size in
      let split = div-add-mod' offset sector_size in
      elim (Bool-cases (offset % sector_size == 0)) [
        | inl e ↦
            rw (not_empty, e)
              (read_lba-slice lba size more (omega (arith, whole offset e, inside))
                ∙ ap (λ n. some (slice image n size)) (whole offset e))
        | inr e ↦
            let same : (skip + size) % u64_mod ≡ skip + size =
              omega (arith, split, inside, backed.bytes) in
            rw
              (
                not_empty,
                e,
                same,
                read_lba-slice lba (skip + size) (omega (arith, more))
                    (omega (arith, split, inside)),
              )
              (ap some (
                ap (take size) (drop-slice image (lba * sector_size) skip size)
                ∙ take-slice_le image (lba * sector_size + skip) size size (omega arith)
                ∙ ap (λ n. slice image n size) split))
      ]
