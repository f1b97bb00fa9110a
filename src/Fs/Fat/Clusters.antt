-- ===== src/Fs/Fat/Clusters.antt =====
-- The places of clusters on the disk, and the chain that a file follows.
use sdx.Prelude.{
  ℕ, zero, suc, refl, ap, inr, true, false, some, arith, ltb, lt→ltb, ◌+◌, ◌-◌, ◌*◌, ◌≤◌, ◌<◌, ◌≡◌,
  ◌≢◌, ◌⊎◌, ◌∙◌, ◌==◌,
}
use sdx.Errno.{ok}
use sdx.Util.Math.{u64_mod}
use sdx.Disk.{Driver}
use sdx.Disk.Image.{slice, Backed}
use sdx.Fs.Fat.Table.{fat_next, InTable, fat32_cluster_next-fat_next}
use sdx.Fs.Fat.{Volume, u64, bytes_per_cluster, cluster_to_sector, cluster_to_bytes}
use sdx.Fs.Fat.Files.{skip_clusters}

-- Two slices are equal where their bytes are.
pub slice-ext :
    (f g : ℕ → ℕ) (a b n : ℕ)
    → ((i : ℕ) → i < n → f (a + i) ≡ g (b + i))
    → slice f a n ≡ slice g b n
slice-ext f g a b zero same = refl
slice-ext f g a b (suc n) same =
    let first : f a ≡ g b = ap f (omega arith) ∙ same 0 (omega arith) ∙ ap g (omega arith) in
    let rest =
      slice-ext f g (a + 1) (b + 1) n
        (λ i less. ap f (omega arith) ∙ same (suc i) (omega (arith, less)) ∙ ap g (omega arith)) in
    rw (first, rest) refl

-- The first sector of a cluster, without the wrap-around.
abbrev pub plain_sector : Volume → ℕ → ℕ
plain_sector v c = v.first_data_sector + v.cluster_sector_count * (c - 2)

-- A cluster of the data, the bytes of which are on a disk of `total` sectors.
pub record InRange (v : Volume) (total c : ℕ) : Type 0 where
  pub is_data : 2 ≤ c
  pub number : c < u64_mod
  pub sectors : v.start + plain_sector v c < u64_mod
  pub bytes :
      plain_sector v c * v.sector_size + v.start * v.sector_size + bytes_per_cluster v
      ≤ total * v.sector_size

pub u64_small : (n : ℕ) → n < u64_mod → u64 n ≡ n
u64_small n less = omega (arith, less)

u64_back : (c : ℕ) → 2 ≤ c → c < u64_mod → u64 (c + u64_mod - 2) ≡ c - 2
u64_back c ge less = omega (arith, ge, less)

less_left : (a b m : ℕ) → a + b < m → b < m
less_left a b m less = omega (arith, less)

less_first : (a b c m : ℕ) → a + b + c < m → a < m
less_first a b c m less = omega (arith, less)

cluster_to_sector-eq :
    {total : ℕ} (v : Volume) (c : ℕ) → InRange v total c → cluster_to_sector v c ≡ plain_sector v c
unfolding cluster_to_sector
cluster_to_sector-eq v c inside =
    rw (u64_back c inside.is_data inside.number)
      (u64_small (plain_sector v c) (less_left v.start (plain_sector v c) u64_mod inside.sectors))

pub cluster_to_bytes-eq :
    {total : ℕ} (v : Volume) (c : ℕ)
    → total * v.sector_size < u64_mod
    → InRange v total c
    → cluster_to_bytes v c ≡ plain_sector v c * v.sector_size
unfolding cluster_to_bytes
cluster_to_bytes-eq v c disk inside = rw (cluster_to_sector-eq v c inside) (
    u64_small _ (
      less_first _ (v.start * v.sector_size) (bytes_per_cluster v) u64_mod
        (omega (arith, inside.bytes, disk))))

past : (k n r : ℕ) → 0 < r → ltb n (suc k * n + r) ≡ true
past k n r more = lt→ltb n (suc k * n + r) (omega (arith, more))

one_less : (k n r : ℕ) → suc k * n + r - n ≡ k * n + r
one_less k n r = omega arith

module _ (image : ℕ → ℕ) (v : Volume) where
  -- The cluster `k` links behind another one, by the table on the disk.
  unfoldable pub chain : (c k : ℕ) → ℕ
  chain c zero = c
  chain c (suc k) = chain (fat_next image v c) k

  -- There are `k` links, by entries in the first sector of the table.
  abbrev pub Linked : (total c k : ℕ) → Type 0
  Linked total c zero = Unit
  Linked total c (suc k) =
      InTable v total c × (fat_next image v c ≢ 0) × Linked total (fat_next image v c) k

module _ {image : ℕ → ℕ} {read : Driver} (v : Volume) {total : ℕ}
    (backed : Backed image read v.sector_size total) where
  -- The loop over the clusters in front of an offset follows the links, and stops in the cluster of
  -- the byte in front of the offset.
  pub skip_clusters-chain :
      (fuel c k r : ℕ)
      → r ≤ bytes_per_cluster v
      → (k ≡ 0) ⊎ (0 < r)
      → Linked image v total c k
      → k < fuel
      → skip_clusters read v fuel c (k * bytes_per_cluster v + r) ≡ some (ok (chain image v c k, r))
  unfolding skip_clusters chain
  skip_clusters-chain zero c k r le behind linked less = absurd (omega (arith, less))
  skip_clusters-chain (suc fuel) c zero r le behind linked less = ground (arith, le)
  skip_clusters-chain (suc fuel) c (suc k) r le behind (entry, ne, linked) less =
      let more : 0 < r = ground (arith, behind) in
      let later =
        skip_clusters-chain fuel (fat_next image v c) k r le (inr more) linked
          (omega (arith, less)) in
      let beyond = past k (bytes_per_cluster v) r more in
      let linked_on : (fat_next image v c == 0) ≡ false = ground (arith, ne) in
      rw
        (
          beyond,
          fat32_cluster_next-fat_next v c backed entry,
          linked_on,
          one_less k (bytes_per_cluster v) r,
        )
        later
