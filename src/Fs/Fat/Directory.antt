-- ===== src/Fs/Fat/Directory.antt =====
-- The walks over a directory: fat32_entry_get and fat32_entry_from of kernel/fs/fat32/entry.c. A
-- cluster is the list of its entries; the walk over the chain of clusters takes fuel.
use sdx.Prelude.{
  ℕ, zero, suc, Bool, not, Option, none, some, List, [], ltb, length, take, drop, ◌+◌, ◌-◌, ◌/◌,
  ◌&&◌, ◌||◌, ◌∷◌, ◌==◌, if◌then◌else◌,
}
use sdx.Errno.{Errno, Result, ok, err}
use sdx.Util.Strings.{Memory}
use sdx.Disk.{Driver}
use sdx.Fs.Fat.{Volume, bytes_per_cluster, read_cluster, fat32_cluster_next}
use sdx.Fs.Fat.Names.{Entry, entry_is_last, entry_is_unused, is_lfn, entry_name, name_max}

-- The entries in the bytes of a cluster.
unfoldable pub entries_of : (count : ℕ) → List ℕ → List Entry
entries_of zero bytes = []
entries_of (suc count) bytes = take 32 bytes ∷ entries_of count (drop 32 bytes)

-- How the walk over one cluster ends: at its last entry, or at what it looks for.
pub data Walk (A : Type 0) : Type 0 where
  at_end : A → Walk A
  found : List Entry → Walk A

-- The loop of fat32_entry_get over a cluster, with the offset that is left.
unfoldable pub walk_get : List Entry → (offset : ℕ) → Option (Walk ℕ)
walk_get [] offset = none
walk_get (e ∷ es) offset =
    let skipped = entry_is_unused e || not (offset == 0) && is_lfn e in
    let later = walk_get es (if skipped then offset else offset - 1) in
    if entry_is_last e
    then some (at_end offset)
    else if skipped
    then later
    else if offset == 0
    then some (found (e ∷ es))
    else later

-- strcmp of the buffer, from an index on, with a name gives 0.
unfoldable pub same_name : Memory → (index : ℕ) → (name : List ℕ) → Bool
same_name buffer i [] = buffer i == 0
same_name buffer i (c ∷ cs) = buffer i == c && same_name buffer (i + 1) cs

abbrev rest_of : List Entry → List Entry
rest_of [] = []
rest_of (e ∷ es) = es

-- The loop of fat32_entry_from over a cluster, with the name's buffer. It goes on behind the entry at
-- which the last name ended, so its fuel is the number of entries.
unfoldable pub walk_from : (fuel : ℕ) → (name : List ℕ) → List Entry → Memory → Option (Walk Memory)
walk_from zero name es buffer = none
walk_from (suc fuel) name [] buffer = none
walk_from (suc fuel) name (e ∷ es) buffer =
    if entry_is_last e
    then some (at_end buffer)
    else if entry_is_unused e
    then walk_from fuel name es buffer
    else elim (entry_name (length name + 1) (e ∷ es) buffer) [
      | none ↦ none
      | some n ↦
          let later = walk_from fuel name (rest_of n.entries) n.naming.name in
          elim (n.result) [
            | err e' ↦ later
            | ok u ↦ if same_name n.naming.name 0 name then some (found n.entries) else later
          ]
    ]

module _ (read : Driver) (v : Volume) where
  -- The entries of a cluster, where it can be read.
  unfoldable pub cluster_entries : ℕ → Option (List Entry)
  cluster_entries cluster = elim (read_cluster read v cluster) [
    | none ↦ none
    | some bytes ↦ some (entries_of (bytes_per_cluster v / 32) bytes)
  ]

  unfoldable pub fat32_entry_get :
      (fuel cluster offset size : ℕ) → Memory → Option (Memory × Result ℕ)
  fat32_entry_get zero cluster offset size buffer = none
  fat32_entry_get (suc fuel) cluster offset size buffer = elim (cluster_entries cluster) [
    | none ↦ some (buffer, err Errno.efault)
    | some es ↦ elim (walk_get es offset) [
      | none ↦ none
      | some (at_end rest) ↦
          let next = fat32_cluster_next read v cluster in
          let later = fat32_entry_get fuel next rest size buffer in
          if next == 0 then some (buffer, err Errno.erange) else later
      | some (found here) ↦ elim (entry_name size here buffer) [
        | none ↦ none
        | some n ↦ elim (n.result) [
          | err e ↦ some (n.naming.name, err e)
          | ok u ↦ some (n.naming.name, ok n.naming.index)
        ]
      ]
    ]
  ]

  -- The walk over the clusters of fat32_entry_from.
  unfoldable pub entry_from :
      (fuel : ℕ) → (name : List ℕ) → (cluster : ℕ) → Memory → Option (Result Entry)
  entry_from zero name cluster buffer = none
  entry_from (suc fuel) name cluster buffer = elim (cluster_entries cluster) [
    | none ↦ some (err Errno.efault)
    | some es ↦ elim (walk_from (suc (length es)) name es buffer) [
      | none ↦ none
      | some (at_end later_buffer) ↦
          let next = fat32_cluster_next read v cluster in
          let later = entry_from fuel name next later_buffer in
          if next == 0 then some (err Errno.enoent) else later
      | some (found []) ↦ none
      | some (found (e ∷ rest)) ↦ some (ok e)
    ]
  ]

  -- `name` is the string before its terminator; `buffer` is what the stack has in `name_buffer`.
  unfoldable pub fat32_entry_from :
      (fuel cluster : ℕ) → (name : List ℕ) → Memory → Option (Result Entry)
  fat32_entry_from fuel cluster name buffer =
      if ltb (name_max + 1) (length name + 1)
      then some (err Errno.enametoolong)
      else entry_from fuel name cluster buffer
