-- ===== src/Fs/Vfs/Path.antt =====
-- Looking up a path: __vfs_find of kernel/fs/vfs/vfs.c. A path is the list of its bytes before the
-- terminator.
use sdx.Prelude.{
  ℕ, zero, suc, Bool, true, not, Option, none, some, List, [], ltb, length, ◌+◌, ◌∷◌, ◌==◌,
  if◌then◌else◌,
}
use sdx.Fs.Vfs.{Systems, Tree, same_string, vfs_node_get, vfs_node_put}

-- `__vfs_path_next` from the index `i` of the name on: the name and the rest of the path. The result is
-- `some none` where the name is too long and the lookup returns NULL, and `none` where the terminator
-- is written behind the array of the name.
unfoldable pub next_name : (i : ℕ) (path : List ℕ) → Option (Option (List ℕ × List ℕ))
next_name i [] = if ltb 255 i then none else some (some ([], []))
next_name i (c ∷ cs) =
    let rest = next_name (i + 1) cs in
    if ltb 255 i then some none else if c == 0x2f then some (some ([], cs)) else elim rest [
      | none ↦ none
      | some none ↦ some none
      | some (some (name, left)) ↦ some (some (c ∷ name, left))
    ]

-- "." and ".."
abbrev pub dot : List ℕ
dot = 0x2e ∷ []

abbrev pub dots : List ℕ
dots = 0x2e ∷ 0x2e ∷ []

-- A name that the walk passes over: "" or ".".
unfoldable pub is_skipped : (name : List ℕ) → Bool
is_skipped [] = true
is_skipped (c ∷ cs) = same_string (c ∷ cs) dot

module _ (systems : Systems) (nodes : ℕ) where
  -- What the walk does with a name that it does not pass over.
  unfoldable pub step : (cur : ℕ) (name : List ℕ) → Tree → Option (ℕ × Tree)
  step cur name s =
      if same_string name dots
      then elim (s.nodes cur) [
        | none ↦ none
        | some n ↦ some (if n.parent == 0 then cur else n.parent, s)
      ]
      else elim (vfs_node_get systems nodes cur name s) [
        | none ↦ none
        | some (next, s') ↦ elim (vfs_node_put (suc nodes) cur s') [
          | none ↦ none
          | some (r, s'') ↦ some (next, s'')
        ]
      ]

  -- The loop over the names of the path.
  unfoldable pub walk_path : (fuel cur : ℕ) (path : List ℕ) → Tree → Option (ℕ × Tree)
  walk_path fuel cur [] s = some (cur, s)
  walk_path zero cur (c ∷ cs) s = none
  walk_path (suc fuel) cur (c ∷ cs) s =
      if cur == 0 then some (0, s) else elim (next_name 0 (c ∷ cs)) [
        | none ↦ none
        | some none ↦ some (0, s)
        | some (some (name, rest)) ↦
            if is_skipped name then walk_path fuel cur rest s else elim (step cur name s) [
              | none ↦ none
              | some (next, s') ↦ walk_path fuel next rest s'
            ]
      ]

  -- `__vfs_find`; a path that does not start at the root is not found.
  unfoldable pub vfs_find : (path : List ℕ) → Tree → Option (ℕ × Tree)
  vfs_find [] s = some (0, s)
  vfs_find (c ∷ path) s =
      if not (c == 0x2f) then some (0, s) else elim (vfs_node_get systems nodes 0 [] s) [
        | none ↦ none
        | some (cur, s') ↦ walk_path (length path) cur path s'
      ]
