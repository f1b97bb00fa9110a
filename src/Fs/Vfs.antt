-- ===== src/Fs/Vfs.antt =====
-- The tree of nodes of the virtual file system: kernel/fs/vfs/node.c. Nodes are on a heap by their
-- addresses, 0 is NULL, and `none` stands for a pointer that leads nowhere, a write outside of an
-- array, or fuel that ran out. A walk over the tree takes the number of nodes as its fuel. A file system
-- is a number, and an interface gives its calls; a name is the list of its bytes.
pub mod Path
pub mod Calls
pub mod Lookup
pub mod Siblings
pub mod Leaf
pub mod Unmount
use sdx.Prelude.{
  ℕ, zero, suc, Bool, true, false, not, Option, none, some, List, [], take, ◌+◌, ◌-◌, ◌%◌, ◌^◌,
  ◌&&◌, ◌∷◌, ◌==◌, if◌then◌else◌,
}
use sdx.Errno.{Errno, Result, ok, err}
use sdx.Fs.Inode.{Inode, no_inode}

-- The calls of the file systems: `fs_namei`, `fs_open` and `fs_close` of kernel/fs/fs.c.
pub record Systems : Type 0 where
  pub namei : (fs : ℕ) (dir : Option Inode) (name : List ℕ) → Result Inode
  pub open_file : (fs : ℕ) → Inode → Result (Unit {0})
  pub close_file : (fs : ℕ) → Inode → Result (Unit {0})

-- `vfs_node_t`
pub record Node : Type 0 where
  pub fs : ℕ
  pub inode : Inode
  pub name : List ℕ
  pub refs : ℕ
  pub mount_fs : ℕ
  pub mount : Inode
  pub parent : ℕ
  pub child : ℕ
  pub sibling : ℕ

abbrev pub Nodes : Type 0
Nodes = ℕ → Option Node

-- `vfs_root`, the nodes, and the addresses that heap_alloc will give out; it gives NULL behind them.
pub record Tree : Type 0 where
  pub root : ℕ
  pub nodes : Nodes
  pub memory : List ℕ

unfoldable pub write_node : ℕ → Option Node → Nodes → Nodes
write_node p n nodes a = if a == p then n else nodes a

-- A change of the node behind a pointer.
unfoldable pub update : ℕ → (Node → Node) → Tree → Option Tree
update p f s = elim (s.nodes p) [
  | none ↦ none
  | some n ↦ some (record s { nodes = write_node p (some (f n)) s.nodes })
]

-- strcmp of two strings gives 0.
unfoldable pub same_string : (s t : List ℕ) → Bool
same_string [] [] = true
same_string [] (d ∷ ds) = false
same_string (c ∷ cs) [] = false
same_string (c ∷ cs) (d ∷ ds) = c == d && same_string cs ds

-- The node that `vfs_node_new` sets up.
unfoldable pub new_node : (parent sibling fs : ℕ) (name : List ℕ) → Inode → Node
new_node parent sibling fs name inode = record {
  fs = fs;
  inode = inode;
  name = take 255 name;
  refs = 0;
  mount_fs = 0;
  mount = no_inode;
  parent = parent;
  child = 0;
  sibling = sibling;
}

-- The link of a node behind its parent.
unfoldable pub attach : (parent fs : ℕ) (name : List ℕ) → Inode → Tree → Option (ℕ × Tree)
attach parent fs name inode s = elim (s.memory) [
  | [] ↦ some (0, s)
  | p ∷ ps ↦
      if p == 0
      then some (0, record s { memory = ps })
      else if parent == 0
      then some (
        p,
        record {
          root = p;
          nodes = write_node p (some (new_node 0 0 fs name inode)) s.nodes;
          memory = ps;
        },
      )
      else elim (s.nodes parent) [
        | none ↦ none
        | some up ↦ some (
          p,
          record {
            root = s.root;
            nodes =
                write_node parent (some (record up { child = p }))
                  (write_node p (some (new_node parent up.child fs name inode)) s.nodes);
            memory = ps;
          },
        )
      ]
]

module _ (systems : Systems) where
  -- `vfs_node_new`; the pointer is 0 for NULL.
  unfoldable pub vfs_node_new : (parent fs : ℕ) (name : List ℕ) → Tree → Option (ℕ × Tree)
  vfs_node_new parent fs name s =
      let made : Option Inode → Option (ℕ × Tree) = λ dir. elim (systems.namei fs dir name) [
        | err e ↦ some (0, s)
        | ok inode ↦ attach parent fs name inode s
      ] in
      if fs == 0
      then some (0, s)
      else if parent == 0
      then made none
      else elim (s.nodes parent) [ none ↦ none | some up ↦ made (some up.inode) ]

-- The walk over the siblings from a node on: the one with the name, or NULL.
unfoldable pub find_child : (fuel p : ℕ) (name : List ℕ) → Nodes → Option ℕ
find_child zero p name nodes = if p == 0 then some 0 else none
find_child (suc fuel) p name nodes = if p == 0 then some 0 else elim (nodes p) [
  | none ↦ none
  | some n ↦
      let later = find_child fuel n.sibling name nodes in
      if same_string n.name name then some p else later
]

-- `cur->ref_count++`, where there is a node.
unfoldable pub take_ref : ℕ → Tree → Option (ℕ × Tree)
take_ref p s =
    if p == 0
    then some (0, s)
    else elim (update p (λ n. record n { refs = (n.refs + 1) % 2 ^ 64 }) s) [
      | none ↦ none
      | some s' ↦ some (p, s')
    ]

module _ (systems : Systems) where
  unfoldable pub vfs_node_get : (fuel parent : ℕ) (name : List ℕ) → Tree → Option (ℕ × Tree)
  vfs_node_get fuel parent name s =
      if parent == 0 then take_ref s.root s else elim (s.nodes parent) [
        | none ↦ none
        | some up ↦ elim (find_child fuel up.child name s.nodes) [
          | none ↦ none
          | some p ↦
              if p == 0
              then elim (vfs_node_new systems parent up.fs name s) [
                | none ↦ none
                | some (fresh, s') ↦ take_ref fresh s'
              ]
              else take_ref p s
        ]
      ]

-- No node from a sibling on is referred to, nor one below.
unfoldable pub subtree_free : (fuel p : ℕ) → Nodes → Option Bool
subtree_free zero p nodes = if p == 0 then some true else none
subtree_free (suc fuel) p nodes = if p == 0 then some true else elim (nodes p) [
  | none ↦ none
  | some n ↦
      let below = subtree_free fuel n.child nodes in
      let later = subtree_free fuel n.sibling nodes in
      if not (n.refs == 0)
      then some false
      else elim below [ none ↦ none | some true ↦ later | some false ↦ some false ]
]

-- `__vfs_node_deleteable`
unfoldable pub node_deleteable : (fuel : ℕ) → Node → Nodes → Option Bool
node_deleteable fuel n nodes =
    if not (n.refs == 0) then some false else subtree_free fuel n.child nodes

-- The loop that takes a node off the list of its parent's children; it goes on behind the node.
unfoldable pub unlink_child : (fuel parent node prev trav : ℕ) → Tree → Option Tree
unlink_child zero parent node prev trav s = if trav == 0 then some s else none
unlink_child (suc fuel) parent node prev trav s =
    if trav == 0 then some s else elim (s.nodes trav) [
      | none ↦ none
      | some n ↦
          let changed =
            if not (trav == node)
            then some s
            else if prev == 0
            then update parent (λ up. record up { child = n.sibling }) s
            else update prev (λ before. record before { sibling = n.sibling }) s in
          elim changed [ none ↦ none | some s' ↦ unlink_child fuel parent node trav n.sibling s' ]
    ]

-- The end of `vfs_node_put`: the links to the node, and its memory.
unfoldable pub remove : (fuel prev p : ℕ) → Node → Tree → Option Tree
remove fuel prev p n s =
    if n.parent == 0
    then some (record s { root = 0; nodes = write_node p none s.nodes })
    else elim (s.nodes n.parent) [
      | none ↦ none
      | some up ↦ elim (unlink_child fuel n.parent p prev up.child s) [
        | none ↦ none
        | some s' ↦ some (record s' { nodes = write_node p none s'.nodes })
      ]
    ]

unfoldable mutual
  -- `vfs_node_put`
  pub vfs_node_put : (fuel p : ℕ) → Tree → Option (Result (Unit {0}) × Tree)
  vfs_node_put zero p s = none
  vfs_node_put (suc fuel) p s = if p == 0 then some (err Errno.einval, s) else elim (s.nodes p) [
    | none ↦ none
    | some old ↦
        let n : Node = record old { refs = old.refs - 1 } in
        let s' : Tree = record s { nodes = write_node p (some n) s.nodes } in
        elim (node_deleteable fuel n s'.nodes) [
          | none ↦ none
          | some false ↦ some (err Errno.ebusy, s')
          | some true ↦ put_children fuel p n 0 n.child s'
        ]
  ]

  -- The loop over the children of a node, and what follows it.
  pub put_children :
      (fuel p : ℕ) → Node → (prev trav : ℕ) → Tree → Option (Result (Unit {0}) × Tree)
  put_children zero p n prev trav s = none
  put_children (suc fuel) p n prev trav s =
      if trav == 0
      then elim (remove fuel prev p n s) [ none ↦ none | some s' ↦ some (ok tt, s') ]
      else elim (s.nodes trav) [
        | none ↦ none
        | some t ↦ elim (vfs_node_put fuel t.sibling s) [
          | none ↦ none
          | some (err e, s') ↦ some (err e, s')
          | some (ok u, s') ↦ put_children fuel p n trav t.sibling s'
        ]
      ]
