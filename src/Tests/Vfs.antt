-- ===== src/Tests/Vfs.antt =====
-- kernel/fs/vfs at concrete inputs.
use sdx.Prelude.{ℕ, refl, none, some, List, [], arith, ◌≡◌, ◌∷◌, ◌==◌, if◌then◌else◌}
use sdx.Errno.{Errno, ok, err}
use sdx.Fs.Inode.{Inode, EntryType, no_inode}
use sdx.Fs.Vfs.{
  Systems, Node, Nodes, Tree, find_child, same_string, take_ref, vfs_node_get, vfs_node_put,
  write_node,
}
use sdx.Fs.Vfs.Path.{vfs_find}
use sdx.Fs.Vfs.Calls.{mount_at, umount_at}
use sdx.Fs.Vfs.Lookup.{names_nothing, split, kept, components, ShortNames, follow, vfs_find-follow}
use sdx.Fs.Vfs.Siblings.{Chain}
use sdx.Fs.Vfs.Leaf.{vfs_node_put-vfs_node_get}
use sdx.Fs.Vfs.Unmount.{vfs_node_put-only_child, umount_at-mount_at}

-- A file system in which every name is a directory.
abbrev dir_inode : Inode
dir_inode = record no_inode { type = EntryType.dir_entry; addr = 7 }

abbrev systems : Systems
systems = record {
  namei = λ fs dir name. ok dir_inode;
  open_file = λ fs inode. ok tt;
  close_file = λ fs inode. ok tt;
}

-- The root at 1 has the child "a" at 2.
abbrev root_node : Node
root_node = record {
  fs = 9;
  inode = dir_inode;
  name = [];
  refs = 1;
  mount_fs = 0;
  mount = no_inode;
  parent = 0;
  child = 2;
  sibling = 0;
}

abbrev child_node : Node
child_node = record {
  fs = 9;
  inode = dir_inode;
  name = 0x61 ∷ [];
  refs = 0;
  mount_fs = 0;
  mount = no_inode;
  parent = 1;
  child = 0;
  sibling = 0;
}

abbrev tree : Nodes
tree p = if p == 1 then some root_node else if p == 2 then some child_node else none

abbrev vfs : Tree
vfs = record { root = 1; nodes = tree; memory = 5 ∷ [] }

-- "//a/./"
abbrev long_path : List ℕ
long_path = 0x2f ∷ 0x61 ∷ 0x2f ∷ 0x2e ∷ 0x2f ∷ []

fitting_names : ShortNames long_path
unfolding split
fitting_names = (omega arith, (omega arith, (omega arith, (omega arith, tt))))

vfs_find-follow_example : vfs_find systems 4 (0x2f ∷ long_path) vfs ≡ (elim (take_ref 1 vfs) [
  | none ↦ none
  | some (cur, s') ↦ follow systems 4 cur (components long_path) s'
])
vfs_find-follow_example = vfs_find-follow systems 4 long_path vfs fitting_names

components_run : components long_path ≡ (0x61 ∷ []) ∷ []
unfolding split kept names_nothing
components_run = refl

-- The name "b", which the root does not have.
absent_run : find_child 3 2 (0x62 ∷ []) tree ≡ some 0
unfolding find_child same_string
absent_run = refl

one_child : Chain 1 2 tree
one_child = (omega arith, child_node, refl, refl)

vfs_node_put-vfs_node_get_example :
    (s' : Tree) × (s'' : Tree) × (vfs_node_get systems 3 1 (0x62 ∷ []) vfs ≡ some (5, s'))
    × (vfs_node_put 6 5 s' ≡ some (ok tt, s''))
    × ((a : ℕ) → s''.nodes a ≡ tree a)
    × (s''.root ≡ 1)
vfs_node_put-vfs_node_get_example =
    vfs_node_put-vfs_node_get systems 3 1 1 5 (0x62 ∷ []) [] vfs root_node dir_inode (omega arith)
      refl absent_run (omega arith) refl refl (omega arith) refl one_child (omega arith)

vfs_node_put-only_child_example :
    vfs_node_put 3 1 vfs
    ≡ some (
      err Errno.einval,
      record vfs { nodes = write_node 1 (some (record root_node { refs = 0 })) tree },
    )
vfs_node_put-only_child_example =
    vfs_node_put-only_child 0 1 2 vfs root_node child_node (omega arith) (omega arith) (omega arith)
      refl refl

-- The child "a" with three references.
abbrev used_child : Node
used_child = record child_node { refs = 3 }

abbrev used_vfs : Tree
used_vfs = record vfs {
  nodes = λ p. if p == 1 then some root_node else if p == 2 then some used_child else none;
}

umount_at-mount_at_example :
    (s' : Tree) × (s'' : Tree) × (mount_at systems 4 2 8 used_vfs ≡ some (ok tt, s'))
    × (umount_at systems 4 2 s' ≡ some (err Errno.ebusy, s''))
    × (s''.nodes 2
        ≡ some (record used_child { refs = 1; inode = dir_inode; mount = no_inode; mount_fs = 0 }))
umount_at-mount_at_example =
    umount_at-mount_at systems 4 2 8 0 used_vfs used_child root_node dir_inode (omega arith)
      (omega arith) (omega arith) (omega arith) (omega arith) refl refl refl
