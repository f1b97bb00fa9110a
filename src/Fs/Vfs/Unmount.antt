-- ===== src/Fs/Vfs/Unmount.antt =====
-- What stays of a mount, and of a node with a child.
use sdx.Prelude.{ℕ, suc, refl, false, none, some, [], arith, ◌≡◌, ◌≢◌, ◌∙◌, ◌==◌}
use sdx.Errno.{Errno, ok, err}
use sdx.Fs.Inode.{Inode, no_inode}
use sdx.Fs.Vfs.{Systems, Node, Tree, write_node, subtree_free, node_deleteable, vfs_node_put}
use sdx.Fs.Vfs.Siblings.{write_node-same, write_node-other}
use sdx.Fs.Vfs.Calls.{mounted, unmounted, mount_at, is_mount, umount_at}

-- A node with more references than one is kept.
put-busy :
    (fuel p r : ℕ) (s : Tree) (n : Node)
    → p ≢ 0
    → s.nodes p ≡ some (record n { refs = suc (suc r) })
    → vfs_node_put (suc fuel) p s
      ≡ some (
        err Errno.ebusy,
        record s { nodes = write_node p (some (record n { refs = suc r })) s.nodes },
      )
unfolding vfs_node_put node_deleteable
put-busy fuel p r s n np here =
    let not_null : (p == 0) ≡ false = ground (arith, np) in rw (not_null, here) ground arith

-- A node with exactly one reference, whose only child is a leaf without references, is not removed:
-- vfs_node_put takes the reference away and then fails with -EINVAL, since it looks for a sibling of
-- the child.
pub vfs_node_put-only_child :
    (fuel p c : ℕ) (s : Tree) (n m : Node)
    → p ≢ 0
    → c ≢ 0
    → c ≢ p
    → s.nodes p ≡ some (record n { refs = 1; child = c })
    → s.nodes c ≡ some (record m { refs = 0; child = 0; sibling = 0 })
    → vfs_node_put (suc (suc (suc fuel))) p s
      ≡ some (
        err Errno.einval,
        record s { nodes = write_node p (some (record n { refs = 0; child = c })) s.nodes },
      )
unfolding vfs_node_put node_deleteable subtree_free
vfs_node_put-only_child fuel p c s n m np nc apart here below =
    let not_null : (p == 0) ≡ false = ground (arith, np) in
    let has_child : (c == 0) ≡ false = ground (arith, nc) in
    let kept : write_node p (some (record n { refs = 0; child = c })) s.nodes c
        ≡ some (record m { refs = 0; child = 0; sibling = 0 }) =
      write_node-other p c _ s.nodes apart ∙ below in
    rw (not_null, here) rw (has_child, kept) rw (has_child, kept) refl

module _ (systems : Systems) (nodes : ℕ) where
  -- The changes of vfs_mount and vfs_umount to a node below the root with three references or more,
  -- with a file system that has a root inode and is not the parent's: mounting succeeds, and unmounting
  -- reports -EBUSY. Then the node has its file system again, but keeps the inode of the file system
  -- that is gone.
  pub umount_at-mount_at :
      (p fs r : ℕ) (s : Tree) (n up : Node) (root : Inode)
      → p ≢ 0
      → n.parent ≢ 0
      → n.parent ≢ p
      → n.fs ≢ 0
      → fs ≢ up.fs
      → s.nodes p ≡ some (record n { refs = suc (suc (suc r)) })
      → s.nodes n.parent ≡ some up
      → systems.namei fs none [] ≡ ok root
      → (s' : Tree) × (s'' : Tree) × (mount_at systems nodes p fs s ≡ some (ok tt, s'))
        × (umount_at systems nodes p s' ≡ some (err Errno.ebusy, s''))
        × (s''.nodes p
            ≡ some (record n { refs = suc r; inode = root; mount = no_inode; mount_fs = 0 }))
  unfolding mount_at umount_at is_mount mounted unmounted
  umount_at-mount_at p fs r s n up root np nparent apart has_fs other here above made =
      let m : Node = record n { refs = suc (suc (suc r)) } in
      let s' : Tree = record s { nodes = write_node p (some (mounted fs root m)) s.nodes } in
      let u : Node = record n { inode = root; mount = no_inode; mount_fs = 0 } in
      let t : Tree = record s' {
        nodes = write_node p (some (record u { refs = suc (suc (suc r)) })) (s'.nodes);
      } in
      let t' : Tree = record t {
        nodes = write_node p (some (record u { refs = suc (suc r) })) (t.nodes);
      } in
      let once = put-busy nodes p (suc r) t u np (write_node-same p _ (s'.nodes)) in
      let twice = put-busy nodes p r t' u np (write_node-same p _ (t.nodes)) in
      let not_root : (n.parent == 0) ≡ false = ground (arith, nparent) in
      let differs : (fs == up.fs) ≡ false = ground (arith, other) in
      let was_mounted : (n.fs == 0) ≡ false = ground (arith, has_fs) in
      let at_p : s'.nodes p ≡ some (mounted fs root m) = write_node-same p _ s.nodes in
      let at_parent : s'.nodes n.parent ≡ some up =
        write_node-other p n.parent _ s.nodes apart ∙ above in
      (
        s',
        record t' { nodes = write_node p (some (record u { refs = suc r })) (t'.nodes) },
        rw (mount_at, here, made) refl,
        rw (umount_at, at_p) rw (is_mount, not_root, at_parent, differs, was_mounted) rw (once)
            twice,
        write_node-same p _ (t'.nodes),
      )
