-- ===== src/Fs/Vfs/Calls.antt =====
-- The calls of the virtual file system: kernel/fs/vfs/vfs.c.
use sdx.Prelude.{
  ℕ, suc, Bool, true, false, not, Option, none, some, List, [], ◌&&◌, ◌||◌, ◌∷◌, ◌==◌,
  if◌then◌else◌,
}
use sdx.Errno.{Errno, Result, ok, err}
use sdx.Fs.Inode.{Inode, EntryType, no_inode}
use sdx.Fs.Vfs.{Systems, Node, Tree, write_node, same_string, take_ref, vfs_node_new, vfs_node_put}
use sdx.Fs.Vfs.Path.{vfs_find}

-- `vfs_node_is_directory`
unfoldable pub is_directory : Inode → Bool
is_directory i = elim (i.type) [ EntryType.dir_entry ↦ true | _ ↦ false ]

-- The changes of `vfs_mount` and `vfs_umount` to a node; `root` is the root inode of the file system.
unfoldable pub mounted : (fs : ℕ) (root : Inode) → Node → Node
mounted fs root n = record n { inode = root; mount_fs = n.fs; fs = fs }

unfoldable pub unmounted : Node → Node
unmounted n = record n { fs = n.mount_fs; mount_fs = 0; mount = no_inode }

-- A node that is still in use is no failure.
abbrev pub not_busy : Result (Unit {0}) → Result (Unit {0})
not_busy (err Errno.ebusy) = ok tt
not_busy r = r

module _ (systems : Systems) (nodes : ℕ) where
  -- `vfs_open`: the node, and the result of the call; a node that cannot be opened is given back.
  unfoldable pub vfs_open : (path : List ℕ) → Tree → Option (Result ℕ × Tree)
  vfs_open [] s = some (err Errno.einval, s)
  vfs_open (c ∷ path) s = elim (vfs_find systems nodes (c ∷ path) s) [
    | none ↦ none
    | some (p, s') ↦ if p == 0 then some (err Errno.enoent, s') else elim (s'.nodes p) [
      | none ↦ none
      | some n ↦ elim (systems.open_file n.fs n.inode) [
        | ok u ↦ some (ok p, s')
        | err e ↦ elim (vfs_node_put (suc nodes) p s') [
          | none ↦ none
          | some (r, s'') ↦ some (err e, s'')
        ]
      ]
    ]
  ]

  unfoldable pub vfs_close : (node : ℕ) → Tree → Option (Result (Unit {0}) × Tree)
  vfs_close p s = if p == 0 then some (err Errno.einval, s) else elim (s.nodes p) [
    | none ↦ none
    | some n ↦ elim (systems.close_file n.fs n.inode) [
      | err e ↦ some (err e, s)
      | ok u ↦ elim (vfs_node_put (suc nodes) p s) [
        | none ↦ none
        | some (r, s') ↦ some (not_busy r, s')
      ]
    ]
  ]

  -- The mount point: a new root with a reference, or the node of the path, which has to be a directory.
  unfoldable pub mount_point : (path : List ℕ) (fs : ℕ) → Tree → Option (Result ℕ × Tree)
  mount_point path fs s =
      if same_string path (0x2f ∷ [])
      then elim (vfs_node_new systems 0 fs [] s) [
        | none ↦ none
        | some (p, s') ↦
            if p == 0
            then some (err Errno.enomem, s')
            else elim (take_ref p s') [ none ↦ none | some (q, s'') ↦ some (ok q, s'') ]
      ]
      else elim (vfs_find systems nodes path s) [
        | none ↦ none
        | some (p, s') ↦ if p == 0 then some (err Errno.enoent, s') else elim (s'.nodes p) [
          | none ↦ none
          | some n ↦ if is_directory n.inode then some (ok p, s') else some (err Errno.einval, s')
        ]
      ]

  -- The change of a mount point. Its inode is first overwritten with the field `mount`; where fs_namei
  -- fails it stays so, for a file system that leaves the result alone.
  unfoldable pub mount_at : (p fs : ℕ) → Tree → Option (Result (Unit {0}) × Tree)
  mount_at p fs s = elim (s.nodes p) [
    | none ↦ none
    | some n ↦ elim (systems.namei fs none []) [
      | ok root ↦ some (ok tt, record s { nodes = write_node p (some (mounted fs root n)) s.nodes })
      | err e ↦
          let lost : Node = record n { inode = n.mount } in
          elim (vfs_node_put (suc nodes) p
            (record s { nodes = write_node p (some lost) s.nodes })) [
              | none ↦ none
              | some (r, s') ↦ some (err e, s')
            ]
    ]
  ]

  unfoldable pub vfs_mount : (path : List ℕ) (fs : ℕ) → Tree → Option (Result (Unit {0}) × Tree)
  vfs_mount path fs s =
      if fs == 0 then some (err Errno.einval, s) else elim (mount_point path fs s) [
        | none ↦ none
        | some (err e, s') ↦ some (err e, s')
        | some (ok p, s') ↦ mount_at p fs s'
      ]

  -- `vfs_node_is_fs_root` and `vfs_node_is_mountpoint`
  unfoldable pub is_mount : Node → Tree → Option Bool
  is_mount n s = if n.parent == 0 then some (not (n.mount_fs == 0)) else elim (s.nodes n.parent) [
    | none ↦ none
    | some up ↦ some (not (n.fs == up.fs) && not (n.mount_fs == 0))
  ]

  -- The node is put twice, for the lookup and for the mount.
  unfoldable pub umount_at : (p : ℕ) → Tree → Option (Result (Unit {0}) × Tree)
  umount_at p s = elim (s.nodes p) [
    | none ↦ none
    | some n ↦ elim (is_mount n s) [
      | none ↦ none
      | some false ↦ some (err Errno.einval, s)
      | some true ↦
          elim (vfs_node_put (suc nodes) p
            (record s { nodes = write_node p (some (unmounted n)) s.nodes })) [
              | none ↦ none
              | some (r, s') ↦ vfs_node_put (suc nodes) p s'
            ]
    ]
  ]

  unfoldable pub vfs_umount : (path : List ℕ) → Tree → Option (Result (Unit {0}) × Tree)
  vfs_umount path s = elim (vfs_find systems nodes path s) [
    | none ↦ none
    | some (p, s') ↦ if p == 0 then some (err Errno.enoent, s') else umount_at p s'
  ]

  -- `vfs_fs`; the node is read after it was put.
  unfoldable pub vfs_fs : (path : List ℕ) → Tree → Option (ℕ × Tree)
  vfs_fs path s = elim (vfs_find systems nodes path s) [
    | none ↦ none
    | some (p, s') ↦ if p == 0 then some (0, s') else elim (vfs_node_put (suc nodes) p s') [
      | none ↦ none
      | some (r, s'') ↦ elim (s''.nodes p) [ none ↦ none | some n ↦ some (n.fs, s'') ]
    ]
  ]

-- `vfs_read` and `vfs_write`, over what the file system does with an inode, an offset and a size: 0
-- without a node or a buffer.
module _ (transfer : (fs : ℕ) → Inode → (offset size : ℕ) → Result ℕ) where
  unfoldable pub vfs_read : (node : ℕ) (buffer : Bool) (offset size : ℕ) → Tree → Option (Result ℕ)
  vfs_read p buffer offset size s =
      if p == 0 || not buffer
      then some (ok 0)
      else elim (s.nodes p) [ none ↦ none | some n ↦ some (transfer n.fs n.inode offset size) ]

  unfoldable pub vfs_write : (node : ℕ) (buffer : Bool) (offset size : ℕ) → Tree → Option (Result ℕ)
  vfs_write p buffer offset size s =
      if p == 0 || not buffer
      then some (ok 0)
      else elim (s.nodes p) [ none ↦ none | some n ↦ some (transfer n.fs n.inode offset size) ]
