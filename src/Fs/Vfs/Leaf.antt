-- ===== src/Fs/Vfs/Leaf.antt =====
-- A node that is made for a lookup and put again.
use sdx.Prelude.{
  ℕ, suc, refl, sym, ap, inl, inr, false, none, some, List, arith, Bool-cases, ◌≤◌, ◌≡◌, ◌≢◌, ◌⊎◌,
  ◌∙◌, ◌∷◌, ◌==◌,
}
use sdx.Errno.{ok}
use sdx.Fs.Inode.{Inode}
use sdx.Fs.Vfs.{
  Systems, Node, Nodes, Tree, write_node, new_node, attach, find_child, take_ref, vfs_node_new,
  vfs_node_get, node_deleteable, remove, vfs_node_put,
}
use sdx.Fs.Vfs.Siblings.{
  Chain, SameSiblings, write_node-same, write_node-other, take_ref-some, subtree_free-none,
  unlink_child-first,
}

-- The parent with the new node as its first child, and the new node with some references.
abbrev grown : (parent q refs : ℕ) (up n : Node) → Nodes → Nodes
grown parent q refs up n nodes =
    write_node q (some (record n { refs = refs }))
      (write_node parent (some (record up { child = q })) (write_node q (some n) nodes))

module _ (systems : Systems) where
  get-new :
      (fuel parent q : ℕ) (name memory : List ℕ) (s : Tree) (up : Node) (inode : Inode)
      → parent ≢ 0
      → s.nodes parent ≡ some up
      → find_child fuel up.child name s.nodes ≡ some 0
      → up.fs ≢ 0
      → systems.namei up.fs (some up.inode) name ≡ ok inode
      → s.memory ≡ q ∷ memory
      → q ≢ 0
      → q ≢ parent
      → vfs_node_get systems fuel parent name s
        ≡ some (
          q,
          record {
            root = s.root;
            nodes = grown parent q 1 up (new_node parent up.child up.fs name inode) s.nodes;
            memory = memory;
          },
        )
  unfolding vfs_node_get vfs_node_new attach take_ref new_node
  get-new fuel parent q name memory s up inode np here absent fs_ok made room nq apart =
      let not_root : (parent == 0) ≡ false = ground (arith, np) in
      let has_fs : (up.fs == 0) ≡ false = ground (arith, fs_ok) in
      let some_room : (q == 0) ≡ false = ground (arith, nq) in
      let n = new_node parent up.child up.fs name inode in
      let linked =
        write_node parent (some (record up { child = q })) (write_node q (some n) s.nodes) in
      let found =
        write_node-other parent q (some (record up { child = q })) (write_node q (some n) s.nodes)
          apart
        ∙ write_node-same q (some n) s.nodes in
      rw (not_root, here, absent) rw (vfs_node_new, has_fs, not_root, here, made) rw
        (attach, room, some_room, not_root, here)
        (take_ref-some q (record { root = s.root; nodes = linked; memory = memory }) n nq found)

-- What is left of the nodes when the first child of a node is taken away.
abbrev pruned : (parent q : ℕ) (up n : Node) → Nodes → Nodes
pruned parent q up n nodes = write_node q none (
    write_node parent (some (record up { child = n.sibling }))
      (write_node q (some (record n { refs = 0 })) nodes))

put-first :
    (fuel k parent q : ℕ) (nodes : Nodes) (s : Tree) (up n : Node)
    → q ≢ 0
    → parent ≢ 0
    → q ≢ parent
    → s.nodes q ≡ some (record n { refs = 1; child = 0; parent = parent })
    → s.nodes parent ≡ some (record up { child = q })
    → Chain k n.sibling nodes
    → nodes q ≡ none
    → SameSiblings q nodes (
        write_node parent
          (some (record up { child = n.sibling }))
          (write_node q (some (record n { refs = 0; child = 0; parent = parent })) s.nodes))
    → k ≤ fuel
    → vfs_node_put (suc (suc (suc fuel))) q s
      ≡ some (
        ok tt,
        record s { nodes = pruned parent q up (record n { child = 0; parent = parent }) s.nodes },
      )
unfolding vfs_node_put node_deleteable remove
put-first fuel k parent q nodes s up n nq np apart here above chain fresh same enough =
    let not_null : (q == 0) ≡ false = ground (arith, nq) in
    let not_root : (parent == 0) ≡ false = ground (arith, np) in
    let m : Node = record n { refs = 0; child = 0; parent = parent } in
    let s' : Tree = record s { nodes = write_node q (some m) s.nodes } in
    let above' : s'.nodes parent ≡ some (record up { child = q }) =
      write_node-other q parent (some m) s.nodes (λ e. apart (sym e)) ∙ above in
    let cut =
      unlink_child-first fuel k parent q nodes s' (record up { child = q }) m nq apart
        (write_node-same q (some m) s.nodes) above' chain fresh same enough in
    rw (not_null, here, subtree_free-none (suc (suc fuel)) (s'.nodes)) rw
      (remove, not_root, above', cut) refl

eq_or_ne : (a b : ℕ) → (a ≡ b) ⊎ (a ≢ b)
eq_or_ne a b = elim (Bool-cases (a == b)) [
  | inl e ↦ inl (ground (arith, e))
  | inr e ↦ inr (ground (arith, e))
]

-- Nodes that differ in at most two places, one of which holds a node with the same sibling.
SameSiblings-write :
    (parent q : ℕ) (up up' : Node) (nodes changed : Nodes)
    → nodes parent ≡ some up
    → up'.sibling ≡ up.sibling
    → ((a : ℕ) → a ≢ q → a ≢ parent → changed a ≡ nodes a)
    → SameSiblings q nodes (write_node parent (some up') changed)
SameSiblings-write parent q up up' nodes changed above next others a n apart here =
    elim (eq_or_ne a parent) [
      | inl e ↦
          let same : n ≡ up = cc (here, e, above) in
          (
            up',
            ap (write_node parent (some up') changed) e ∙ write_node-same parent (some up') changed,
            next ∙ sym (ap (λ (m : Node). m.sibling) same),
          )
      | inr ne ↦
          (n, write_node-other parent a (some up') changed ne ∙ others a apart ne ∙ here, refl)
    ]

pruned-same :
    (parent q : ℕ) (up n : Node) (nodes changed : Nodes)
    → nodes parent ≡ some up
    → nodes q ≡ none
    → n.sibling ≡ up.child
    → ((a : ℕ)
        → a ≢ q
        → a ≢ parent
        → write_node q (some (record n { refs = 0 })) changed a ≡ nodes a)
    → (a : ℕ) → pruned parent q up n changed a ≡ nodes a
pruned-same parent q up n nodes changed above fresh next others a =
    let inner = write_node q (some (record n { refs = 0 })) changed in
    let up' : Node = record up { child = n.sibling } in
    elim (eq_or_ne a q) [
      | inl e ↦
          ap (pruned parent q up n changed) e
          ∙ write_node-same q none (write_node parent (some up') inner)
          ∙ sym (ap nodes e ∙ fresh)
      | inr not_q ↦
          write_node-other q a none (write_node parent (some up') inner) not_q
          ∙ elim (eq_or_ne a parent) [
            | inl e ↦
                ap (write_node parent (some up') inner) e
                ∙ write_node-same parent (some up') inner
                ∙ ap (λ c. some (record up { child = c })) next
                ∙ sym (ap nodes e ∙ above)
            | inr not_parent ↦
                write_node-other parent a (some up') inner not_parent ∙ others a not_q not_parent
          ]
    ]

module _ (systems : Systems) where
  -- A lookup of a name that a node has not among its children, which end within the fuel. Where the
  -- file system knows the name and the heap has memory at an address without a node, the lookup makes a
  -- new node there; putting it again succeeds, and then the root and every node are as before.
  pub vfs_node_put-vfs_node_get :
      (fuel k parent q : ℕ) (name memory : List ℕ) (s : Tree) (up : Node) (inode : Inode)
      → parent ≢ 0
      → s.nodes parent ≡ some up
      → find_child fuel up.child name s.nodes ≡ some 0
      → up.fs ≢ 0
      → systems.namei up.fs (some up.inode) name ≡ ok inode
      → s.memory ≡ q ∷ memory
      → q ≢ 0
      → s.nodes q ≡ none
      → Chain k up.child s.nodes
      → k ≤ fuel
      → (s' : Tree) × (s'' : Tree) × (vfs_node_get systems fuel parent name s ≡ some (q, s'))
        × (vfs_node_put (suc (suc (suc fuel))) q s' ≡ some (ok tt, s''))
        × ((a : ℕ) → s''.nodes a ≡ s.nodes a)
        × (s''.root ≡ s.root)
  unfolding new_node
  vfs_node_put-vfs_node_get fuel k parent q name memory s up inode np above absent fs_ok made room
        nq fresh chain enough =
      let apart : q ≢ parent = λ e. let bad : ⊥ = cc (e, above, fresh) in bad in
      let n = new_node parent up.child up.fs name inode in
      let s' : Tree = record {
        root = s.root;
        nodes = grown parent q 1 up n s.nodes;
        memory = memory;
      } in
      let got =
        get-new systems fuel parent q name memory s up inode np above absent fs_ok made room nq
          apart in
      let base =
        write_node parent (some (record up { child = q })) (write_node q (some n) s.nodes) in
      let here = write_node-same q (some (record n { refs = 1 })) base in
      let up_here =
        write_node-other q parent (some (record n { refs = 1 })) base (λ e. apart (sym e))
        ∙ write_node-same parent (some (record up { child = q })) (write_node q (some n) s.nodes) in
      let others = λ (a : ℕ) (not_q : a ≢ q) (not_parent : a ≢ parent).
        write_node-other q a (some n) (s'.nodes) not_q
        ∙ write_node-other q a (some (record n { refs = 1 })) base not_q
        ∙ write_node-other parent a (some (record up { child = q })) (write_node q (some n) s.nodes)
            not_parent
        ∙ write_node-other q a (some n) s.nodes not_q in
      let same =
        SameSiblings-write parent q up (record up { child = up.child }) s.nodes
          (write_node q (some n) (s'.nodes)) above refl others in
      let put =
        put-first fuel k parent q s.nodes s' up n nq np apart here up_here chain fresh same
          enough in
      (
        s',
        record s' { nodes = pruned parent q up n (s'.nodes) },
        got,
        put,
        pruned-same parent q up n s.nodes (s'.nodes) above fresh refl others,
        refl,
      )
