-- ===== src/Fs/Vfs/Siblings.antt =====
-- Changes of nodes on the heap, and the walk over the siblings that takes one of them off.
use sdx.Prelude.{
  ℕ, zero, suc, refl, true, false, Option, none, some, arith, eq_refl, ◌+◌, ◌%◌, ◌^◌, ◌≤◌, ◌≡◌, ◌≢◌,
  ◌==◌,
}
use sdx.Fs.Vfs.{Node, Nodes, Tree, write_node, update, take_ref, subtree_free, unlink_child}

-- `k` siblings from a node on.
abbrev pub Chain : (k p : ℕ) → Nodes → Type 0
Chain zero p nodes = p ≡ 0
Chain (suc k) p nodes = (p ≢ 0) × (n : Node) × (nodes p ≡ some n) × Chain k (n.sibling) nodes

-- The nodes but one are the same up to what their siblings do not see.
abbrev pub SameSiblings : (q : ℕ) (nodes changed : Nodes) → Type 0
SameSiblings q nodes changed =
    (a : ℕ) (n : Node)
    → a ≢ q
    → nodes a ≡ some n
    → (n' : Node) × (changed a ≡ some n') × (n'.sibling ≡ n.sibling)

pub write_node-same : (p : ℕ) (n : Option Node) (nodes : Nodes) → write_node p n nodes p ≡ n
unfolding write_node
write_node-same p n nodes = ground arith

pub write_node-other :
    (p a : ℕ) (n : Option Node) (nodes : Nodes) → a ≢ p → write_node p n nodes a ≡ nodes a
unfolding write_node
write_node-other p a n nodes ne = ground (arith, ne)

pub update-some :
    (p : ℕ) (f : Node → Node) (s : Tree) (n : Node)
    → s.nodes p ≡ some n
    → update p f s ≡ some (record s { nodes = write_node p (some (f n)) s.nodes })
unfolding update
update-some p f s n e = rw (update, e) refl

pub take_ref-some :
    (p : ℕ) (s : Tree) (n : Node)
    → p ≢ 0
    → s.nodes p ≡ some n
    → take_ref p s
      ≡ some (
        p,
        record s {
          nodes = write_node p (some (record n { refs = (n.refs + 1) % 2 ^ 64 })) s.nodes;
        },
      )
unfolding take_ref
take_ref-some p s n ne here =
    let not_null : (p == 0) ≡ false = ground (arith, ne) in
    rw (not_null, update-some p (λ m. record m { refs = (m.refs + 1) % 2 ^ 64 }) s n here) refl

-- The walk over siblings among which the node is not changes nothing.
pub unlink_child-miss :
    (fuel k parent q prev p : ℕ) (nodes : Nodes) (s : Tree)
    → Chain k p nodes
    → nodes q ≡ none
    → SameSiblings q nodes s.nodes
    → k ≤ fuel
    → unlink_child fuel parent q prev p s ≡ some s
unfolding unlink_child
unlink_child-miss zero zero parent q prev p nodes s e fresh same enough = ground (arith, e)
unlink_child-miss zero (suc k) parent q prev p nodes s chain fresh same enough =
    absurd (omega (arith, enough))
unlink_child-miss (suc fuel) zero parent q prev p nodes s e fresh same enough = ground (arith, e)
unlink_child-miss (suc fuel) (suc k) parent q prev p nodes s (ne, n, here, chain) fresh same
      enough =
    let apart : p ≢ q = λ e. let bad : ⊥ = cc (e, here, fresh) in bad in
    let (n', there, next) = same p n apart here in
    let no_null : (p == 0) ≡ false = ground (arith, ne) in
    let no_match : (p == q) ≡ false = ground (arith, apart) in
    rw (no_null, there, no_match, next)
      (unlink_child-miss fuel k parent q p n.sibling nodes s chain fresh same
        (omega (arith, enough)))

pub subtree_free-none : (fuel : ℕ) (nodes : Nodes) → subtree_free fuel 0 nodes ≡ some true
unfolding subtree_free
subtree_free-none zero nodes = refl
subtree_free-none (suc fuel) nodes = refl

pub unlink_child-first :
    (fuel k parent q : ℕ) (nodes : Nodes) (s : Tree) (up n : Node)
    → q ≢ 0
    → q ≢ parent
    → s.nodes q ≡ some n
    → s.nodes parent ≡ some up
    → Chain k n.sibling nodes
    → nodes q ≡ none
    → SameSiblings q nodes (write_node parent (some (record up { child = n.sibling })) s.nodes)
    → k ≤ fuel
    → unlink_child (suc fuel) parent q 0 q s
      ≡ some
          (record s { nodes = write_node parent (some (record up { child = n.sibling })) s.nodes })
unfolding unlink_child
unlink_child-first fuel k parent q nodes s up n nq apart here above chain fresh same enough =
    let not_null : (q == 0) ≡ false = ground (arith, nq) in
    let itself : (q == q) ≡ true = eq_refl q in
    rw (not_null, here, itself, update-some parent (λ u. record u { child = n.sibling }) s up above)
      (unlink_child-miss fuel k parent q q n.sibling nodes _ chain fresh same enough)
