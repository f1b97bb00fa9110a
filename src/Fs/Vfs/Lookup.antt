-- ===== src/Fs/Vfs/Lookup.antt =====
-- The lookup of a path, as the steps for the names that the path consists of.
use mathlib.Core.Path.{subst}
use sdx.Prelude.{
  ℕ, zero, suc, refl, sym, ap, inl, inr, Bool, true, false, Option, none, some, List, [], arith,
  ltb, Bool-cases, Option-cases, length, Each, ◌+◌, ◌-◌, ◌≤◌, ◌≡◌, ◌∙◌, ◌∷◌, ◌==◌, if◌then◌else◌,
}
use sdx.Fs.Vfs.{same_string, take_ref, Systems, Tree, vfs_node_get}
use sdx.Fs.Vfs.Path.{next_name, is_skipped, step, walk_path, vfs_find}

-- What stands in front of the first "/" of a path, and the texts behind it.
unfoldable pub split : (path : List ℕ) → List ℕ × List (List ℕ)
split [] = ([], [])
split (c ∷ cs) =
    let (name, names) = split cs in if c == 0x2f then ([], name ∷ names) else (c ∷ name, names)

-- "" and "."
unfoldable pub names_nothing : (name : List ℕ) → Bool
names_nothing [] = true
names_nothing (c ∷ []) = c == 0x2e
names_nothing (c ∷ d ∷ cs) = false

is_skipped-names_nothing : (name : List ℕ) → is_skipped name ≡ names_nothing name
unfolding is_skipped names_nothing same_string
is_skipped-names_nothing [] = refl
is_skipped-names_nothing (c ∷ []) = ground arith
is_skipped-names_nothing (c ∷ d ∷ cs) = ground arith

-- The names without "" and ".".
unfoldable pub kept : List (List ℕ) → List (List ℕ)
kept [] = []
kept (n ∷ ns) = if names_nothing n then kept ns else n ∷ kept ns

abbrev pub components : (path : List ℕ) → List (List ℕ)
components path = let (name, names) = split path in kept (name ∷ names)

-- Names that fit into the array of a name.
abbrev pub ShortNames : (path : List ℕ) → Type 0
ShortNames path =
    let (name, names) = split path in Each (λ (n : List ℕ). length n ≤ 255) (name ∷ names)

module _ (systems : Systems) (nodes : ℕ) where
  -- The steps for a list of names, until a node is missing.
  unfoldable pub follow : (cur : ℕ) (names : List (List ℕ)) → Tree → Option (ℕ × Tree)
  follow cur [] s = some (cur, s)
  follow cur (name ∷ names) s =
      if cur == 0 then some (0, s) else elim (step systems nodes cur name s) [
        | none ↦ none
        | some (next, s') ↦ follow next names s'
      ]

-- A name is cut off a path that splits into a name and others, and the rest of the path has the others.
abbrev CutOff : (i : ℕ) (path : List ℕ) → List ℕ × List (List ℕ) → (rest : List ℕ) → Type 0
CutOff i path parts rest =
    (next_name i path ≡ some (some (parts.0, rest)))
    × (kept (parts.1) ≡ components rest)
    × (Each (λ (n : List ℕ). length n ≤ 255) (parts.1) → ShortNames rest)
    × (length rest ≤ length path - 1)

split-slash :
    (c : ℕ) (cs : List ℕ) → (c == 0x2f) ≡ true → split (c ∷ cs) ≡ ([], (split cs).0 ∷ (split cs).1)
unfolding split
split-slash c cs e = rw e refl

split-other :
    (c : ℕ) (cs : List ℕ) → (c == 0x2f) ≡ false → split (c ∷ cs) ≡ (c ∷ (split cs).0, (split cs).1)
unfolding split
split-other c cs e = rw e refl

next_name-slash :
    (i c : ℕ) (cs : List ℕ)
    → i ≤ 255
    → (c == 0x2f) ≡ true
    → next_name i (c ∷ cs) ≡ some (some ([], cs))
unfolding next_name
next_name-slash i c cs le e = let room : ltb 255 i ≡ false = ground (arith, le) in rw (room, e) refl

next_name-other :
    (i c : ℕ) (cs name rest : List ℕ)
    → i ≤ 255
    → (c == 0x2f) ≡ false
    → next_name (i + 1) cs ≡ some (some (name, rest))
    → next_name i (c ∷ cs) ≡ some (some (c ∷ name, rest))
unfolding next_name
next_name-other i c cs name rest le e later =
    let room : ltb 255 i ≡ false = ground (arith, le) in rw (room, e, later) refl

next_name-CutOff :
    (i : ℕ) (path : List ℕ)
    → i + length ((split path).0) ≤ 255
    → (rest : List ℕ) × CutOff i path (split path) rest
unfolding next_name split kept names_nothing
next_name-CutOff i [] fits =
    ([], (ground (arith, fits), refl, (λ each. (omega arith, tt)), omega arith))
next_name-CutOff i (c ∷ cs) fits = elim (Bool-cases (c == 0x2f)) [
  | inl slash ↦ (
    cs,
    subst (λ parts. CutOff i (c ∷ cs) parts cs) (sym (split-slash c cs slash))
        (next_name-slash i c cs (omega (arith, fits)) slash, refl, (λ each. each), omega arith),
  )
  | inr other ↦
      let shorter =
        subst (λ (parts : List ℕ × List (List ℕ)). i + length (parts.0) ≤ 255)
          (split-other c cs other) fits in
      let (rest, (eq, names, short, le)) = next_name-CutOff (i + 1) cs (omega (arith, shorter)) in
      (
        rest,
        subst (λ parts. CutOff i (c ∷ cs) parts rest) (sym (split-other c cs other))
            (
              next_name-other i c cs _ rest (omega (arith, fits)) other eq,
              names,
              short,
              omega (arith, le),
            ),
      )
]

module _ (systems : Systems) (nodes : ℕ) where
  follow-nothing : (names : List (List ℕ)) (s : Tree) → follow systems nodes 0 names s ≡ some (0, s)
  unfolding follow
  follow-nothing [] s = refl
  follow-nothing (n ∷ ns) s = refl

  walk_path-gone :
      (fuel cur c : ℕ) (cs : List ℕ) (s : Tree)
      → (cur == 0) ≡ true
      → walk_path systems nodes (suc fuel) cur (c ∷ cs) s ≡ some (0, s)
  unfolding walk_path
  walk_path-gone fuel cur c cs s gone = rw gone refl

  walk_path-skipped :
      (fuel cur c : ℕ) (cs name rest : List ℕ) (s : Tree)
      → (cur == 0) ≡ false
      → next_name 0 (c ∷ cs) ≡ some (some (name, rest))
      → is_skipped name ≡ true
      → walk_path systems nodes (suc fuel) cur (c ∷ cs) s ≡ walk_path systems nodes fuel cur rest s
  unfolding walk_path
  walk_path-skipped fuel cur c cs name rest s here cut skipped = rw (here, cut, skipped) refl

  walk_path-step :
      (fuel cur c : ℕ) (cs name rest : List ℕ) (names : List (List ℕ)) (s : Tree)
      → (cur == 0) ≡ false
      → next_name 0 (c ∷ cs) ≡ some (some (name, rest))
      → is_skipped name ≡ false
      → ((next : ℕ) (s' : Tree)
          → walk_path systems nodes fuel next rest s' ≡ follow systems nodes next names s')
      → walk_path systems nodes (suc fuel) cur (c ∷ cs) s
        ≡ follow systems nodes cur (name ∷ names) s
  unfolding walk_path follow
  walk_path-step fuel cur c cs name rest names s here cut plain same =
      elim (Option-cases (step systems nodes cur name s)) [
        | inl fault ↦ rw (here, cut, plain) rw (fault) refl
        | inr ((next, s'), eq) ↦ rw (here, cut, plain) rw (eq) (same next s')
      ]

  kept-skipped : (n : List ℕ) (ns : List (List ℕ)) → is_skipped n ≡ true → kept (n ∷ ns) ≡ kept ns
  unfolding kept
  kept-skipped n ns e = rw (sym (is_skipped-names_nothing n) ∙ e) refl

  kept-plain :
      (n : List ℕ) (ns : List (List ℕ)) → is_skipped n ≡ false → kept (n ∷ ns) ≡ n ∷ kept ns
  unfolding kept
  kept-plain n ns e = rw (sym (is_skipped-names_nothing n) ∙ e) refl

  -- The walk over a path makes the steps for its names, where each name fits into its array. The length
  -- of the path is enough fuel.
  pub walk_path-follow :
      (fuel cur : ℕ) (path : List ℕ) (s : Tree)
      → ShortNames path
      → length path ≤ fuel
      → walk_path systems nodes fuel cur path s ≡ follow systems nodes cur (components path) s
  unfolding walk_path follow kept split names_nothing
  walk_path-follow fuel cur [] s short enough = refl
  walk_path-follow zero cur (c ∷ cs) s short enough = absurd (omega (arith, enough))
  walk_path-follow (suc fuel) cur (c ∷ cs) s (short, shorts) enough = elim (Bool-cases (cur == 0)) [
    | inl gone ↦
        let nowhere : cur ≡ 0 = ground (arith, gone) in
        walk_path-gone fuel cur c cs s gone
        ∙ sym (
            ap (λ m. follow systems nodes m (components (c ∷ cs)) s) nowhere
            ∙ follow-nothing (components (c ∷ cs)) s)
    | inr here ↦
        let (rest, (eq, names, later, le)) = next_name-CutOff 0 (c ∷ cs) (omega (arith, short)) in
        let same = λ (next : ℕ) (s' : Tree).
          walk_path-follow fuel next rest s' (later shorts) (omega (arith, le, enough)) in
        elim (Bool-cases (is_skipped ((split (c ∷ cs)).0))) [
          | inl skipped ↦
              walk_path-skipped fuel cur c cs _ rest s here eq skipped
              ∙ same cur s
              ∙ ap (λ ns. follow systems nodes cur ns s)
                  (sym (kept-skipped _ ((split (c ∷ cs)).1) skipped ∙ names))
          | inr plain ↦
              walk_path-step fuel cur c cs _ rest (components rest) s here eq plain same
              ∙ ap (λ ns. follow systems nodes cur ns s)
                  (sym (
                    kept-plain _ ((split (c ∷ cs)).1) plain
                    ∙ ap (λ ns. (split (c ∷ cs)).0 ∷ ns) names))
        ]
  ]

  -- The lookup of an absolute path whose names fit into their array: it takes a reference to the root,
  -- and makes the steps for the names of the path, without "" and ".".
  pub vfs_find-follow :
      (path : List ℕ) (s : Tree)
      → ShortNames path
      → vfs_find systems nodes (0x2f ∷ path) s ≡ (elim (take_ref s.root s) [
        | none ↦ none
        | some (cur, s') ↦ follow systems nodes cur (components path) s'
      ])
  unfolding vfs_find vfs_node_get
  vfs_find-follow path s short = elim (Option-cases (take_ref s.root s)) [
    | inl fault ↦ rw fault refl
    | inr ((cur, s'), eq) ↦ rw eq (walk_path-follow (length path) cur path s' short (omega arith))
  ]

  -- Two absolute paths with the same names, which fit into their array, lead to the same node and change
  -- the nodes alike, whatever empty names and names "." they have.
  pub vfs_find-same :
      (path other : List ℕ) (s : Tree)
      → ShortNames path
      → ShortNames other
      → components path ≡ components other
      → vfs_find systems nodes (0x2f ∷ path) s ≡ vfs_find systems nodes (0x2f ∷ other) s
  vfs_find-same path other s short short' same =
      vfs_find-follow path s short
      ∙ ap
          (λ names. elim (take_ref s.root s) [
            | none ↦ none
            | some (cur, s') ↦ follow systems nodes cur names s'
          ])
          same
      ∙ sym (vfs_find-follow other s short')
