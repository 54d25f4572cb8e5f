-- ===== src/Tests/Inodes.antt =====
-- An inode tree of lists: the nodes by their number, and the children by parent and name.
use gpgfs.Base.{
  ℕ, suc, ◌+◌, ◌≤◌, ◌<◌, ◌≡◌, ◌≢◌, ◌⊎◌, refl, Bool, true, false, ◌&&◌, ◌||◌, Option, none, some,
  List, [], ◌∷◌, ◌==◌, ==_iff, ==_refl, if◌then◌else◌, arith, inl, inr, Bool-cases, Option-cases,
  sym,
}
use mathlib.Core.Option.{some-injective}
use gpgfs.Std.Strings.{Str, same}
use gpgfs.Std.Strings.Laws.{same_refl, same_iff}
use gpgfs.Fuse.Inodes.{Inodes, IsInodeTree}

pub record Tree (N : Type 0) : Type 0 where
  pub nodes : List (ℕ × N)
  pub edges : List (ℕ × Str × ℕ)

unfoldable pub find_edge : List (ℕ × Str × ℕ) → ℕ → Str → Option ℕ
unfolding same
find_edge [] i name = none
find_edge ((j, m, c) ∷ es) i name = if j == i && same m name then some c else find_edge es i name

unfoldable pub sum_edges : List (ℕ × Str × ℕ) → ℕ
sum_edges [] = 0
sum_edges ((j, m, c) ∷ es) = j + c + sum_edges es

unfoldable pub missing : Option ℕ → Bool
missing none = true
missing (some c) = false

find_edge-absent :
    (es : List (ℕ × Str × ℕ)) (i : ℕ) (name : Str) → sum_edges es < i → find_edge es i name ≡ none
unfolding find_edge sum_edges
find_edge-absent [] i name h = refl
find_edge-absent ((j, m, c) ∷ es) i name h = ground (arith, find_edge-absent es i name)

find_edge-le :
    (es : List (ℕ × Str × ℕ)) (i d : ℕ) (name : Str)
    → find_edge es i name ≡ some d
    → d ≤ sum_edges es
unfolding find_edge sum_edges
find_edge-le [] i d name h = cc
find_edge-le ((j, m, c) ∷ es) i d name h = elim (Bool-cases (j == i && same m name)) [
  | inl e ↦ let here = some-injective c d (rw e at h) in omega arith
  | inr e ↦ let ih = find_edge-le es i d name (rw e at h) in omega arith
]

both : (a b : Bool) → (a && b) ≡ true → (a ≡ true) × (b ≡ true)
both true true h = (refl, refl)
both true false h = cc
both false b h = cc

cons_kept :
    (es : List (ℕ × Str × ℕ)) (p c q d : ℕ) (name m : Str)
    → find_edge es p name ≡ none
    → find_edge es q m ≡ some d
    → find_edge ((p, name, c) ∷ es) q m ≡ some d
unfolding find_edge
cons_kept es p c q d name m free h = elim (Bool-cases (p == q && same name m)) [
  | inl e ↦
      let (e1, e2) = both (p == q) (same name m) e in
      let at = (==_iff p q).0 e1 in let named = (same_iff name m).0 e2 in absurd (cc)
  | inr e ↦ rw e h
]

cons_old :
    (es : List (ℕ × Str × ℕ)) (p c q d : ℕ) (name m : Str)
    → find_edge ((p, name, c) ∷ es) q m ≡ some d
    → ((q ≡ p) × (m ≡ name) × (d ≡ c)) ⊎ (find_edge es q m ≡ some d)
unfolding find_edge
cons_old es p c q d name m h = elim (Bool-cases (p == q && same name m)) [
  | inl e ↦
      let (e1, e2) = both (p == q) (same name m) e in
      inl (
        sym ((==_iff p q).0 e1),
        sym ((same_iff name m).0 e2),
        sym (some-injective c d (rw e at h)),
      )
  | inr e ↦ inr (rw e at h)
]

module _ {N : Type 0} where
  unfoldable pub find_node : List (ℕ × N) → ℕ → Option N
  find_node [] i = none
  find_node ((j, n) ∷ ns) i = if j == i then some n else find_node ns i

  unfoldable pub sum_nodes : List (ℕ × N) → ℕ
  sum_nodes [] = 0
  sum_nodes ((j, n) ∷ ns) = j + sum_nodes ns

  find_node-le : (ns : List (ℕ × N)) (i : ℕ) (n : N) → find_node ns i ≡ some n → i ≤ sum_nodes ns
  unfolding find_node sum_nodes
  find_node-le [] i n h = cc
  find_node-le ((j, m) ∷ ns) i n h = elim (Bool-cases (j == i)) [
    | inl e ↦ let same = (==_iff j i).0 e in omega arith
    | inr e ↦ let ih = find_node-le ns i n (rw e at h) in omega arith
  ]

  unfoldable pub fresh : Tree N → ℕ → ℕ
  unfolding sum_nodes sum_edges
  fresh t p = suc (p + (sum_nodes t.nodes + sum_edges t.edges))

  unfoldable pub link : Tree N → ℕ → Str → ℕ → Bool → Tree N × Bool
  unfolding find_edge missing
  link t p name c overwrite =
      if overwrite || missing (find_edge t.edges p name)
      then (record t { edges = (p, name, c) ∷ t.edges }, true)
      else (t, false)

  unfoldable pub grow : Tree N → ℕ → N → Tree N
  unfolding fresh
  grow t p n = record t { nodes = (fresh t p, n) ∷ t.nodes }

  grow_new : (t : Tree N) (p : ℕ) (n : N) → find_node (grow t p n).nodes (fresh t p) ≡ some n
  unfolding grow find_node
  grow_new t p n = rw (==_refl (fresh t p)) refl

  grow_kept :
      (t : Tree N) (p i : ℕ) (n n' : N)
      → find_node t.nodes i ≡ some n'
      → find_node (grow t p n).nodes i ≡ some n'
  unfolding grow find_node fresh
  grow_kept t p i n n' h = let le = find_node-le t.nodes i n' h in ground arith

  grow_old :
      (t : Tree N) (p i : ℕ) (n n' : N)
      → find_node (grow t p n).nodes i ≡ some n'
      → (n' ≡ n) ⊎ (find_node t.nodes i ≡ some n')
  unfolding grow find_node
  grow_old t p i n n' h = elim (Bool-cases (fresh t p == i)) [
    | inl e ↦ inl (sym (some-injective n n' (rw e at h)))
    | inr e ↦ inr (rw e at h)
  ]

  link_node :
      (t : Tree N) (p c i : ℕ) (name : Str) (overwrite : Bool)
      → find_node (link t p name c overwrite).0.nodes i ≡ find_node t.nodes i
  unfolding link
  link_node t p c i name overwrite = ground arith

  link_new :
      (t : Tree N) (p c : ℕ) (name : Str) (overwrite : Bool)
      → find_edge t.edges p name ≡ none
      → find_edge (link t p name c overwrite).0.edges p name ≡ some c
  unfolding link find_edge missing
  link_new t p c name overwrite h = elim (Bool-cases overwrite) [
    | inl e ↦ rw (e, ==_refl p, same_refl name) refl
    | inr e ↦ rw (e, h, missing, ==_refl p, same_refl name) refl
  ]

  link_taken :
      (t : Tree N) (p c d : ℕ) (name : Str)
      → find_edge t.edges p name ≡ some d
      → (link t p name c false).0 ≡ t
  unfolding link missing
  link_taken t p c d name e = rw e refl

  link_free :
      (t : Tree N) (p c : ℕ) (name : Str) (overwrite : Bool)
      → find_edge t.edges p name ≡ none
      → (link t p name c overwrite).0 ≡ record t { edges = (p, name, c) ∷ t.edges }
  unfolding link missing
  link_free t p c name true e = refl
  link_free t p c name false e = rw e refl

  link_kept :
      (t : Tree N) (p c q d : ℕ) (name m : Str) (overwrite : Bool)
      → (find_edge t.edges p name ≡ none) ⊎ (overwrite ≡ false)
      → find_edge t.edges q m ≡ some d
      → find_edge (link t p name c overwrite).0.edges q m ≡ some d
  link_kept t p c q d name m overwrite free h = elim (Option-cases (find_edge t.edges p name)) [
    | inl e ↦ rw (link_free t p c name overwrite e) (cons_kept t.edges p c q d name m e h)
    | inr (x, e) ↦ elim free [
      | inl e' ↦ absurd (cc)
      | inr e' ↦ rw (e', link_taken t p c x name e) h
    ]
  ]

  link_elsewhere :
      (t : Tree N) (p c q : ℕ) (name m : Str) (overwrite : Bool)
      → q ≢ p
      → find_edge (link t p name c overwrite).0.edges q m ≡ find_edge t.edges q m
  unfolding link find_edge
  link_elsewhere t p c q name m overwrite ne = ground arith

  link_old :
      (t : Tree N) (p c q d : ℕ) (name m : Str) (overwrite : Bool)
      → find_edge (link t p name c overwrite).0.edges q m ≡ some d
      → ((q ≡ p) × (m ≡ name) × (d ≡ c)) ⊎ (find_edge t.edges q m ≡ some d)
  unfolding link
  link_old t p c q d name m overwrite h =
      elim (Bool-cases (overwrite || missing (find_edge t.edges p name))) [
        | inl e ↦ cons_old t.edges p c q d name m (rw (e, link) at h)
        | inr e ↦ inr (rw (e, link) at h)
      ]

-- The interface on these trees.
abbrev pub trees : (N : Type 0) → Inodes N
trees N = record {
  Forest = Tree N;
  Inode = ℕ;
  node = λ t i. find_node t.nodes i;
  get_child = λ t i name. find_edge t.edges i name;
  new_persistent_inode = λ t p n mode. (grow t p n, fresh t p);
  add_child = link;
}

pub trees-IsInodeTree : (N : Type 0) → IsInodeTree (trees N)
unfolding grow fresh
trees-IsInodeTree N = record {
  node_new = λ t p n mode. grow_new t p n;
  node_kept = λ t p n n' mode i h. grow_kept t p i n n' h;
  node_old = λ t p n n' mode i h. grow_old t p i n n' h;
  node-add_child = λ t p name c overwrite i. link_node t p c i name overwrite;
  new_ne = λ t p n mode e. absurd (omega arith);
  new_childless = λ t p n mode name. find_edge-absent t.edges _ name (omega arith);
  get_child-new = λ t p n mode i name. refl;
  get_child-add_child = λ t p name c overwrite h. link_new t p c name overwrite h;
  get_child-kept = λ t p name c overwrite q m d free h. link_kept t p c q d name m overwrite free h;
  new_unlinked = λ t p n mode q name e.
      let le = find_edge-le t.edges q (fresh t p) name e in absurd (omega arith);
  new_fresh = λ t p n n' mode i h e. let le = find_node-le t.nodes i n' h in absurd (omega arith);
  get_child-old = λ t p name c overwrite q m d h. link_old t p c q d name m overwrite h;
  get_child-elsewhere = λ t p name c overwrite q m ne. link_elsewhere t p c q name m overwrite ne;
}
