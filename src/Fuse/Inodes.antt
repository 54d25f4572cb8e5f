-- ===== src/Fuse/Inodes.antt =====
-- The inode tree of go-fuse as pkg/fuse uses it: GetChild, NewPersistentInode, AddChild. Its code
-- is vendored and stands here as an interface over the state of all inodes.
use gpgfs.Base.{ℕ, ◌≡◌, ◌≢◌, ◌⊎◌, Bool, false, Option, none, some}
use gpgfs.Std.Strings.{Str}

-- `N` is what an inode embeds: the program's file, or nothing in a directory.
pub record Inodes (N : Type 0) : Type 1 where
  pub Forest : Type 0
  pub Inode : Type 0
  pub node : Forest → Inode → Option N
  pub get_child : Forest → Inode → Str → Option Inode
  -- `parent.NewPersistentInode(ctx, embedded, StableAttr{Mode: mode})`
  pub new_persistent_inode : Forest → Inode → N → ℕ → Forest × Inode
  -- `parent.AddChild(name, child, overwrite)`
  pub add_child : Forest → Inode → Str → Inode → Bool → Forest × Bool

-- "NewPersistentInode returns an Inode whose lifetime is not in control of the kernel", a new one
-- with no child; "GetChild returns a child node with the given name"; "AddChild adds a child to
-- this node. If overwrite is false, fail if the destination already exists".
pub record IsInodeTree {N : Type 0} (T : Inodes N) : Type 0 where
  pub node_new :
      (t : T.Forest) (p : T.Inode) (n : N) (mode : ℕ)
      → T.node (T.new_persistent_inode t p n mode).0 (T.new_persistent_inode t p n mode).1 ≡ some n
  pub node_kept :
      (t : T.Forest) (p : T.Inode) (n n' : N) (mode : ℕ) (i : T.Inode)
      → T.node t i ≡ some n'
      → T.node (T.new_persistent_inode t p n mode).0 i ≡ some n'
  pub node_old :
      (t : T.Forest) (p : T.Inode) (n n' : N) (mode : ℕ) (i : T.Inode)
      → T.node (T.new_persistent_inode t p n mode).0 i ≡ some n'
      → (n' ≡ n) ⊎ (T.node t i ≡ some n')
  pub node-add_child :
      (t : T.Forest) (p : T.Inode) (name : Str) (c : T.Inode) (overwrite : Bool) (i : T.Inode)
      → T.node (T.add_child t p name c overwrite).0 i ≡ T.node t i
  pub new_ne :
      (t : T.Forest) (p : T.Inode) (n : N) (mode : ℕ) → (T.new_persistent_inode t p n mode).1 ≢ p
  pub new_childless :
      (t : T.Forest) (p : T.Inode) (n : N) (mode : ℕ) (name : Str)
      → T.get_child t (T.new_persistent_inode t p n mode).1 name ≡ none
  pub get_child-new :
      (t : T.Forest) (p : T.Inode) (n : N) (mode : ℕ) (i : T.Inode) (name : Str)
      → T.get_child (T.new_persistent_inode t p n mode).0 i name ≡ T.get_child t i name
  pub get_child-add_child :
      (t : T.Forest) (p : T.Inode) (name : Str) (c : T.Inode) (overwrite : Bool)
      → T.get_child t p name ≡ none
      → T.get_child (T.add_child t p name c overwrite).0 p name ≡ some c
  pub get_child-kept :
      (t : T.Forest) (p : T.Inode) (name : Str) (c : T.Inode) (overwrite : Bool) (q : T.Inode)
      (m : Str) (d : T.Inode)
      → (T.get_child t p name ≡ none) ⊎ (overwrite ≡ false)
      → T.get_child t q m ≡ some d
      → T.get_child (T.add_child t p name c overwrite).0 q m ≡ some d
  pub get_child-elsewhere :
      (t : T.Forest) (p : T.Inode) (name : Str) (c : T.Inode) (overwrite : Bool) (q : T.Inode)
      (m : Str)
      → q ≢ p
      → T.get_child (T.add_child t p name c overwrite).0 q m ≡ T.get_child t q m
  -- An inode with a number of its own: it is no child yet, and none of those that were there.
  pub new_unlinked :
      (t : T.Forest) (p : T.Inode) (n : N) (mode : ℕ) (q : T.Inode) (name : Str)
      → T.get_child t q name ≢ some (T.new_persistent_inode t p n mode).1
  pub new_fresh :
      (t : T.Forest) (p : T.Inode) (n n' : N) (mode : ℕ) (i : T.Inode)
      → T.node t i ≡ some n'
      → (T.new_persistent_inode t p n mode).1 ≢ i
  pub get_child-old :
      (t : T.Forest) (p : T.Inode) (name : Str) (c : T.Inode) (overwrite : Bool) (q : T.Inode)
      (m : Str) (d : T.Inode)
      → T.get_child (T.add_child t p name c overwrite).0 q m ≡ some d
      → ((q ≡ p) × (m ≡ name) × (d ≡ c)) ⊎ (T.get_child t q m ≡ some d)
