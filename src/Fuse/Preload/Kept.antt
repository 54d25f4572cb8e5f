-- ===== src/Fuse/Preload/Kept.antt =====
-- `Preload` only adds to the inode tree.
use gpgfs.Base.{
  ℕ, ◌≡◌, ◌⊎◌, refl, Bool, true, false, Option, none, some, List, [], ◌∷◌, Error, inl, inr,
  Result-cases, Option-cases, Bool-cases, ◌∙◌, ◌>>=◌,
}
use gpgfs.Std.Strings.{Str, split, has_suffix}
use gpgfs.Std.FilePath.{slash}
use gpgfs.Std.WalkDir.{Kind, directory, regular, irregular, Root}
use gpgfs.Std.WalkDir.Visits.{IsKept, walk-kept}
use gpgfs.Fuse.Enclave.{Bytes, LockedBuffer, open_pointer}
use gpgfs.Fuse.Attr.{Attr}
use gpgfs.Fuse.Key.{decrypt}
use gpgfs.Fuse.Inodes.{IsInodeTree}
use gpgfs.Fuse.Preload.{
  World, Fuse, Node, folder, Forest, Inode, State, s_ifdir, enter, enter_all, load_attr, add_file,
  place, inode_path, encrypted_suffix, mount_file, visit, preload,
}

module _ (W : World) where
  -- Every child and every node of the one tree is that of the other.
  pub record Extends (t t' : Forest W) : Type 0 where
    pub children :
        (i : Inode W) (name : Str) (d : Inode W)
        → W.inodes.get_child t i name ≡ some d
        → W.inodes.get_child t' i name ≡ some d
    pub nodes :
        (i : Inode W) (n : Node W.enclaves)
        → W.inodes.node t i ≡ some n
        → W.inodes.node t' i ≡ some n

  pub Extends-refl : (t : Forest W) → Extends t t
  Extends-refl t = record { children = λ i name d h. h; nodes = λ i n h. h }

  pub Extends-trans : (t u v : Forest W) → Extends t u → Extends u v → Extends t v
  Extends-trans t u v a b = record {
    children = λ i name d h. b.children i name d (a.children i name d h);
    nodes = λ i n h. b.nodes i n (a.nodes i n h);
  }

module _ (W : World) (L : IsInodeTree W.inodes) where
  still_free :
      (t : Forest W) (p : Inode W) (n : Node W.enclaves) (mode : ℕ) (name : Str) (overwrite : Bool)
      → (W.inodes.get_child t p name ≡ none) ⊎ (overwrite ≡ false)
      → (W.inodes.get_child (W.inodes.new_persistent_inode t p n mode).0 p name ≡ none)
        ⊎ (overwrite ≡ false)
  still_free t p n mode name overwrite (inl h) = inl (L.get_child-new t p n mode p name ∙ h)
  still_free t p n mode name overwrite (inr h) = inr h

  -- A new inode that is added where no child is, or with no right to overwrite.
  pub add_new-Extends :
      (t : Forest W) (p : Inode W) (n : Node W.enclaves) (mode : ℕ) (name : Str) (overwrite : Bool)
      → (W.inodes.get_child t p name ≡ none) ⊎ (overwrite ≡ false)
      → let (t1, i) = W.inodes.new_persistent_inode t p n mode in
        Extends W t (W.inodes.add_child t1 p name i overwrite).0
  add_new-Extends t p n mode name overwrite free = record {
    children = λ q m d h.
        L.get_child-kept _ p name _ overwrite q m d (still_free t p n mode name overwrite free)
          (L.get_child-new t p n mode q m ∙ h);
    nodes = λ i n' h. L.node-add_child _ p name _ overwrite i ∙ L.node_kept t p n n' mode i h;
  }

  pub enter-Extends : (t : Forest W) (p : Inode W) (c : Str) → Extends W t (enter W (t, p) c).0
  unfolding enter
  enter-Extends t p [] = Extends-refl W t
  enter-Extends t p (c ∷ cs) = elim (Option-cases (W.inodes.get_child t p (c ∷ cs))) [
    | inl missing ↦
        rw (missing, enter) (add_new-Extends t p folder s_ifdir (c ∷ cs) true (inl missing))
    | inr (i, found) ↦ rw (found, enter) (Extends-refl W t)
  ]

  pub enter_all-Extends :
      (t : Forest W) (p : Inode W) (cs : List Str) → Extends W t (enter_all W (t, p) cs).0
  unfolding enter_all
  enter_all-Extends t p [] = Extends-refl W t
  enter_all-Extends t p (c ∷ cs) =
      let (u, q) = enter W (t, p) c in
      Extends-trans W t u (enter_all W (u, q) cs).0 (enter-Extends t p c) (enter_all-Extends u q cs)

  pub add_file-Extends :
      (t : Forest W) (p : Inode W) (base : Str) (attr : Attr) (plain : Bytes)
      → Extends W t (add_file W (t, p) base attr plain)
  unfolding add_file
  add_file-Extends t p base attr plain = add_new-Extends t p _ 0 base false (inr refl)

  module _ (source : Str) (root : Inode W) (key : LockedBuffer) where
    place-Extends :
        (path : Str) (plain : Bytes) (dir base : Str) (s : State W)
        → Extends W s.forest (place W source root key path plain (dir, base) s).0.forest
    unfolding place
    place-Extends path plain dir base s =
        let dirs = enter_all-Extends s.forest root (split slash dir) in
        let at = enter_all W (s.forest, root) (split slash dir) in
        elim (Result-cases (load_attr W path)) [
          | inl (attr, e) ↦
              rw (e, place)
                (Extends-trans W s.forest at.0 _ dirs (add_file-Extends at.0 at.1 base attr plain))
          | inr (inl (x, e)) ↦ rw (e, place) dirs
          | inr (inr (m, e)) ↦ rw (e, place) dirs
        ]

    mount_file-Extends :
        (path : Str) (s : State W)
        → Extends W s.forest (mount_file W source root key path s).0.forest
    unfolding mount_file
    mount_file-Extends path s =
        elim (Result-cases (W.disk.read_file path >>= λ enc. decrypt W.pgp key enc)) [
          | inl (plain, e) ↦ elim (Result-cases (inode_path source path)) [
            | inl ((dir, base), e') ↦ rw (e, mount_file, e') (place-Extends path plain dir base s)
            | inr (inl (x, e')) ↦ rw (e, mount_file, e') (Extends-refl W s.forest)
            | inr (inr (m, e')) ↦ rw (e, mount_file, e') (Extends-refl W s.forest)
          ]
          | inr (inl (x, e)) ↦ rw (e, mount_file) (Extends-refl W s.forest)
          | inr (inr (m, e)) ↦ rw (e, mount_file) (Extends-refl W s.forest)
        ]

    visit-Extends :
        (path : Str) (d : Option Kind) (x : Option Error) (s : State W)
        → Extends W s.forest (visit W source root key path d x s).0.forest
    unfolding visit
    visit-Extends path d (some x) s = Extends-refl W s.forest
    visit-Extends path none none s = Extends-refl W s.forest
    visit-Extends path (some directory) none s = Extends-refl W s.forest
    visit-Extends path (some irregular) none s = Extends-refl W s.forest
    visit-Extends path (some regular) none s =
        elim (Bool-cases (has_suffix path encrypted_suffix)) [
          | inl h ↦ rw (h, visit) (mount_file-Extends path s)
          | inr h ↦ rw (h, visit) (Extends-refl W s.forest)
        ]

    pub visit-IsKept : IsKept (visit W source root key) (λ s s'. Extends W s.forest s'.forest)
    visit-IsKept = record {
      same = λ s. Extends-refl W s.forest;
      chain = λ s t u a b. Extends-trans W s.forest t.forest u.forest a b;
      step = visit-Extends;
    }

  preload-Extends :
      (f : Fuse W.enclaves) (root : Inode W) (tree : Root) (s : State W)
      → Extends W s.forest (preload W f root tree s).0.forest
  unfolding preload
  preload-Extends f root tree s = elim (Result-cases (open_pointer W.enclaves f.key)) [
    | inl (key, e) ↦
        rw (e, preload) (walk-kept _ _ (visit-IsKept f.source root key) f.source tree s)
    | inr (inl (x, e)) ↦ rw (e, preload) (Extends-refl W s.forest)
    | inr (inr (m, e)) ↦ rw (e, preload) (Extends-refl W s.forest)
  ]

-- However it ends, `Preload` keeps what was there: a child stays the child of its name, and an
-- inode keeps what it embeds, so that no file is ever replaced. The inode tree behaves as go-fuse
-- documents.
pub preload-keeps :
    (W : World) (L : IsInodeTree W.inodes) (f : Fuse W.enclaves) (root : Inode W) (tree : Root)
    (s : State W) (p i : Inode W) (name : Str) (n : Node W.enclaves)
    → W.inodes.get_child s.forest p name ≡ some i
    → W.inodes.node s.forest i ≡ some n
    → let after = (preload W f root tree s).0.forest in
      (W.inodes.get_child after p name ≡ some i) × (W.inodes.node after i ≡ some n)
preload-keeps W L f root tree s p i name n child embeds =
    let x = preload-Extends W L f root tree s in (x.children p name i child, x.nodes i n embeds)
