-- ===== src/Fuse/Preload/Origin.antt =====
-- Whose content the mounted files have.
use gpgfs.Base.{
  ℕ, ◌≡◌, ◌⊎◌, Bool, true, false, Option, none, some, List, [], ◌∷◌, ok, Error, inl, inr,
  Result-cases, Option-cases, Bool-cases, sym, ◌∙◌, ◌>>=◌,
}
use gpgfs.Std.Strings.{Str, split, has_suffix}
use gpgfs.Std.FilePath.{slash}
use gpgfs.Std.WalkDir.{Kind, directory, regular, irregular, Root}
use gpgfs.Std.WalkDir.Visits.{IsKept, walk-kept}
use gpgfs.Fuse.Enclave.{Bytes, LockedBuffer, open_pointer}
use gpgfs.Fuse.Attr.{Attr}
use gpgfs.Fuse.File.{File, new_file}
use gpgfs.Fuse.Key.{decrypt}
use gpgfs.Fuse.Inodes.{IsInodeTree}
use gpgfs.Fuse.Preload.{
  World, Fuse, Node, folder, leaf, Forest, Inode, State, s_ifdir, enter, enter_all, load_attr,
  add_file, place, inode_path, mount_file, visit, preload, encrypted_suffix,
}
use gpgfs.Fuse.Preload.Complete.{Decrypts, preload_lem}

module _ (W : World) (key : LockedBuffer) where
  -- The file is made of a path with the suffix `.gpg`, of what its text decrypts to, and of the
  -- attributes that are loaded for it.
  pub record IsDecrypted (file : File W.enclaves) : Type 0 where
    pub path : Str
    pub plain : Bytes
    pub attr : Attr
    pub suffixed : has_suffix path encrypted_suffix ≡ true
    pub decrypts : Decrypts W key path plain
    pub loaded : load_attr W path ≡ ok attr
    pub made : file ≡ new_file W.enclaves attr (W.enclaves.new_enclave plain)

  -- Every file of the later tree is one of the earlier, or is decrypted.
  abbrev pub AddsDecrypted : Forest W → Forest W → Type 0
  AddsDecrypted t t' =
      (i : Inode W) (file : File W.enclaves)
      → W.inodes.node t' i ≡ some (leaf file)
      → (W.inodes.node t i ≡ some (leaf file)) ⊎ IsDecrypted file

module _ (W : World) (L : IsInodeTree W.inodes) (key : LockedBuffer) where
  same : (t : Forest W) → AddsDecrypted W key t t
  same t i file h = inl h

  chain :
      (t u v : Forest W)
      → AddsDecrypted W key t u
      → AddsDecrypted W key u v
      → AddsDecrypted W key t v
  chain t u v a b i file h = elim (b i file h) [ inl h' ↦ a i file h' | inr d ↦ inr d ]

  -- Adding a new inode adds what it embeds.
  add_new-node :
      (t : Forest W) (p : Inode W) (n : Node W.enclaves) (mode : ℕ) (name : Str) (overwrite : Bool)
      (i : Inode W) (n' : Node W.enclaves)
      → let (t1, c) = W.inodes.new_persistent_inode t p n mode in
        W.inodes.node (W.inodes.add_child t1 p name c overwrite).0 i ≡ some n'
        → (n' ≡ n) ⊎ (W.inodes.node t i ≡ some n')
  add_new-node t p n mode name overwrite i n' h =
      L.node_old t p n n' mode i (sym (L.node-add_child _ p name _ overwrite i) ∙ h)

  leaf-ne-folder : (file : File W.enclaves) → ¬ (leaf file ≡ folder)
  leaf-ne-folder file e = cc

  enter-adds : (t : Forest W) (p : Inode W) (c : Str) → AddsDecrypted W key t (enter W (t, p) c).0
  unfolding enter
  enter-adds t p [] = same t
  enter-adds t p (c ∷ cs) = elim (Option-cases (W.inodes.get_child t p (c ∷ cs))) [
    | inl missing ↦
        rw (missing, enter)
          (λ i file h. elim (add_new-node t p folder s_ifdir (c ∷ cs) true i (leaf file) h) [
            | inl e ↦ absurd (leaf-ne-folder file e)
            | inr old ↦ inl old
          ])
    | inr (q, found) ↦ rw (found, enter) (same t)
  ]

  enter_all-adds :
      (t : Forest W) (p : Inode W) (cs : List Str) → AddsDecrypted W key t (enter_all W (t, p) cs).0
  unfolding enter_all
  enter_all-adds t p [] = same t
  enter_all-adds t p (c ∷ cs) =
      let (u, q) = enter W (t, p) c in
      chain t u (enter_all W (u, q) cs).0 (enter-adds t p c) (enter_all-adds u q cs)

  add_file-adds :
      (t : Forest W) (p : Inode W) (base path : Str) (attr : Attr) (plain : Bytes)
      → has_suffix path encrypted_suffix ≡ true
      → Decrypts W key path plain
      → load_attr W path ≡ ok attr
      → AddsDecrypted W key t (add_file W (t, p) base attr plain)
  unfolding add_file
  add_file-adds t p base path attr plain h d l i file e =
      let made = new_file W.enclaves attr (W.enclaves.new_enclave plain) in
      elim (add_new-node t p (leaf made) 0 base false i (leaf file) e) [
        | inl same ↦ inr (record {
          path = path;
          plain = plain;
          attr = attr;
          suffixed = h;
          decrypts = d;
          loaded = l;
          made = cc;
        })
        | inr old ↦ inl old
      ]

  module _ (source : Str) (root : Inode W) where
    place-adds :
        (path : Str) (plain : Bytes) (dir base : Str) (s : State W)
        → has_suffix path encrypted_suffix ≡ true
        → Decrypts W key path plain
        → AddsDecrypted W key s.forest (place W source root key path plain (dir, base) s).0.forest
    unfolding place
    place-adds path plain dir base s h d =
        let dirs = enter_all-adds s.forest root (split slash dir) in
        let at = enter_all W (s.forest, root) (split slash dir) in
        elim (Result-cases (load_attr W path)) [
          | inl (attr, e) ↦
              rw (e, place)
                (chain s.forest at.0 _ dirs (add_file-adds at.0 at.1 base path attr plain h d e))
          | inr (inl (x, e)) ↦ rw (e, place) dirs
          | inr (inr (m, e)) ↦ rw (e, place) dirs
        ]

    mount_file-adds :
        (path : Str) (s : State W)
        → has_suffix path encrypted_suffix ≡ true
        → AddsDecrypted W key s.forest (mount_file W source root key path s).0.forest
    unfolding mount_file
    mount_file-adds path s h =
        elim (Result-cases (W.disk.read_file path >>= λ enc. decrypt W.pgp key enc)) [
          | inl (plain, e) ↦ elim (Result-cases (inode_path source path)) [
            | inl ((dir, base), e') ↦ rw (e, mount_file, e') (place-adds path plain dir base s h e)
            | inr (inl (x, e')) ↦ rw (e, mount_file, e') (same s.forest)
            | inr (inr (m, e')) ↦ rw (e, mount_file, e') (same s.forest)
          ]
          | inr (inl (x, e)) ↦ rw (e, mount_file) (same s.forest)
          | inr (inr (m, e)) ↦ rw (e, mount_file) (same s.forest)
        ]

    visit-adds :
        (path : Str) (d : Option Kind) (x : Option Error) (s : State W)
        → AddsDecrypted W key s.forest (visit W source root key path d x s).0.forest
    unfolding visit
    visit-adds path d (some x) s = same s.forest
    visit-adds path none none s = same s.forest
    visit-adds path (some directory) none s = same s.forest
    visit-adds path (some irregular) none s = same s.forest
    visit-adds path (some regular) none s = elim (Bool-cases (has_suffix path encrypted_suffix)) [
      | inl h ↦ rw (h, visit) (mount_file-adds path s h)
      | inr h ↦ rw (h, visit) (same s.forest)
    ]

    visit-IsKept : IsKept (visit W source root key) (λ s s'. AddsDecrypted W key s.forest s'.forest)
    visit-IsKept = record {
      same = λ s. same s.forest;
      chain = λ s t u a b. chain s.forest t.forest u.forest a b;
      step = visit-adds;
    }

-- If the key opens, then however `Preload` ends, every file in the inode tree was there before, or
-- has the text that a path with the suffix `.gpg` decrypts to with that key, and the attributes
-- that are loaded for that path. The inode tree behaves as go-fuse documents.
pub preload-adds :
    (W : World) (L : IsInodeTree W.inodes) (f : Fuse W.enclaves) (root : Inode W) (tree : Root)
    (s : State W) (key : LockedBuffer)
    → open_pointer W.enclaves f.key ≡ ok key
    → (i : Inode W) (file : File W.enclaves)
    → W.inodes.node (preload W f root tree s).0.forest i ≡ some (leaf file)
    → (W.inodes.node s.forest i ≡ some (leaf file)) ⊎ IsDecrypted W key file
preload-adds W L f root tree s key opened =
    rw (preload_lem W f root tree s key opened)
      (walk-kept _ _ (visit-IsKept W L key f.source root) f.source tree s)
