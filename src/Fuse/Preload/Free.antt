-- ===== src/Fuse/Preload/Free.antt =====
-- What `Preload` mounts elsewhere leaves a path free.
use gpgfs.Base.{
  ◌≡◌, ◌≢◌, refl, true, false, none, some, List, [], ◌∷◌, ◌++◌, inl, inr, Option-cases,
  Result-cases, Bool-cases, sym, ap, ◌∙◌, ok, append_assoc, append-nil, ◌>>=◌,
}
use gpgfs.Std.Strings.{Str, split, has_suffix}
use gpgfs.Std.FilePath.{slash}
use gpgfs.Std.WalkDir.{regular}
use gpgfs.Fuse.Enclave.{Bytes, LockedBuffer}
use gpgfs.Fuse.Attr.{Attr}
use gpgfs.Fuse.File.{new_file}
use gpgfs.Fuse.Key.{decrypt}
use gpgfs.Fuse.Inodes.{IsInodeTree}
use gpgfs.Fuse.Preload.{
  World, leaf, folder, Forest, Inode, State, s_ifdir, enter, enter_all, add_file, load_attr, place,
  inode_path, mount_file, visit, encrypted_suffix,
}
use gpgfs.Fuse.Preload.Kept.{enter-Extends}
use gpgfs.Fuse.Preload.Placed.{descend, descend-Extends, descend-append, enter-get_child}
use gpgfs.Fuse.Preload.Shape.{IsTree, add_new-IsTree, add_new-free}

-- The names that the loop over a directory's components passes through.
named : List Str → List Str
named [] = []
named ([] ∷ cs) = named cs
named ((c ∷ cs) ∷ ds) = (c ∷ cs) ∷ named ds

-- The path does not begin with these names.
abbrev pub IsApart : List Str → List Str → Type 0
IsApart names path = (rest : List Str) → names ++ rest ≢ path

-- The names at which a file is mounted, from its path as `Preload` cuts it.
unfoldable pub mounted_names : Str × Str → List Str
unfolding named
mounted_names (dir, base) = named (split slash dir) ++ base ∷ []

module _ (W : World) where
  -- The inodes form a tree, and there is none at these names.
  abbrev pub IsFree : Forest W → Inode W → List Str → Type 0
  IsFree t root q = IsTree W t root × (descend W t root q ≡ none)

module _ (W : World) (L : IsInodeTree W.inodes) (root : Inode W) (q : List Str) where
  enter-IsFree :
      (t : Forest W) (p : Inode W) (pre : List Str) (c : Str)
      → c ≢ []
      → IsFree W t root q
      → descend W t root pre ≡ some p
      → q ≢ pre ++ c ∷ []
      → IsFree W (enter W (t, p) c).0 root q
  unfolding enter
  enter-IsFree t p pre [] named h at ne = absurd (named refl)
  enter-IsFree t p pre (c ∷ cs) named (T, free) at ne =
      elim (Option-cases (W.inodes.get_child t p (c ∷ cs))) [
        | inl e ↦
            rw (e, enter)
              (
                add_new-IsTree W L t p folder s_ifdir (c ∷ cs) true root T (inl e),
                add_new-free W L t p folder s_ifdir (c ∷ cs) true root pre q T at free ne,
              )
        | inr (d, e) ↦ rw (e, enter) (T, free)
      ]

  enter-at :
      (t : Forest W) (p : Inode W) (pre : List Str) (c : Str)
      → c ≢ []
      → descend W t root pre ≡ some p
      → let (u, d) = enter W (t, p) c in descend W u root (pre ++ c ∷ []) ≡ some d
  enter-at t p pre c named at =
      let (u, d) = enter W (t, p) c in
      descend-append W u root p pre c
        (descend-Extends W t u root p pre (enter-Extends W L t p c) at)
      ∙ enter-get_child W L t p c named

  enter_all-IsFree :
      (t : Forest W) (p : Inode W) (pre cs : List Str)
      → IsFree W t root q
      → descend W t root pre ≡ some p
      → IsApart q (pre ++ named cs)
      → let (u, d) = enter_all W (t, p) cs in
        IsFree W u root q × (descend W u root (pre ++ named cs) ≡ some d)
  unfolding enter_all named
  enter_all-IsFree t p pre [] h at apart = (h, ap (λ x. descend W t root x) (append-nil pre) ∙ at)
  enter_all-IsFree t p pre ([] ∷ cs) h at apart =
      unfold enter in enter_all-IsFree t p pre cs h at apart
  enter_all-IsFree t p pre ((c ∷ cs) ∷ ds) h at apart =
      let (u, d) = enter W (t, p) (c ∷ cs) in
      let whole = append_assoc pre ((c ∷ cs) ∷ []) (named ds) in
      let ne : q ≢ pre ++ (c ∷ cs) ∷ [] =
        λ e. apart (named ds) (ap (λ x. x ++ named ds) e ∙ whole) in
      let (free, there) =
        enter_all-IsFree u d (pre ++ (c ∷ cs) ∷ []) ds
          (enter-IsFree t p pre (c ∷ cs) (λ e. cc) h at ne) (enter-at t p pre (c ∷ cs) (λ e. cc) at)
          (λ rest e. apart rest (e ∙ whole)) in
      (free, ap (λ x. descend W (enter_all W (u, d) ds).0 root x) (sym whole) ∙ there)

  add_file-IsFree :
      (t : Forest W) (p : Inode W) (pre : List Str) (b : Str) (attr : Attr) (plain : Bytes)
      → IsFree W t root q
      → descend W t root pre ≡ some p
      → q ≢ pre ++ b ∷ []
      → IsFree W (add_file W (t, p) b attr plain) root q
  unfolding add_file
  add_file-IsFree t p pre b attr plain (T, free) at ne =
      let n = leaf (new_file W.enclaves attr (W.enclaves.new_enclave plain)) in
      (
        add_new-IsTree W L t p n 0 b false root T (inr refl),
        add_new-free W L t p n 0 b false root pre q T at free ne,
      )

  module _ (source : Str) (key : LockedBuffer) where
    place-IsFree :
        (path : Str) (plain : Bytes) (at : Str × Str) (s : State W)
        → IsFree W s.forest root q
        → IsApart q (mounted_names at)
        → IsFree W (place W source root key path plain at s).0.forest root q
    unfolding place mounted_names
    place-IsFree path plain (dir, base) s h apart =
        let names = named (split slash dir) in
        let (free, there) =
          enter_all-IsFree s.forest root [] (split slash dir) h (unfold descend in refl) (λ rest e.
            apart (rest ++ base ∷ [])
              (sym (append_assoc q rest (base ∷ [])) ∙ ap (λ x. x ++ base ∷ []) e)) in
        let (u, d) = enter_all W (s.forest, root) (split slash dir) in
        elim (Result-cases (load_attr W path)) [
          | inl (attr, e) ↦
              rw (e, place)
                (add_file-IsFree u d names base attr plain free there
                  (λ same. apart [] (append-nil q ∙ same)))
          | inr (inl (x, e)) ↦ rw (e, place) free
          | inr (inr (m, e)) ↦ rw (e, place) free
        ]

    mount_file-IsFree :
        (path : Str) (s : State W)
        → IsFree W s.forest root q
        → ((at : Str × Str) → inode_path source path ≡ ok at → IsApart q (mounted_names at))
        → IsFree W (mount_file W source root key path s).0.forest root q
    unfolding mount_file
    mount_file-IsFree path s h apart =
        elim (Result-cases (W.disk.read_file path >>= λ enc. decrypt W.pgp key enc)) [
          | inl (plain, e) ↦ elim (Result-cases (inode_path source path)) [
            | inl (at, e') ↦ rw (e, mount_file, e') (place-IsFree path plain at s h (apart at e'))
            | inr (inl (x, e')) ↦ rw (e, mount_file, e') h
            | inr (inr (m, e')) ↦ rw (e, mount_file, e') h
          ]
          | inr (inl (x, e)) ↦ rw (e, mount_file) h
          | inr (inr (m, e)) ↦ rw (e, mount_file) h
        ]

    -- The callback for a file that is mounted elsewhere leaves the path free.
    pub visit-IsFree :
        (path : Str) (s : State W)
        → IsFree W s.forest root q
        → (has_suffix path encrypted_suffix ≡ true
            → (at : Str × Str) → inode_path source path ≡ ok at
            → IsApart q (mounted_names at))
        → IsFree W (visit W source root key path (some regular) none s).0.forest root q
    unfolding visit
    visit-IsFree path s h apart = elim (Bool-cases (has_suffix path encrypted_suffix)) [
      | inl e ↦ rw (e, visit) (mount_file-IsFree path s h (apart e))
      | inr e ↦ rw (e, visit) h
    ]
