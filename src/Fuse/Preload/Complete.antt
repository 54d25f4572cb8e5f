-- ===== src/Fuse/Preload/Complete.antt =====
-- `Preload` mounts every file of the source that it can decrypt.
use gpgfs.Base.{
  ◌≡◌, ◌≢◌, refl, true, none, some, List, [], ◌∷◌, ◌++◌, ok, inl, inr, Result-cases, All, sym, ◌∙◌,
  ap, subst, ◌>>=◌, append_assoc,
}
use gpgfs.Std.Strings.{Str, has_suffix}
use gpgfs.Std.Strings.Laws.{has_suffix-append}
use gpgfs.Std.FilePath.Clean.{IsPlain, rooted}
use gpgfs.Std.FilePath.Relative.{dir_text, split-dir_text, rooted-append_suffix}
use gpgfs.Std.WalkDir.{regular, Entry, Root, present, walk}
use gpgfs.Std.WalkDir.Visits.{HasFile, walk-Visited}
use gpgfs.Fuse.Enclave.{Bytes, LockedBuffer, open_pointer}
use gpgfs.Fuse.Attr.{Attr}
use gpgfs.Fuse.File.{new_file}
use gpgfs.Fuse.Key.{decrypt}
use gpgfs.Fuse.Inodes.{IsInodeTree}
use gpgfs.Fuse.Preload.{
  World, Fuse, Forest, Inode, State, enter, enter_all, load_attr, inode_path, place, mount_file,
  visit, preload, encrypted_suffix,
}
use gpgfs.Fuse.Preload.Kept.{visit-IsKept}
use gpgfs.Fuse.Preload.Paths.{encrypted_path, inode_path-encrypted_path}
use gpgfs.Fuse.Preload.Placed.{descend, descend-Extends, IsPlacedAt, add_file-IsPlacedAt}

IsNamed-IsPlain : (cs : List Str) → All IsPlain cs → All (λ c. c ≢ []) cs
IsNamed-IsPlain [] h = tt
IsNamed-IsPlain (c ∷ cs) (h, hs) = (h.0, IsNamed-IsPlain cs hs)

pub encrypted_path-has_suffix :
    (source dirs : List Str) (base : Str)
    → has_suffix (encrypted_path source dirs base) encrypted_suffix ≡ true
encrypted_path-has_suffix source dirs base =
    rw (← append_assoc source dirs, rooted-append_suffix (source ++ dirs) base encrypted_suffix)
      (has_suffix-append (rooted ((source ++ dirs) ++ base ∷ [])) encrypted_suffix)

module _ (W : World) where
  -- The empty piece behind the last slash is passed over.
  enter_all-nil :
      (t : Forest W) (p : Inode W) (cs : List Str)
      → enter_all W (t, p) (cs ++ [] ∷ []) ≡ enter_all W (t, p) cs
  unfolding enter_all
  enter_all-nil t p [] = refl
  enter_all-nil t p (c ∷ cs) = let (u, q) = enter W (t, p) c in enter_all-nil u q cs

  -- The file at the path can be read and decrypted to the text.
  abbrev pub Decrypts : LockedBuffer → Str → Bytes → Type 0
  Decrypts key path plain = (W.disk.read_file path >>= λ enc. decrypt W.pgp key enc) ≡ ok plain

module _ (W : World) (source : Str) (root : Inode W) (key : LockedBuffer) (path : Str)
    (plain : Bytes) (at : Str × Str) (s : State W) where
  mount_file_lem :
      Decrypts W key path plain
      → inode_path source path ≡ ok at
      → mount_file W source root key path s ≡ place W source root key path plain at s
  unfolding mount_file
  mount_file_lem d e = rw (d, mount_file, e) refl

  pub visit_lem :
      has_suffix path encrypted_suffix ≡ true
      → Decrypts W key path plain
      → inode_path source path ≡ ok at
      → visit W source root key path (some regular) none s ≡ place W source root key path plain at s
  unfolding visit
  visit_lem h d e = rw (h, visit) (mount_file_lem d e)

pub preload_lem :
    (W : World) (f : Fuse W.enclaves) (root : Inode W) (tree : Root) (s : State W)
    (key : LockedBuffer)
    → open_pointer W.enclaves f.key ≡ ok key
    → preload W f root tree s ≡ walk (visit W f.source root key) f.source tree s
unfolding preload
preload_lem W f root tree s key e = rw (e, preload) refl

module _ (W : World) (L : IsInodeTree W.inodes) (root : Inode W) (key : LockedBuffer)
    (source dirs : List Str) (base : Str) (source_plain : All IsPlain source)
    (dirs_plain : All IsPlain dirs) (base_plain : IsPlain base) (plain : Bytes) where
  abbrev path : Str
  path = encrypted_path source dirs base

  place-IsPlacedAt :
      (s : State W)
      → (place W (rooted source) root key path plain (dir_text dirs, base) s).1 ≡ none
      → (attr : Attr) × (load_attr W path ≡ ok attr)
        × IsPlacedAt W s.forest
            (place W (rooted source) root key path plain (dir_text dirs, base) s).0.forest
            root
            (dirs ++ base ∷ [])
            (new_file W.enclaves attr (W.enclaves.new_enclave plain))
  unfolding place
  place-IsPlacedAt s h = elim (Result-cases (load_attr W path)) [
    | inl (attr, e) ↦ (
      attr,
      e,
      rw (e, place, split-dir_text dirs dirs_plain, enter_all-nil W s.forest root dirs)
          (add_file-IsPlacedAt W L s.forest root dirs base attr plain
            (IsNamed-IsPlain dirs dirs_plain)),
    )
    | inr (inl (x, e)) ↦ let h' = rw (e, place) at h in absurd (cc)
    | inr (inr (m, e)) ↦ let h' = rw (e, place) at h in absurd (cc)
  ]

  -- For a file `base.gpg` in the directory `dirs` below a rooted source, all of plain names, whose
  -- text can be read and decrypted: if the callback, called for it, reports no error, then its
  -- attributes could be loaded, and there is an inode at the same names below the mount point
  -- afterwards. It was there before, or else nothing was there and it embeds a file of the
  -- decrypted text with these attributes. The inode tree behaves as go-fuse documents.
  pub visit-IsPlacedAt :
      (s : State W)
      → Decrypts W key path plain
      → (visit W (rooted source) root key path (some regular) none s).1 ≡ none
      → (attr : Attr) × (load_attr W path ≡ ok attr)
        × IsPlacedAt W s.forest
            (visit W (rooted source) root key path (some regular) none s).0.forest
            root
            (dirs ++ base ∷ [])
            (new_file W.enclaves attr (W.enclaves.new_enclave plain))
  visit-IsPlacedAt s d h =
      let e =
        visit_lem W (rooted source) root key path plain (dir_text dirs, base) s
          (encrypted_path-has_suffix source dirs base) d
          (inode_path-encrypted_path source dirs base source_plain dirs_plain base_plain) in
      let (attr, loaded, placed) = place-IsPlacedAt s (sym (ap (λ r. r.1) e) ∙ h) in
      (attr, loaded, rw e placed)

-- If the key opens and the walk ends with no error, every file of the source that can be decrypted
-- is mounted: for each `base.gpg` in a directory of the walked tree, all of plain names below a
-- rooted source, its attributes could be loaded, and there is an inode at the same names below the
-- mount point at the end. The inode tree behaves as go-fuse documents.
pub preload_complete :
    (W : World) (L : IsInodeTree W.inodes) (f : Fuse W.enclaves) (root : Inode W) (tree : Entry)
    (s : State W) (key : LockedBuffer) (source dirs : List Str) (base : Str) (plain : Bytes)
    → All IsPlain source
    → All IsPlain dirs
    → IsPlain base
    → f.source ≡ rooted source
    → open_pointer W.enclaves f.key ≡ ok key
    → (preload W f root (present tree) s).1 ≡ none
    → HasFile (encrypted_path source dirs base) (rooted source) tree
    → Decrypts W key (encrypted_path source dirs base) plain
    → (attr : Attr) × (load_attr W (encrypted_path source dirs base) ≡ ok attr)
      × (i : Inode W) × (descend W
            (preload W f root (present tree) s).0.forest
            root
            (dirs ++ base ∷ [])
          ≡ some i)
preload_complete W L f root tree s key source dirs base plain hs hd hb at opened done there d =
    let e = preload_lem W f root (present tree) s key opened in
    let e' : preload W f root (present tree) s
        ≡ walk (visit W (rooted source) root key) (rooted source) (present tree) s =
      subst
        (λ src.
          preload W f root (present tree) s ≡ walk (visit W src root key) src (present tree) s)
        at e in
    let (u, before, quiet, after) =
      walk-Visited (visit W (rooted source) root key) _ (visit-IsKept W L (rooted source) root key)
        (encrypted_path source dirs base) (rooted source) tree s (sym (ap (λ r. r.1) e') ∙ done)
        there in
    let (attr, loaded, (i, found, _)) =
      visit-IsPlacedAt W L root key source dirs base hs hd hb plain u d quiet in
    (attr, loaded, i, rw e' (descend-Extends W _ _ root i (dirs ++ base ∷ []) after found))
