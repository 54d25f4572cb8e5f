-- ===== src/Cli/Mount/Served.antt =====
-- What is served once both providers have returned.
use gpgfs.Base.{
  ℕ, ◌≡◌, refl, Bool, true, Option, none, some, List, [], ◌∷◌, ◌++◌, Result, ok, >>=-eq-ok, suc,
  All, sym, ◌∙◌, ap, arith, subst, ◌+◌, ◌<◌, ◌^◌,
}
use gpgfs.Std.Strings.{Str}
use gpgfs.Std.FilePath.{is_rooted}
use gpgfs.Std.FilePath.Clean.{IsPlain, rooted, clean-rooted}
use gpgfs.Std.WalkDir.{Entry, Root, present}
use gpgfs.Std.WalkDir.Visits.{HasFile}
use gpgfs.Fuse.Enclave.{Bytes, LockedBuffer, IsSealing, open_pointer}
use gpgfs.Fuse.Attr.{Attr}
use gpgfs.Fuse.Inodes.{IsInodeTree}
use gpgfs.Fuse.Key.OpenPgp.{UserId}
use gpgfs.Fuse.Key.{key_type_private, new_key}
use gpgfs.Fuse.Preload.{World, Fuse, Inode, State, Stop, failure, panicking, preload, load_attr}
use gpgfs.Fuse.Preload.Paths.{encrypted_path}
use gpgfs.Fuse.Preload.Placed.{descend}
use gpgfs.Fuse.Preload.Complete.{Decrypts, preload_complete}
use gpgfs.Fuse.Preload.Served.{Serves, IsBare, IsAlone, preload-Serves}
use gpgfs.Fuse.Mount.{Options, new-eq-ok, mount}
use gpgfs.Config.Sections.{FuseConfig}
use gpgfs.Cli.Mount.{deref, filled, mount_config, provide_fuse, provide_server}

pub rooted-is_rooted : (parts : List Str) → is_rooted (rooted parts) ≡ true
unfolding is_rooted
rooted-is_rooted parts = ground arith

-- The filesystem that is provided reads from the source directory.
provide_fuse-source :
    (W : World) (getwd : Result Str) (uid : UserId) (section : Option FuseConfig)
    (source target : List Str) (f : Fuse W.enclaves)
    → All IsPlain source
    → provide_fuse W getwd uid section (rooted source) (rooted target) ≡ ok f
    → f.source ≡ rooted source
unfolding provide_fuse
provide_fuse-source W getwd uid section source target f plain h =
    let (c, _, h1) = >>=-eq-ok (deref section) _ h in
    let (key, _, h2) = >>=-eq-ok (deref c.key) _ h1 in
    let (buf, _, h3) = >>=-eq-ok (W.disk.read_file key.path) _ h2 in
    let (enclave, _, h4) =
      >>=-eq-ok (new_key W.pgp W.enclaves key.format uid key_type_private buf) _ h3 in
    let (_, _, made) =
      new-eq-ok W.enclaves W.disk.stat getwd (mount_config c) enclave (rooted source)
        (rooted target) f (rooted-is_rooted source) (rooted-is_rooted target) h4 in
    ap (λ x. x.source) made ∙ clean-rooted source plain

filled-eq-ok :
    (W : World) {S : Type 0} (mount_fs : Str → Fuse W.enclaves → Options → Result S)
    (notify : Result Bool) (r : State W × Option Stop) (s : State W)
    → filled W mount_fs notify r ≡ ok s
    → (r.1 ≡ none) × (r.0 ≡ s)
unfolding filled
filled-eq-ok W mount_fs notify (t, none) s h = (refl, cc)
filled-eq-ok W mount_fs notify (t, some (failure e)) s h = cc
filled-eq-ok W mount_fs notify (t, some (panicking m)) s h = cc

-- A server that is provided was mounted, is counted in the wait group, and holds the state that
-- the filling has ended in with no error.
pub provide_server-eq-ok :
    (W : World) {S : Type 0} (mount_fs : Str → Fuse W.enclaves → Options → Result S)
    (notify : Result Bool) (f : Fuse W.enclaves) (root : Inode W) (tree : Root) (s after : State W)
    (server : S) (running n : ℕ)
    → provide_server W mount_fs notify f root tree s running ≡ ok (server, after, n)
    → ((preload W f root tree s).1 ≡ none)
      × ((preload W f root tree s).0 ≡ after)
      × (n ≡ suc running)
unfolding provide_server
provide_server-eq-ok W mount_fs notify f root tree s after server running n h =
    let (sv, _, h1) = >>=-eq-ok (mount W.enclaves mount_fs f) _ h in
    let (t, filling, h2) = >>=-eq-ok (filled W mount_fs notify (preload W f root tree s)) _ h1 in
    let (b, _, h3) = >>=-eq-ok notify _ h2 in
    let (quiet, same) = filled-eq-ok W mount_fs notify (preload W f root tree s) t filling in
    let same' : t ≡ after = cc in (quiet, same ∙ same', cc)

-- Once the two providers of `MountAction` have returned for a rooted source and target of plain
-- names, every file of the source that the key decrypts is there: for each `base.gpg` in a
-- directory of the walked tree, of plain names, its attributes could be loaded, and there is an
-- inode at the same names below the mount point; and one more component waits for the end. The
-- inode tree behaves as go-fuse documents.
pub mount_complete :
    (W : World) (L : IsInodeTree W.inodes) {S : Type 0}
    (mount_fs : Str → Fuse W.enclaves → Options → Result S) (notify : Result Bool)
    (getwd : Result Str) (uid : UserId) (section : Option FuseConfig)
    (source target dirs : List Str) (base : Str) (f : Fuse W.enclaves) (root : Inode W)
    (tree : Entry) (s after : State W) (server : S) (running n : ℕ) (key : LockedBuffer)
    (plain : Bytes)
    → All IsPlain source
    → All IsPlain dirs
    → IsPlain base
    → provide_fuse W getwd uid section (rooted source) (rooted target) ≡ ok f
    → provide_server W mount_fs notify f root (present tree) s running ≡ ok (server, after, n)
    → open_pointer W.enclaves f.key ≡ ok key
    → HasFile (encrypted_path source dirs base) (rooted source) tree
    → Decrypts W key (encrypted_path source dirs base) plain
    → (attr : Attr) × (load_attr W (encrypted_path source dirs base) ≡ ok attr)
      × (i : Inode W) × (descend W after.forest root (dirs ++ base ∷ []) ≡ some i)
      × (n ≡ suc running)
mount_complete W L mount_fs notify getwd uid section source target dirs base f root tree s after
      server running n key plain hs hd hb made served opened there d =
    let (quiet, ends, counted) =
      provide_server-eq-ok W mount_fs notify f root (present tree) s after server running n
        served in
    let (attr, loaded, i, found) =
      preload_complete W L f root tree s key source dirs base plain hs hd hb
        (provide_fuse-source W getwd uid section source target f hs made) opened quiet there d in
    (
      attr,
      loaded,
      i,
      sym (ap (λ (t : State W). descend W t.forest root (dirs ++ base ∷ [])) ends) ∙ found,
      counted,
    )

-- Once the two providers of `MountAction` have returned for a rooted source and target of plain
-- names, with a root that had no child, a file of the source is served as what it decrypts to. No
-- other file of the tree is mounted at its names or below them.
pub mount-Serves :
    (W : World) (L : IsInodeTree W.inodes) {S : Type 0}
    (mount_fs : Str → Fuse W.enclaves → Options → Result S) (notify : Result Bool)
    (getwd : Result Str) (uid : UserId) (section : Option FuseConfig)
    (source target dirs : List Str) (base : Str) (f : Fuse W.enclaves) (root : Inode W)
    (tree : Entry) (s after : State W) (server : S) (running n : ℕ) (key : LockedBuffer)
    (text : Bytes) (off len : ℕ)
    → IsSealing W.enclaves
    → All IsPlain source
    → All IsPlain dirs
    → IsPlain base
    → provide_fuse W getwd uid section (rooted source) (rooted target) ≡ ok f
    → provide_server W mount_fs notify f root (present tree) s running ≡ ok (server, after, n)
    → open_pointer W.enclaves f.key ≡ ok key
    → IsBare W s.forest root
    → HasFile (encrypted_path source dirs base) (rooted source) tree
    → IsAlone source (encrypted_path source dirs base) tree (dirs ++ base ∷ [])
    → Decrypts W key (encrypted_path source dirs base) text
    → off + len < 2 ^ 63
    → Serves W after.forest root (dirs ++ base ∷ []) text off len
mount-Serves W L mount_fs notify getwd uid section source target dirs base f root tree s after
      server running n key text off len S hs hd hb made served opened bare there alone d small =
    let (quiet, ends, _) =
      provide_server-eq-ok W mount_fs notify f root (present tree) s after server running n
        served in
    subst (λ (t : State W). Serves W t.forest root (dirs ++ base ∷ []) text off len) ends
      (preload-Serves W L f root tree s key source dirs base text off len S hs hd hb
        (provide_fuse-source W getwd uid section source target f hs made) opened bare there alone d
        quiet small)
