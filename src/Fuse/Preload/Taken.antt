-- ===== src/Fuse/Preload/Taken.antt =====
-- A file whose place in the mounted tree is taken.
use gpgfs.Base.{◌≡◌, refl, none, some, List, [], ◌∷◌, ◌++◌, ok, All, ap, ◌∙◌}
use gpgfs.Std.Strings.{Str}
use gpgfs.Std.FilePath.Clean.{IsPlain, rooted}
use gpgfs.Std.FilePath.Relative.{dir_text}
use gpgfs.Std.WalkDir.{regular}
use gpgfs.Fuse.Enclave.{Bytes, LockedBuffer}
use gpgfs.Fuse.Attr.{Attr}
use gpgfs.Fuse.Inodes.{IsInodeTree}
use gpgfs.Fuse.Preload.{World, Node, Inode, State, load_attr, place, visit}
use gpgfs.Fuse.Preload.Kept.{visit-IsKept}
use gpgfs.Fuse.Preload.Paths.{encrypted_path, inode_path-encrypted_path}
use gpgfs.Fuse.Preload.Placed.{descend, descend-Extends}
use gpgfs.Fuse.Preload.Complete.{Decrypts, visit_lem, encrypted_path-has_suffix}

place-quiet :
    (W : World) (source : Str) (root : Inode W) (key : LockedBuffer) (path : Str) (plain : Bytes)
    (at : Str × Str) (s : State W) (attr : Attr)
    → load_attr W path ≡ ok attr
    → let (after, stop) = place W source root key path plain at s in
      (stop ≡ none) × (after.warnings ≡ s.warnings)
unfolding place
place-quiet W source root key path plain (dir, base) s attr e = rw (e, place) (refl, refl)

-- If there is an inode already at the names of a file `base.gpg`, below a rooted source and of
-- plain names, then the file, which the key decrypts and whose attributes can be loaded, is dropped
-- with nothing said: `Preload`'s callback reports no error and writes no warning, the inode at
-- these names is the same as before, and so is what it embeds. The inode tree behaves as go-fuse
-- documents.
pub visit-taken :
    (W : World) (L : IsInodeTree W.inodes) (root : Inode W) (key : LockedBuffer)
    (source dirs : List Str) (base : Str) (plain : Bytes) (attr : Attr) (s : State W) (i : Inode W)
    (n : Node W.enclaves)
    → All IsPlain source
    → All IsPlain dirs
    → IsPlain base
    → Decrypts W key (encrypted_path source dirs base) plain
    → load_attr W (encrypted_path source dirs base) ≡ ok attr
    → descend W s.forest root (dirs ++ base ∷ []) ≡ some i
    → W.inodes.node s.forest i ≡ some n
    → let (after, stop) =
        visit W (rooted source) root key (encrypted_path source dirs base) (some regular) none s in
      (stop ≡ none)
      × (after.warnings ≡ s.warnings)
      × (descend W after.forest root (dirs ++ base ∷ []) ≡ some i)
      × (W.inodes.node after.forest i ≡ some n)
visit-taken W L root key source dirs base plain attr s i n hs hd hb d loaded taken embeds =
    let path = encrypted_path source dirs base in
    let e =
      visit_lem W (rooted source) root key path plain (dir_text dirs, base) s
        (encrypted_path-has_suffix source dirs base) d
        (inode_path-encrypted_path source dirs base hs hd hb) in
    let (quiet, silent) =
      place-quiet W (rooted source) root key path plain (dir_text dirs, base) s attr loaded in
    let grown = (visit-IsKept W L (rooted source) root key).step path (some regular) none s in
    (
      ap (λ r. r.1) e ∙ quiet,
      ap (λ r. r.0.warnings) e ∙ silent,
      descend-Extends W s.forest _ root i (dirs ++ base ∷ []) grown taken,
      grown.nodes i n embeds,
    )
