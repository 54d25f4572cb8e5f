-- ===== src/Fuse/Preload/Paths.antt =====
-- Where a file of the source stands in the mounted filesystem.
use gpgfs.Base.{◌≡◌, ◌≢◌, refl, List, [], ◌∷◌, ◌++◌, ok, All, ◌∙◌, ap, append_assoc}
use gpgfs.Std.Strings.{Str, join, trim_suffix}
use gpgfs.Std.Strings.Laws.{trim_suffix-append}
use gpgfs.Std.FilePath.{slash, clean, rel, split_path}
use gpgfs.Std.FilePath.Clean.{IsPlain, rooted, All-append}
use gpgfs.Std.FilePath.Relative.{
  rel-below, rel-below_slash, clean-below, split_path-join, dir_text, rooted-append_suffix,
}
use gpgfs.Fuse.Preload.{encrypted_suffix, inode_path}

-- The path of the encrypted file `base.gpg` in the directory `dirs` below the source.
abbrev pub encrypted_path : List Str → List Str → Str → Str
encrypted_path source dirs base = rooted (source ++ (dirs ++ (base ++ encrypted_suffix) ∷ []))

snoc-ne-nil : (dirs : List Str) (base : Str) → dirs ++ base ∷ [] ≢ []
snoc-ne-nil [] base = cc
snoc-ne-nil (d ∷ ds) base = cc

trim-encrypted_path :
    (source dirs : List Str) (base : Str)
    → trim_suffix (encrypted_path source dirs base) encrypted_suffix
      ≡ rooted (source ++ (dirs ++ base ∷ []))
trim-encrypted_path source dirs base =
    rw (← append_assoc source dirs, rooted-append_suffix (source ++ dirs) base encrypted_suffix)
      (trim_suffix-append _ encrypted_suffix ∙ ap rooted (append_assoc source dirs (base ∷ [])))

inode_path_lem :
    (source path p : Str)
    → rel source (trim_suffix path encrypted_suffix) ≡ ok p
    → inode_path source path ≡ ok (split_path (clean p))
unfolding inode_path
inode_path_lem source path p e = rw e refl

-- A file `base.gpg` in the directory `dirs` below a rooted source, all of plain names, is mounted
-- as `base` in the directory of the same names below the mount point.
pub inode_path-encrypted_path :
    (source dirs : List Str) (base : Str)
    → All IsPlain source
    → All IsPlain dirs
    → IsPlain base
    → inode_path (rooted source) (encrypted_path source dirs base) ≡ ok (dir_text dirs, base)
inode_path-encrypted_path source dirs base hs hd hb =
    let rest = dirs ++ base ∷ [] in
    let plain = All-append IsPlain dirs (base ∷ []) hd (hb, tt) in
    inode_path_lem (rooted source) (encrypted_path source dirs base) (join slash rest) (
      rw (trim-encrypted_path source dirs base)
        (rel-below source rest (snoc-ne-nil dirs base) hs plain))
    ∙ ap ok (
        ap split_path (clean-below rest (snoc-ne-nil dirs base) plain)
        ∙ split_path-join dirs base hb.3)

-- A file whose name is the suffix alone is mounted in the place of its own directory: `.gpg` in
-- the directory `d`, below a rooted source, all of plain names, takes the path of `d` itself.
pub inode_path-bare_suffix :
    (source dirs : List Str) (d : Str)
    → All IsPlain source
    → All IsPlain dirs
    → IsPlain d
    → inode_path (rooted source) (encrypted_path source (dirs ++ d ∷ []) []) ≡ ok (dir_text dirs, d)
inode_path-bare_suffix source dirs d hs hd h =
    let rest = dirs ++ d ∷ [] in
    let plain = All-append IsPlain dirs (d ∷ []) hd (h, tt) in
    let all = All-append IsPlain source rest hs plain in
    inode_path_lem (rooted source) (encrypted_path source rest []) (join slash rest) (
      rw (trim-encrypted_path source rest [], ← append_assoc source rest)
        (rel-below_slash source rest (snoc-ne-nil dirs d) hs plain))
    ∙ ap ok
        (ap split_path (clean-below rest (snoc-ne-nil dirs d) plain) ∙ split_path-join dirs d h.3)
