-- ===== src/Cli/Mount/Action/Reads.antt =====
-- What the files return that the action serves.
use gpgfs.Base.{ℕ, ◌+◌, ◌^◌, ◌<◌, ◌≡◌, ◌≢◌, List, [], ◌∷◌, ◌++◌, All, Result, ok}
use gpgfs.Std.Strings.{Str}
use gpgfs.Std.FilePath.Clean.{IsPlain, rooted}
use gpgfs.Std.WalkDir.{Entry, present}
use gpgfs.Std.WalkDir.Visits.{HasFile}
use gpgfs.Fuse.Enclave.{Bytes, LockedBuffer, IsSealing, open_pointer}
use gpgfs.Fuse.Inodes.{IsInodeTree}
use gpgfs.Fuse.Key.{Entity, key_type_private}
use gpgfs.Fuse.Key.Conversion.{IsEntityOf, IsArmoredKey}
use gpgfs.Fuse.Preload.{World, Fuse}
use gpgfs.Fuse.Preload.Paths.{encrypted_path}
use gpgfs.Fuse.Preload.Complete.{Decrypts}
use gpgfs.Fuse.Preload.Served.{Serves, IsBare, IsAlone}
use gpgfs.Fuse.Mount.{Options}
use gpgfs.Config.Tree.Valid.{key_path}
use gpgfs.Config.Load.{Revip, IsRevip}
use gpgfs.Log.{Zerolog}
use gpgfs.Telemetry.{Framework}
use gpgfs.Cli.Mount.{provide_fuse, provide_server}
use gpgfs.Cli.Mount.Served.{mount-Serves}
use gpgfs.Cli.Mount.Action.{Call, Arguments, arguments}
use gpgfs.Cli.Mount.Action.Ready.{arguments-eq-ok, arguments-serves}

module _ (R : Revip) (Z : Zerolog) (F : Framework) (W : World) {S : Type 0}
    (mount_fs : Str → Fuse W.enclaves → Options → Result S) (x : Call W F) where
  -- Once the providers of `MountAction` have returned for a rooted source and target of plain names,
  -- a walk that finds a tree and a root with no child, the loaded configuration names a file of an SSH
  -- key, by a path that is not empty, and the key of the filesystem is sealed from the private armor
  -- of the signed entity that this SSH key stands for. Every file `base.gpg` in a directory of the
  -- walked tree, of plain names, that the opened key decrypts is served: there is an inode at the
  -- same names below the mount point, and a read of it returns the part of the decrypted text, or
  -- panics: if the text is empty, or the read starts behind its end. No other file of the tree is
  -- mounted at these names or below them; the offset and the length add up to less than 2^63. revip
  -- loads as it documents, and the inode tree and memguard behave as documented.
  pub arguments-Serves :
      (y : Arguments W S Z F) (source target dirs : List Str) (base : Str) (tree : Entry)
      (key : LockedBuffer) (text : Bytes) (off len : ℕ)
      → IsRevip R
      → IsInodeTree W.inodes
      → IsSealing W.enclaves
      → All IsPlain source
      → All IsPlain dirs
      → IsPlain base
      → x.source ≡ rooted source
      → x.target ≡ rooted target
      → x.tree ≡ present tree
      → IsBare W x.inodes.forest x.root
      → arguments R Z F W mount_fs x ≡ ok y
      → open_pointer W.enclaves y.fuse.key ≡ ok key
      → HasFile (encrypted_path source dirs base) (rooted source) tree
      → IsAlone source (encrypted_path source dirs base) tree (dirs ++ base ∷ [])
      → Decrypts W key (encrypted_path source dirs base) text
      → off + len < 2 ^ 63
      → ((raw : Bytes) × (e : Entity W.pgp) × (out : Bytes) × (key_path y.config ≢ [])
          × (W.disk.read_file (key_path y.config) ≡ ok raw)
          × IsEntityOf W.pgp x.uid raw e
          × IsArmoredKey W.pgp x.uid raw key_type_private e out
          × (y.fuse.key ≡ W.enclaves.new_enclave out))
        × Serves W y.inodes.forest x.root (dirs ++ base ∷ []) text off len
  arguments-Serves y source target dirs base tree key text off len rev ino S hs hd hb e_s e_t e_r
        bare h opened there alone d small =
      let (_, r, n, _, h_f, h_s) = arguments-eq-ok R Z F W mount_fs x y h in
      let made : provide_fuse W x.getwd x.uid y.config.fuse (rooted source) (rooted target)
          ≡ ok y.fuse =
        cc in
      let served : provide_server W mount_fs x.notify y.fuse x.root (present tree) x.inodes n
          ≡ ok (y.server, y.inodes, y.running) =
        cc in
      let (sealed, _, _) =
        arguments-serves R Z F W mount_fs x y source target dirs base tree key text rev ino hs hd hb
          e_s e_t e_r h opened there d in
      (
        sealed,
        mount-Serves W ino mount_fs x.notify x.getwd x.uid y.config.fuse source target dirs base
            y.fuse x.root tree x.inodes y.inodes y.server n y.running key text off len S hs hd hb
            made served opened bare there alone d small,
      )
