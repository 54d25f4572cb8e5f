-- ===== src/Cli/Mount/Action/Ready.antt =====
-- What the action has before its event loop.
use gpgfs.Base.{
  Bool, false, ok-injective, true, ℕ, suc, ◌≡◌, ◌≢◌, refl, sym, ap, ◌∙◌, subst, some, List, [], ◌∷◌,
  ◌++◌, All, Result, ok, >>=-eq-ok,
}
use gpgfs.Std.Strings.{Str}
use gpgfs.Std.FilePath.Clean.{IsPlain, rooted}
use gpgfs.Std.WalkDir.{Entry, present}
use gpgfs.Std.WalkDir.Visits.{HasFile}
use gpgfs.Fuse.Enclave.{Bytes, LockedBuffer, open_pointer}
use gpgfs.Fuse.Inodes.{IsInodeTree}
use gpgfs.Fuse.Key.{Entity, key_type_private}
use gpgfs.Fuse.Key.Conversion.{IsEntityOf, IsArmoredKey}
use gpgfs.Fuse.Preload.{World, Fuse, Inode}
use gpgfs.Fuse.Preload.Paths.{encrypted_path}
use gpgfs.Fuse.Preload.Placed.{descend}
use gpgfs.Fuse.Preload.Complete.{Decrypts}
use gpgfs.Fuse.Mount.{Options}
use gpgfs.Config.Tree.Valid.{key_path}
use gpgfs.Config.Load.{Revip, IsRevip, load}
use gpgfs.Log.{Zerolog}
use gpgfs.Telemetry.{Framework, provide_telemetry}
use gpgfs.Telemetry.Counted.{components, provide_telemetry-counts}
use gpgfs.Cli.Settings.{provide_config, provide_logger}
use gpgfs.Cli.Shutdown.{exited, Steps}
use gpgfs.Cli.Shutdown.Ends.{stop_signal-exits}
use gpgfs.Cli.Mount.{provide_fuse, provide_server}
use gpgfs.Cli.Mount.Served.{rooted-is_rooted, provide_server-eq-ok, mount_complete}
use gpgfs.Cli.Mount.Configured.{provided_key}
use gpgfs.Cli.Mount.Action.{Call, Arguments, arguments, begun}

module _ (R : Revip) (Z : Zerolog) (F : Framework) (W : World) {S : Type 0}
    (mount_fs : Str → Fuse W.enclaves → Options → Result S) (x : Call W F) where
  -- What the providers have returned.
  abbrev pub Provided : Arguments W S Z F → Type 0
  Provided y =
      (load R Z x.process x.paths [] ≡ ok y.config)
      × (registry : F.metrics.State) × (counted : ℕ) × (provide_telemetry F y.config x.registry 0
          ≡ ok (y.telemetry, registry, counted))
      × (provide_fuse W x.getwd x.uid y.config.fuse x.source x.target ≡ ok y.fuse)
      × (provide_server W mount_fs x.notify y.fuse x.root x.tree x.inodes counted
          ≡ ok (y.server, y.inodes, y.running))

  pub arguments-eq-ok : (y : Arguments W S Z F) → arguments R Z F W mount_fs x ≡ ok y → Provided y
  unfolding arguments provide_config
  arguments-eq-ok y h =
      let (c, h_c, h1) = >>=-eq-ok (load R Z x.process x.paths []) _ h in
      let (l, _, h2) = >>=-eq-ok (provide_logger Z x.process c x.level) _ h1 in
      let ((t, r, n), h_t, h3) = >>=-eq-ok (provide_telemetry F c x.registry 0) _ h2 in
      let (f, h_f, h4) = >>=-eq-ok (provide_fuse W x.getwd x.uid c.fuse x.source x.target) _ h3 in
      let ((s, after, running), h_s, h5) =
        >>=-eq-ok (provide_server W mount_fs x.notify f x.root x.tree x.inodes n) _ h4 in
      subst Provided (ok-injective h5) (h_c, r, n, h_t, h_f, h_s)

  -- Once the providers of `MountAction` have returned, the wait group counts the filesystem, and the
  -- telemetry server if there is one. From where the event loop begins, a run leads over a signal
  -- that stops it to the exit with 0, with none of them left, with the profilers or without.
  pub arguments-exits :
      (y : Arguments W S Z F) (profiling : Bool)
      → arguments R Z F W mount_fs x ≡ ok y
      → (y.running ≡ suc (components F y.telemetry))
        × Steps (begun profiling y.running) (record {
          phase = exited 0;
          done = true;
          running = 0;
          ended = false;
          profiling = profiling;
        })
  unfolding begun
  arguments-exits y profiling h =
      let (_, r, n, h_t, _, h_s) = arguments-eq-ok y h in
      let (_, _, more) =
        provide_server-eq-ok W mount_fs x.notify y.fuse x.root x.tree x.inodes y.inodes y.server n
          y.running h_s in
      (
        more ∙ ap suc (provide_telemetry-counts F y.config x.registry r n y.telemetry h_t),
        stop_signal-exits (begun profiling y.running) refl,
      )

  -- Once the providers of `MountAction` have returned for a rooted source and target of plain names
  -- and a walk that finds a tree, the loaded configuration names a file of an SSH key, by a path that is not
  -- empty, and the key of the filesystem is sealed from the private armor of the signed entity that
  -- this SSH key stands for. For every `base.gpg` in a directory of the walked tree, of plain names,
  -- that the opened key decrypts, there is an inode at the same names below the mount point. revip
  -- loads as it documents, and the inode tree behaves as go-fuse documents.
  pub arguments-serves :
      (y : Arguments W S Z F) (source target dirs : List Str) (base : Str) (tree : Entry)
      (key : LockedBuffer) (plain : Bytes)
      → IsRevip R
      → IsInodeTree W.inodes
      → All IsPlain source
      → All IsPlain dirs
      → IsPlain base
      → x.source ≡ rooted source
      → x.target ≡ rooted target
      → x.tree ≡ present tree
      → arguments R Z F W mount_fs x ≡ ok y
      → open_pointer W.enclaves y.fuse.key ≡ ok key
      → HasFile (encrypted_path source dirs base) (rooted source) tree
      → Decrypts W key (encrypted_path source dirs base) plain
      → ((raw : Bytes) × (e : Entity W.pgp) × (out : Bytes) × (key_path y.config ≢ [])
          × (W.disk.read_file (key_path y.config) ≡ ok raw)
          × IsEntityOf W.pgp x.uid raw e
          × IsArmoredKey W.pgp x.uid raw key_type_private e out
          × (y.fuse.key ≡ W.enclaves.new_enclave out))
        × (i : Inode W) × (descend W y.inodes.forest x.root (dirs ++ base ∷ []) ≡ some i)
  arguments-serves y source target dirs base tree key plain rev ino hs hd hb e_s e_t e_r h opened
        there d =
      let (h_c, r, n, _, h_f, h_s) = arguments-eq-ok y h in
      let made : provide_fuse W x.getwd x.uid y.config.fuse (rooted source) (rooted target)
          ≡ ok y.fuse =
        cc in
      let served : provide_server W mount_fs x.notify y.fuse x.root (present tree) x.inodes n
          ≡ ok (y.server, y.inodes, y.running) =
        cc in
      let (path, raw, e, out, named, given, read, is_e, armored, sealed) =
        provided_key R Z x.process x.paths y.config W x.getwd x.uid (rooted source) (rooted target)
          y.fuse rev h_c (rooted-is_rooted source) (rooted-is_rooted target) made in
      let (_, _, i, found, _) =
        mount_complete W ino mount_fs x.notify x.getwd x.uid y.config.fuse source target dirs base
          y.fuse x.root tree x.inodes y.inodes y.server n y.running key plain hs hd hb made served
          opened there d in
      (
        (
          raw,
          e,
          out,
          λ empty. given (named ∙ empty),
          ap W.disk.read_file (sym named) ∙ read,
          is_e,
          armored,
          sealed,
        ),
        i,
        found,
      )
