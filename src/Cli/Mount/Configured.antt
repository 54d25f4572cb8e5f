-- ===== src/Cli/Mount/Configured.antt =====
-- With which key a filesystem is served that is made of a loaded configuration.
use gpgfs.Base.{true, sym, ap, ◌∙◌, >>=-eq-ok, [], ◌≡◌, ◌≢◌, Option, none, some, List, Result, ok}
use gpgfs.Std.Strings.{Str}
use gpgfs.Std.FilePath.{is_rooted}
use gpgfs.Fuse.Enclave.{Bytes}
use gpgfs.Fuse.Key.OpenPgp.{UserId}
use gpgfs.Fuse.Key.{Entity, key_type_private, new_key}
use gpgfs.Fuse.Key.Conversion.{IsEntityOf, IsArmoredKey, new_key-eq-ok}
use gpgfs.Fuse.Preload.{World, Fuse}
use gpgfs.Fuse.Mount.{new-eq-ok}
use gpgfs.Config.Sections.{Config}
use gpgfs.Config.Tree.Valid.{key_path, key_text}
use gpgfs.Config.Tree.{key_section}
use gpgfs.Config.Load.{Revip, IsRevip, load}
use gpgfs.Config.Load.Valid.{load-valid}
use gpgfs.Log.{Zerolog, Process}
use gpgfs.Cli.Mount.{deref, mount_config, provide_fuse}

deref-eq-ok : {A : Type 0} (o : Option A) (a : A) → deref o ≡ ok a → o ≡ some a
unfolding deref
deref-eq-ok none a h = cc
deref-eq-ok (some b) a h = cc

-- The provider of the filesystem, for a rooted source and target and a loaded configuration: if
-- it returns, the configuration names a file of an SSH key, by a path that is not empty, and the
-- key of the filesystem is sealed from the private armor of the signed entity that this SSH key
-- stands for. revip loads as it documents.
pub provided_key :
    (R : Revip) (Z : Zerolog) (process : Process) (paths : List Str) (c : Config) (W : World)
    (getwd : Result Str) (uid : UserId) (source target : Str) (f : Fuse W.enclaves)
    → IsRevip R
    → load R Z process paths [] ≡ ok c
    → is_rooted source ≡ true
    → is_rooted target ≡ true
    → provide_fuse W getwd uid c.fuse source target ≡ ok f
    → (path : Str) × (raw : Bytes) × (x : Entity W.pgp) × (out : Bytes) × (path ≡ key_path c)
      × (path ≢ [])
      × (W.disk.read_file path ≡ ok raw)
      × IsEntityOf W.pgp uid raw x
      × IsArmoredKey W.pgp uid raw key_type_private x out
      × (f.key ≡ W.enclaves.new_enclave out)
unfolding provide_fuse
provided_key R Z process paths c W getwd uid source target f L loaded hs ht h =
    let (section, hc, h1) = >>=-eq-ok (deref c.fuse) _ h in
    let (key, hk, h2) = >>=-eq-ok (deref section.key) _ h1 in
    let (buf, read, h3) = >>=-eq-ok (W.disk.read_file key.path) _ h2 in
    let (enclave, converted, h4) =
      >>=-eq-ok (new_key W.pgp W.enclaves key.format uid key_type_private buf) _ h3 in
    let (_, _, made) =
      new-eq-ok W.enclaves W.disk.stat getwd (mount_config section) enclave source target f hs ht
        h4 in
    let (format, x, is_x, out, armored, sealed) =
      new_key-eq-ok W.pgp W.enclaves key.format uid key_type_private buf enclave converted in
    let (_, given, _, _, _) = load-valid R L Z process paths c loaded in
    let named : key.path ≡ key_path c = sym (
      ap (λ o. key_text (key_section o)) (deref-eq-ok c.fuse section hc)
      ∙ ap key_text (deref-eq-ok section.key key hk)) in
    (
      key.path,
      buf,
      x,
      out,
      named,
      λ e. given (sym named ∙ e),
      read,
      is_x,
      armored,
      ap (λ y. y.key) made ∙ sealed,
    )
