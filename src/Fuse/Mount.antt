-- ===== src/Fuse/Mount.antt =====
-- pkg/fuse/fuse.go: New and Mount.
use gpgfs.Base.{
  ◌≡◌, refl, Bool, Option, [], ◌∷◌, Result, ok, err, ◌>>=◌, ◌>>◌, wrapping, >>=-eq-ok, >>-eq-ok,
  wrapping-eq-ok, sym, ◌∙◌, if◌then◌else◌, true,
}
use gpgfs.Std.Strings.{Str}
use gpgfs.Std.FilePath.{clean, join_path, is_rooted}
use gpgfs.Fuse.Enclave.{Enclaves}
use gpgfs.Fuse.Preload.{Stat, exists, not_exist, failed, Fuse}

-- The error of `os.Stat`, any one of which ends `New`.
stat_error : Stat → Result (Unit {0})
stat_error exists = ok tt
stat_error (not_exist e) = err e
stat_error (failed e) = err e

-- `filepath.Abs`; the working directory may be unknown.
unfoldable pub abs : Result Str → Str → Result Str
unfolding clean join_path is_rooted
abs getwd path = if is_rooted path then ok (clean path) else getwd >>= λ wd. ok (join_path wd path)

-- The two fields of `Config` that the filesystem reads later.
pub record MountConfig : Type 0 where
  pub allow_other : Bool
  pub debug : Bool

module _ (G : Enclaves) (stat : Str → Stat) (getwd : Result Str) where
  -- `New`
  unfoldable pub new : MountConfig → Option G.Enclave → Str → Str → Result (Fuse G)
  unfolding stat_error abs
  new c key source target = do
    wrapping "error while stat source" [] (stat_error (stat source))
    wrapping "error while stat target" [] (stat_error (stat target))
    abs_source ← wrapping "failed to get absolute path of source" [] (abs getwd source)
    abs_target ← wrapping "failed to get absolute path of target" [] (abs getwd target)
    ok (record {
      key = key;
      allow_other = c.allow_other;
      debug = c.debug;
      source = abs_source;
      target = abs_target;
    })

-- `fs.Options`
pub record Options : Type 0 where
  pub allow_other : Bool
  pub debug : Bool

module _ (G : Enclaves) {S : Type 0} (mount_fs : Str → Fuse G → Options → Result S) where
  -- `(*Fuse).Mount`, over the library's `fs.Mount`.
  unfoldable pub mount : Fuse G → Result S
  mount f =
      let opts : Options = record { allow_other = f.allow_other; debug = f.debug } in
      wrapping "failed to mount %q" (f.target ∷ []) (mount_fs f.target f opts)

stat_error-eq-ok : (s : Stat) → stat_error s ≡ ok tt → s ≡ exists
unfolding stat_error
stat_error-eq-ok exists h = refl
stat_error-eq-ok (not_exist e) h = cc
stat_error-eq-ok (failed e) h = cc

abs-rooted :
    (getwd : Result Str) (path : Str) → is_rooted path ≡ true → abs getwd path ≡ ok (clean path)
unfolding abs
abs-rooted getwd path h = rw h refl

-- A filesystem that `New` returns has an existing source and target, keeps the two flags and the
-- key, and its paths are the clean ones where those given are absolute.
pub new-eq-ok :
    (G : Enclaves) (stat : Str → Stat) (getwd : Result Str) (c : MountConfig)
    (key : Option G.Enclave) (source target : Str) (f : Fuse G)
    → is_rooted source ≡ true
    → is_rooted target ≡ true
    → new G stat getwd c key source target ≡ ok f
    → (stat source ≡ exists)
      × (stat target ≡ exists)
      × (f ≡ record {
        key = key;
        allow_other = c.allow_other;
        debug = c.debug;
        source = clean source;
        target = clean target;
      })
unfolding new
new-eq-ok G stat getwd c key source target f hs ht h =
    let (s, h1) = >>-eq-ok (wrapping "error while stat source" [] (stat_error (stat source))) _ h in
    let (t, h2) =
      >>-eq-ok (wrapping "error while stat target" [] (stat_error (stat target))) _ h1 in
    let (abs_source, e1, h3) =
      >>=-eq-ok (wrapping "failed to get absolute path of source" [] (abs getwd source)) _ h2 in
    let (abs_target, e2, h4) =
      >>=-eq-ok (wrapping "failed to get absolute path of target" [] (abs getwd target)) _ h3 in
    let e1' =
      sym (wrapping-eq-ok (abs getwd source) _ _ abs_source e1) ∙ abs-rooted getwd source hs in
    let e2' =
      sym (wrapping-eq-ok (abs getwd target) _ _ abs_target e2) ∙ abs-rooted getwd target ht in
    let same : abs_source ≡ clean source = cc in
    let same' : abs_target ≡ clean target = cc in
    (
      stat_error-eq-ok (stat source) (wrapping-eq-ok (stat_error (stat source)) _ _ tt s),
      stat_error-eq-ok (stat target) (wrapping-eq-ok (stat_error (stat target)) _ _ tt t),
      cc,
    )
