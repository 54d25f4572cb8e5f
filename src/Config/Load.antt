-- ===== src/Config/Load.antt =====
-- pkg/config: how a configuration is loaded. The package revip is an interface, as is url.Parse.
pub mod Valid
use gpgfs.Base.{Option, none, some, ◌≡◌, Result, ok, err, ◌>>=◌, List, [], ◌∷◌, ◌++◌, if◌then◌else◌}
use gpgfs.Std.Strings.{Str, codes, has_prefix, trim_prefix}
use gpgfs.Std.Space.{trim_space}
use gpgfs.Config.Sections.{Config, LogConfig}
use gpgfs.Config.Tree.{fill, zero_config, validate_sections}
use gpgfs.Log.{Zerolog, Process, create}

-- The options of `revip.Postprocess` that the program uses.
pub data Post (Client : Type 0) : Type 0 where
  defaults : Post Client
  validation : Post Client
  updates : Client → Str → Post Client

-- A source reads into a configuration. `from_url`, `from_environ`, `new_etcd_client`, `load` and
-- `postprocess` are revip's; `with_validation` is `revip.WithValidation()`, called with a value and
-- the Validate method that its type assertion finds, which is `none` for a type without one;
-- `url_path` is the path that `url.Parse` finds.
pub record Revip : Type 1 where
  pub Source : Type 0
  pub Client : Type 0
  pub from_url : Str → Result Source
  pub from_environ : Str → Source
  pub apply : Source → Config → Result Config
  pub load : List Source → Config → Result Config
  pub new_etcd_client : Str → Result Client
  pub url_path : Str → Result Str
  pub postprocess : List (Post Client) → Config → Result Config
  pub with_validation : Option (Config → Result (Unit {0})) → Config → Result (Unit {0})

-- revip loads from the sources in their order. The Default methods complete a configuration; with
-- validation, the Validate methods of the sections have all passed when the rest is begun. An option
-- that is called on one value calls its Validate method, if there is one.
pub record IsRevip (R : Revip) : Type 0 where
  pub load-nil : (c : Config) → R.load [] c ≡ ok c
  pub load-cons :
      (s : R.Source) (ss : List R.Source) (c : Config)
      → R.load (s ∷ ss) c ≡ (R.apply s c >>= λ d. R.load ss d)
  pub postprocess-defaults : (c : Config) → R.postprocess (defaults ∷ []) c ≡ ok (fill c)
  pub postprocess-validation :
      (c d : Config) (more : List (Post R.Client))
      → R.postprocess (defaults ∷ validation ∷ more) c ≡ ok d
      → (d ≡ fill c) × (validate_sections d ≡ ok tt)
  pub with_validation-none : (c : Config) → R.with_validation none c ≡ ok tt
  pub with_validation-some :
      (f : Config → Result (Unit {0})) (c : Config) → R.with_validation (some f) c ≡ f c

-- The Validate method of `*Config`: there is none.
abbrev pub config_method : Option (Config → Result (Unit {0}))
config_method = none

module _ (R : Revip) where
  -- The watchers of the paths that are in etcd.
  unfoldable pub etcd_updates : List Str → Result (List (Post R.Client))
  unfolding has_prefix trim_prefix
  etcd_updates [] = ok []
  etcd_updates (path ∷ paths) =
      let rest = etcd_updates paths in
      if has_prefix path (codes "etcd:")
      then (R.url_path path >>= λ p. R.new_etcd_client path >>= λ e.
          rest >>= λ ps. ok (updates e (trim_prefix p (codes "/")) ∷ ps))
      else rest

  -- LocalPostprocessors, with the watchers, stand for the options that are not given.
  unfoldable pub chosen : List Str → List (Post R.Client) → Result (List (Post R.Client))
  unfolding etcd_updates
  chosen paths [] = etcd_updates paths >>= λ ps. ok (defaults ∷ validation ∷ ps)
  chosen paths (p ∷ ps) = ok (p ∷ ps)

  unfoldable pub loaders : List Str → Result (List R.Source)
  unfolding trim_space
  loaders [] = ok []
  loaders (path ∷ paths) =
      let rest = loaders paths in R.from_url (trim_space path) >>= λ s. rest >>= λ ss. ok (s ∷ ss)

  -- `config.Default`
  unfoldable pub default : Result Config
  default = R.postprocess (defaults ∷ []) zero_config

  -- `config.Validate`
  unfoldable pub validate : Config → Result (Unit {0})
  validate c = R.with_validation config_method c

  unfoldable pub load : (Z : Zerolog) → Process → List Str → List (Post R.Client) → Result Config
  unfolding create chosen loaders
  load Z process paths posts = create Z process (record { level = codes "info" }) >>= λ l.
      chosen paths posts >>= λ options. loaders paths >>= λ sources.
      R.postprocess (defaults ∷ []) zero_config >>= λ c.
      R.load (sources ++ R.from_environ (codes "GPGFS") ∷ []) c >>= λ read.
      R.postprocess options read
