-- ===== src/Tests/Loading.antt =====
-- A revip whose URLs are the paths of keys.
use gpgfs.Base.{
  Option, none, some, false, true, ◌≡◌, ◌≢◌, ◌⊎◌, refl, List, [], ◌∷◌, Result, ok, err, new,
  if◌then◌else◌, ◌>>=◌, ◌>>◌, >>-eq-ok,
}
use gpgfs.Std.Strings.{Str, codes, same}
use gpgfs.Config.Sections.{Config}
use gpgfs.Config.Tree.{fill, zero_config, validate_sections}
use gpgfs.Config.Tree.Valid.{key_path}
use gpgfs.Config.Load.{Post, defaults, validation, Revip, IsRevip, load, validate}
use gpgfs.Config.Load.Valid.{Reads, load-valid, validate-misses}
use gpgfs.Log.{Zerolog, Process}
use gpgfs.Cli.Settings.{Writers, config_push}
use gpgfs.Cli.Settings.Pushed.{Pushes, config_push-Pushes}

abbrev pub with_key : Str → Config
with_key path = record zero_config {
  telemetry = some (record { enable = true; addr = []; path = []; timeout = none });
  fuse = some (record {
    key = some (record { format = []; path = path });
    allow_other = false;
    debug = false;
  });
}

abbrev Source : Type 0
Source = Config → Result Config

abbrev apply_all : List Source → Config → Result Config
apply_all [] c = ok c
apply_all (s ∷ ss) c = s c >>= λ d. apply_all ss d

abbrev post : List (Post Str) → Config → Result Config
post (defaults ∷ validation ∷ more) c = validate_sections (fill c) >> ok (fill c)
post (defaults ∷ []) c = ok (fill c)
post ps c = ok c

abbrev found_method : Option (Config → Result (Unit {0})) → Config → Result (Unit {0})
found_method none c = ok tt
found_method (some f) c = f c

abbrev pub keys : Revip
keys = record {
  Source = Source;
  Client = Str;
  from_url = λ path. ok (λ c. ok (with_key path));
  from_environ = λ prefix c. ok c;
  apply = λ s c. s c;
  load = apply_all;
  new_etcd_client = λ path. ok path;
  url_path = λ path. ok path;
  postprocess = post;
  with_validation = found_method;
}

post-validation :
    (c d : Config) (more : List (Post Str))
    → post (defaults ∷ validation ∷ more) c ≡ ok d
    → (d ≡ fill c) × (validate_sections d ≡ ok tt)
post-validation c d more h =
    let (valid, e) = >>-eq-ok (validate_sections (fill c)) (ok (fill c)) h in
    let same : d ≡ fill c = cc in (same, rw same valid)

pub keys-IsRevip : IsRevip keys
keys-IsRevip = record {
  load-nil = λ c. refl;
  load-cons = λ s ss c. refl;
  postprocess-defaults = λ c. refl;
  postprocess-validation = post-validation;
  with_validation-none = λ c. refl;
  with_validation-some = λ f c. refl;
}

abbrev pub levels : Zerolog
levels = record { Level = Str; parse_level = λ text. ok text }

abbrev pub process : Process
process = record { pid = 7; ppid = 1; pgid = ok 7; terminal = false }

abbrev pub paths : List Str
paths = codes " k" ∷ []

abbrev pub loaded : Config
loaded = fill (with_key (codes "k"))

pub loads : load keys levels process paths [] ≡ ok loaded
unfolding load validate_sections fill
loads = refl

load-valid_example :
    (fill loaded ≡ loaded)
    × (key_path loaded ≢ [])
    × (c : Config) × Reads keys paths c
    × (loaded ≡ fill c)
load-valid_example = load-valid keys keys-IsRevip levels process paths loaded loads

-- A path of white space names no key.
abbrev blank : List Str
blank = codes " " ∷ []

abbrev keyless : Config
keyless = fill (with_key [])

loads_unchecked : load keys levels process blank (defaults ∷ []) ≡ ok keyless
unfolding load
loads_unchecked = refl

no_key_path : key_path keyless ≡ []
unfolding fill
no_key_path = refl

validate-misses_example :
    (validate keys keyless ≡ ok tt) × ((e : Config) → load keys levels process blank [] ≢ ok e)
validate-misses_example =
    validate-misses keys keys-IsRevip levels process blank keyless loads_unchecked no_key_path

-- The second destination is read-only.
abbrev two_files : Writers
two_files = record {
  Destination = Str;
  to_writer = λ c. ok [];
  to_url = λ path. ok path;
  push = λ path c. if same path (codes "b") then err (new "read-only" []) else ok tt;
}

config_push-Pushes_example :
    let args = codes "a" ∷ codes "b" ∷ [] in
    let o = config_push keys two_files levels process paths [] args in
    ((o.pushed ≡ []) × (o.ended ≢ ok tt))
    ⊎ ((c : Config) × (key_path c ≢ []) × (fill c ≡ c) × Pushes two_files c args [] o)
config_push-Pushes_example =
    config_push-Pushes keys keys-IsRevip two_files levels process paths []
      (codes "a" ∷ codes "b" ∷ [])
