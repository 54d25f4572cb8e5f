-- ===== src/Config/Whole.antt =====
-- Where the Default loops of the filesystem and of the whole configuration end.
use gpgfs.Base.{ℕ, suc, ◌*◌, ◌≡◌, refl, Bool, false, Option, none, some, [], ◌∷◌, arith}
use gpgfs.Base.Int.{ℤ, pos}
use gpgfs.Std.Strings.{Str, codes}
use gpgfs.Config.Loop.{settle-stop, settle-eq-some}
use gpgfs.Config.Sections.{
  second, LogConfig, TelemetryConfig, KeyConfig, key_default, key_validate, FuseConfig,
  fuse_default, Config, config_round, config_default,
}
use gpgfs.Config.Defaults.{or_text, or_new, or_nonzero}

abbrev pub new_key : KeyConfig
new_key = record { format = []; path = [] }

pub fuse_settles :
    (k : ℕ) (key : Option KeyConfig) (allow_other debug : Bool)
    → fuse_default (suc (suc k)) (record { key = key; allow_other = allow_other; debug = debug })
      ≡ some (record { key = or_new new_key key; allow_other = allow_other; debug = debug })
unfolding fuse_default
fuse_settles k none allow_other debug = refl
fuse_settles k (some key) allow_other debug = refl

pub key_settles :
    (k : ℕ) (format path : Str)
    → key_default (suc (suc k)) (record { format = format; path = path })
      ≡ some (record { format = or_text (codes "ssh") format; path = path })
unfolding key_default
key_settles k [] path = refl
key_settles k (c ∷ s) path = refl

-- Two rounds are enough for the filesystem and its key: a key section is there afterwards, its
-- format is `ssh` if none is given, and its path is kept, so that `Validate` refuses the section
-- exactly as it refused it before.
pub fuse_default_lem :
    (k : ℕ) (c : FuseConfig) (key : KeyConfig)
    → (fuse_default (suc (suc k)) c
        ≡ some (record c { key = or_new (record { format = []; path = [] }) c.key }))
      × (d : KeyConfig) × (key_default (suc (suc k)) key ≡ some d)
      × (d ≡ record { format = or_text (codes "ssh") key.format; path = key.path })
      × (key_validate d ≡ key_validate key)
unfolding key_validate
fuse_default_lem k c key = (
  fuse_settles k c.key c.allow_other c.debug,
  record { format = or_text (codes "ssh") key.format; path = key.path },
  key_settles k key.format key.path,
  refl,
  refl,
)

abbrev pub filled_config : Config → Config
filled_config c = record {
  log = or_new (record { level = [] }) c.log;
  telemetry = or_new (record { enable = false; addr = []; path = []; timeout = none }) c.telemetry;
  fuse = or_new (record { key = none; allow_other = false; debug = false }) c.fuse;
  shutdown_grace_time = or_nonzero (pos (120 * second)) c.shutdown_grace_time;
}

pub config_settles :
    (k : ℕ) (log : Option LogConfig) (telemetry : Option TelemetryConfig) (fuse : Option FuseConfig)
    (time : ℤ)
    → let c : Config = record {
      log = log;
      telemetry = telemetry;
      fuse = fuse;
      shutdown_grace_time = time;
    } in
      config_default (suc (suc (suc (suc (suc k))))) c ≡ some (filled_config c)
unfolding config_default
config_settles k none none none time = ground arith
config_settles k none none (some f) time = ground arith
config_settles k none (some t) none time = ground arith
config_settles k none (some t) (some f) time = ground arith
config_settles k (some l) none none time = ground arith
config_settles k (some l) none (some f) time = ground arith
config_settles k (some l) (some t) none time = ground arith
config_settles k (some l) (some t) (some f) time = ground arith

-- Five rounds are enough for the whole configuration: the sections and the grace time that are
-- given are kept, the others are made, and one more call of `Default` changes nothing.
pub config_default_lem :
    (k : ℕ) (c : Config)
    → (d : Config) × (config_default (suc (suc (suc (suc (suc k))))) c ≡ some d)
      × (d ≡ record {
        log = or_new (record { level = [] }) c.log;
        telemetry =
            or_new (record { enable = false; addr = []; path = []; timeout = none }) c.telemetry;
        fuse = or_new (record { key = none; allow_other = false; debug = false }) c.fuse;
        shutdown_grace_time = or_nonzero (pos (120 * second)) c.shutdown_grace_time;
      })
      × (config_default (suc k) d ≡ some d)
unfolding config_default
config_default_lem k c =
    let e = config_settles k c.log c.telemetry c.fuse c.shutdown_grace_time in
    (
      filled_config c,
      e,
      refl,
      settle-stop config_round k (filled_config c)
          (settle-eq-some config_round (suc (suc (suc (suc (suc k))))) c _ e),
    )
