-- ===== src/Config/Tree/Valid.antt =====
-- What the defaults make of a configuration, and when it is valid.
use gpgfs.Base.{◌≡◌, ◌≢◌, ◌↔◌, refl, false, Option, none, some, ok, [], ◌∷◌, ◌∙◌, sym}
use gpgfs.Std.Strings.{Str, codes}
use gpgfs.Config.Sections.{
  LogConfig, log_validate, TimeoutConfig, TelemetryConfig, telemetry_validate, KeyConfig,
  key_validate, FuseConfig, Config,
}
use gpgfs.Config.Defaults.{
  or_text, or_new, or_positive, five_seconds, log_settles, log_passes, timeout_settles,
  telemetry_settles, telemetry_passes, filled_telemetry,
}
use gpgfs.Config.Whole.{fuse_settles, key_settles, config_settles, filled_config, new_key}
use gpgfs.Config.Tree.{
  on_pointer, fill_timeout, fill_log, fill_key, fill_telemetry, fill_fuse, fill, check, key_section,
  validate_sections,
}

pub fill_log_lem : (c : LogConfig) → fill_log c ≡ record { level = or_text (codes "info") c.level }
unfolding fill_log
fill_log_lem c = rw (log_settles 0 c.level) refl

pub fill_timeout_lem :
    (c : TimeoutConfig)
    → fill_timeout c
      ≡ record { read = or_positive five_seconds c.read; write = or_positive five_seconds c.write }
unfolding fill_timeout
fill_timeout_lem c = rw (timeout_settles 0 c.read c.write) refl

pub fill_key_lem :
    (c : KeyConfig) → fill_key c ≡ record { format = or_text (codes "ssh") c.format; path = c.path }
unfolding fill_key
fill_key_lem c = rw (key_settles 0 c.format c.path) refl

pub fill_telemetry_lem :
    (c : TelemetryConfig)
    → fill_telemetry c ≡ record (filled_telemetry c) {
      timeout = on_pointer fill_timeout (filled_telemetry c).timeout;
    }
unfolding fill_telemetry
fill_telemetry_lem c = rw (telemetry_settles 0 c.enable c.addr c.path c.timeout) refl

pub fill_fuse_lem :
    (c : FuseConfig) → fill_fuse c ≡ record c { key = on_pointer fill_key (or_new new_key c.key) }
unfolding fill_fuse
fill_fuse_lem c = rw (fuse_settles 0 c.key c.allow_other c.debug) refl

pub fill_lem :
    (c : Config)
    → let d = filled_config c in
      fill c ≡ record d {
        log = on_pointer fill_log d.log;
        telemetry = on_pointer fill_telemetry d.telemetry;
        fuse = on_pointer fill_fuse d.fuse;
      }
unfolding fill
fill_lem c = rw (config_settles 0 c.log c.telemetry c.fuse c.shutdown_grace_time) refl

-- The path of the key, empty if no section gives one.
abbrev pub key_text : Option KeyConfig → Str
key_text none = []
key_text (some k) = k.path

abbrev pub key_path : Config → Str
key_path c = key_text (key_section c.fuse)

log-checked :
    (o : Option LogConfig)
    → check log_validate (on_pointer fill_log (or_new (record { level = [] }) o)) ≡ ok tt
log-checked none = rw (fill_log_lem (record { level = [] })) (log_passes [])
log-checked (some c) = rw (fill_log_lem c) (log_passes c.level)

abbrev pub new_telemetry : TelemetryConfig
new_telemetry = record { enable = false; addr = []; path = []; timeout = none }

telemetry-checked :
    (o : Option TelemetryConfig)
    → check telemetry_validate (on_pointer fill_telemetry (or_new new_telemetry o)) ≡ ok tt
telemetry-checked none = rw (fill_telemetry_lem new_telemetry) (telemetry_passes false _ [] _)
telemetry-checked (some c) = rw (fill_telemetry_lem c) (telemetry_passes c.enable _ c.path _)

abbrev pub new_fuse : FuseConfig
new_fuse = record { key = none; allow_other = false; debug = false }

new_key-checked :
    (o : Option KeyConfig)
    → check key_validate (on_pointer fill_key (or_new new_key o))
      ≡ key_validate (record { format = []; path = key_text o })
unfolding key_validate
new_key-checked none = rw (fill_key_lem new_key) refl
new_key-checked (some k) = rw (fill_key_lem k) refl

-- The section of the key after the defaults, with the path that was given.
key-checked :
    (o : Option FuseConfig)
    → check key_validate (key_section (on_pointer fill_fuse (or_new new_fuse o)))
      ≡ key_validate (record { format = []; path = key_text (key_section o) })
key-checked none = rw (fill_fuse_lem new_fuse) (new_key-checked none)
key-checked (some c) = rw (fill_fuse_lem c) (new_key-checked c.key)

key_validate_iff :
    (format path : Str)
    → (key_validate (record { format = format; path = path }) ≡ ok tt) ↔ (path ≢ [])
unfolding key_validate
key_validate_iff format [] = (λ e. absurd (cc), λ ne. absurd (ne refl))
key_validate_iff format (c ∷ s) = (λ e h. absurd (cc), λ ne. refl)

-- The defaults complete everything but the path of the key: what they make of a configuration is
-- valid exactly if the configuration gives a path.
pub fill-valid : (c : Config) → (validate_sections (fill c) ≡ ok tt) ↔ (key_path c ≢ [])
unfolding validate_sections key_validate
fill-valid c =
    let (there, back) = key_validate_iff [] (key_path c) in
    let e : validate_sections (fill c) ≡ key_validate (record { format = []; path = key_path c }) =
      rw (fill_lem c, log-checked c.log, telemetry-checked c.telemetry, key-checked c.fuse) refl in
    (λ h. there (sym e ∙ h), λ ne. e ∙ back ne)
