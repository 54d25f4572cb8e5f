-- ===== src/Config/Tree.antt =====
-- pkg/config: the sections of a configuration, with the Default and Validate methods of all of them.
pub mod Valid
pub mod Twice
pub mod Complete
use gpgfs.Base.{ℕ, Option, none, some, Result, ok, ◌>>◌, List, [], ◌∷◌}
use gpgfs.Base.Int.{pos}
use gpgfs.Std.Strings.{Str}
use gpgfs.Config.Sections.{
  LogConfig, log_default, log_validate, TimeoutConfig, timeout_default, TelemetryConfig,
  telemetry_default, telemetry_validate, KeyConfig, key_default, key_validate, FuseConfig,
  fuse_default, Config, config_default,
}

-- A section after its Default method, whose loop is given enough rounds.
abbrev pub settled : {A : Type 0} → Option A → A → A
settled none a = a
settled (some b) a = b

abbrev pub on_pointer : {A : Type 0} → (A → A) → Option A → Option A
on_pointer f none = none
on_pointer f (some a) = some (f a)

unfoldable pub fill_timeout : TimeoutConfig → TimeoutConfig
unfolding timeout_default
fill_timeout c = settled (timeout_default 3 c) c

unfoldable pub fill_log : LogConfig → LogConfig
unfolding log_default
fill_log c = settled (log_default 2 c) c

unfoldable pub fill_key : KeyConfig → KeyConfig
unfolding key_default
fill_key c = settled (key_default 2 c) c

-- A section with what is below it, from the root down.
unfoldable pub fill_telemetry : TelemetryConfig → TelemetryConfig
unfolding telemetry_default fill_timeout
fill_telemetry c =
    let d = settled (telemetry_default 4 c) c in
    record d { timeout = on_pointer fill_timeout d.timeout }

unfoldable pub fill_fuse : FuseConfig → FuseConfig
unfolding fuse_default fill_key
fill_fuse c = let d = settled (fuse_default 2 c) c in record d { key = on_pointer fill_key d.key }

unfoldable pub fill : Config → Config
unfolding config_default fill_log fill_telemetry fill_fuse
fill c =
    let d = settled (config_default 5 c) c in
    record d {
      log = on_pointer fill_log d.log;
      telemetry = on_pointer fill_telemetry d.telemetry;
      fuse = on_pointer fill_fuse d.fuse;
    }

-- `&Config{}`
abbrev pub zero_config : Config
zero_config = record { log = none; telemetry = none; fuse = none; shutdown_grace_time = pos 0 }

abbrev pub check : {A : Type 0} → (A → Result (Unit {0})) → Option A → Result (Unit {0})
check f none = ok tt
check f (some a) = f a

-- The key's section, which nil pointers may hide.
abbrev pub key_section : Option FuseConfig → Option KeyConfig
key_section none = none
key_section (some c) = c.key

-- The Validate methods of all sections, in the order of the fields.
unfoldable pub validate_sections : Config → Result (Unit {0})
unfolding log_validate telemetry_validate key_validate
validate_sections c =
    check log_validate c.log
    >> (check telemetry_validate c.telemetry >> check key_validate (key_section c.fuse))
