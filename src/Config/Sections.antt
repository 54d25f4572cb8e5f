-- ===== src/Config/Sections.antt =====
-- pkg/log, pkg/server, pkg/server/middleware, pkg/telemetry, pkg/fuse and pkg/config: the
-- configuration records, one round of each Default loop, and the Validate methods.
use gpgfs.Base.{
  ℕ, zero, suc, ◌*◌, Bool, true, false, ◌&&◌, not, Option, none, some, List, [], ◌∷◌, Result, ok,
  err, new, if◌then◌else◌,
}
use gpgfs.Base.Int.{ℤ, pos, negsuc}
use gpgfs.Std.Strings.{Str, codes, same}
use gpgfs.Config.Loop.{settle}

unfoldable pub is_empty {ℓ} : {A : Type ℓ} → List A → Bool
is_empty [] = true
is_empty (a ∷ as') = false

-- `z == 0`
unfoldable pub is_zero : ℤ → Bool
is_zero (pos zero) = true
is_zero (pos (suc n)) = false
is_zero (negsuc n) = false

-- `z <= 0`
unfoldable pub is_nonpositive : ℤ → Bool
is_nonpositive (pos zero) = true
is_nonpositive (pos (suc n)) = false
is_nonpositive (negsuc n) = true

-- time.Second, in nanoseconds
abbrev pub second : ℕ
second = 1_000_000_000

-- log.Config
pub record LogConfig : Type 0 where
  pub level : Str

unfoldable pub log_round : LogConfig → Option LogConfig
unfolding same
log_round c = if same c.level [] then some (record c { level = codes "info" }) else none

unfoldable pub log_default : ℕ → LogConfig → Option LogConfig
unfolding settle log_round
log_default fuel c = settle log_round fuel c

unfoldable pub log_validate : LogConfig → Result (Unit {0})
unfolding same
log_validate c = if same c.level [] then err (new "level should not be empty" []) else ok tt

-- server.TimeoutConfig
pub record TimeoutConfig : Type 0 where
  pub read : ℤ
  pub write : ℤ

unfoldable pub timeout_round : TimeoutConfig → Option TimeoutConfig
unfolding is_nonpositive
timeout_round c =
    if is_nonpositive c.read
    then some (record c { read = pos (5 * second) })
    else if is_nonpositive c.write
    then some (record c { write = pos (5 * second) })
    else none

unfoldable pub timeout_default : ℕ → TimeoutConfig → Option TimeoutConfig
unfolding settle timeout_round
timeout_default fuel c = settle timeout_round fuel c

-- middleware.CORSConfig
pub record CorsConfig : Type 0 where
  pub allow_origins_regexp : List Str
  pub allow_origins : List Str
  pub allow_methods : List Str
  pub allow_headers : List Str
  pub allow_credentials : Bool
  pub expose_headers : List Str
  pub max_age : ℤ

unfoldable pub cors_validate : CorsConfig → Result (Unit {0})
unfolding is_empty
cors_validate c =
    if not (is_empty c.allow_origins_regexp) && not (is_empty c.allow_origins)
    then err
        (new "either allow origins regexp or allow origins list should be defined, not both" [])
    else ok tt

unfoldable pub cors_round : CorsConfig → Option CorsConfig
unfolding is_empty is_zero
cors_round c =
    if is_empty c.allow_methods
    then some (record c { allow_methods = codes "POST" ∷ [] })
    else if is_zero c.max_age
    then some (record c { max_age = pos 900 })
    else none

unfoldable pub cors_default : ℕ → CorsConfig → Option CorsConfig
unfolding settle cors_round
cors_default fuel c = settle cors_round fuel c

-- telemetry.Config
pub record TelemetryConfig : Type 0 where
  pub enable : Bool
  pub addr : Str
  pub path : Str
  pub timeout : Option TimeoutConfig

unfoldable pub is_nil {ℓ} : {A : Type ℓ} → Option A → Bool
is_nil none = true
is_nil (some a) = false

unfoldable pub telemetry_round : TelemetryConfig → Option TelemetryConfig
unfolding same is_nil
telemetry_round c =
    if same c.addr []
    then some (record c { addr = codes "127.0.0.1:4280" })
    else if same c.path []
    then some (record c { path = codes "/" })
    else if is_nil c.timeout
    then some (record c { timeout = some (record { read = pos 0; write = pos 0 }) })
    else none

unfoldable pub telemetry_default : ℕ → TelemetryConfig → Option TelemetryConfig
unfolding settle telemetry_round
telemetry_default fuel c = settle telemetry_round fuel c

unfoldable pub telemetry_validate : TelemetryConfig → Result (Unit {0})
unfolding same
telemetry_validate c =
    if not c.enable
    then ok tt
    else if same c.path []
    then err (new "path should not be empty" [])
    else ok tt

-- fuse.KeyConfig
pub record KeyConfig : Type 0 where
  pub format : Str
  pub path : Str

unfoldable pub key_round : KeyConfig → Option KeyConfig
unfolding same
key_round c = if same c.format [] then some (record c { format = codes "ssh" }) else none

unfoldable pub key_default : ℕ → KeyConfig → Option KeyConfig
unfolding settle key_round
key_default fuel c = settle key_round fuel c

unfoldable pub key_validate : KeyConfig → Result (Unit {0})
unfolding same
key_validate c =
    if same c.path [] then err (new "private key path should not be empty" []) else ok tt

-- fuse.Config
pub record FuseConfig : Type 0 where
  pub key : Option KeyConfig
  pub allow_other : Bool
  pub debug : Bool

unfoldable pub fuse_round : FuseConfig → Option FuseConfig
unfolding is_nil
fuse_round c =
    if is_nil c.key
    then some (record c { key = some (record { format = []; path = [] }) })
    else none

unfoldable pub fuse_default : ℕ → FuseConfig → Option FuseConfig
unfolding settle fuse_round
fuse_default fuel c = settle fuse_round fuel c

-- config.Config
pub record Config : Type 0 where
  pub log : Option LogConfig
  pub telemetry : Option TelemetryConfig
  pub fuse : Option FuseConfig
  pub shutdown_grace_time : ℤ

unfoldable pub config_round : Config → Option Config
unfolding is_nil is_zero
config_round c =
    if is_nil c.log
    then some (record c { log = some (record { level = [] }) })
    else if is_nil c.telemetry
    then some (record c {
      telemetry = some (record { enable = false; addr = []; path = []; timeout = none });
    })
    else if is_nil c.fuse
    then some (record c { fuse = some (record { key = none; allow_other = false; debug = false }) })
    else if is_zero c.shutdown_grace_time
    then some (record c { shutdown_grace_time = pos (120 * second) })
    else none

unfoldable pub config_default : ℕ → Config → Option Config
unfolding settle config_round
config_default fuel c = settle config_round fuel c
