-- ===== src/Config/Tree/Complete.antt =====
-- A configuration that the defaults leave as it is has every section that the program looks into.
use gpgfs.Base.{ℕ, zero, suc, ◌≡◌, ◌≢◌, refl, sym, ap, ◌∙◌, Option, none, some, [], ◌∷◌}
use gpgfs.Base.Int.{ℤ, pos, negsuc}
use gpgfs.Std.Strings.{Str, codes}
use gpgfs.Config.Sections.{LogConfig, TimeoutConfig, TelemetryConfig, KeyConfig, FuseConfig, Config}
use gpgfs.Config.Defaults.{or_text, or_new, or_positive, five_seconds}
use gpgfs.Config.Whole.{new_key}
use gpgfs.Config.Tree.{
  on_pointer, fill_timeout, fill_log, fill_key, fill_telemetry, fill_fuse, fill,
}
use gpgfs.Config.Tree.Valid.{
  fill_log_lem, fill_timeout_lem, fill_key_lem, fill_telemetry_lem, fill_fuse_lem, fill_lem,
  new_telemetry, new_fuse,
}

abbrev pub IsPositive : ℤ → Type 0
IsPositive z = (n : ℕ) × (z ≡ pos (suc n))

-- A log with a level, telemetry with an address, a path and positive timeouts, and a filesystem
-- with a key that has a format.
abbrev pub HasLog : LogConfig → Type 0
HasLog c = c.level ≢ []

abbrev pub HasTimeouts : TimeoutConfig → Type 0
HasTimeouts c = IsPositive c.read × IsPositive c.write

abbrev pub HasTelemetry : TelemetryConfig → Type 0
HasTelemetry c =
    (c.addr ≢ []) × (c.path ≢ []) × (t : TimeoutConfig) × (c.timeout ≡ some t) × HasTimeouts t

abbrev pub HasFuse : FuseConfig → Type 0
HasFuse c = (k : KeyConfig) × (c.key ≡ some k) × (k.format ≢ [])

-- A section that is made where it is missing and filled is there.
section_of :
    {A : Type 0} (P : A → Type 0) (f : A → A) (d : A)
    → ((a : A) → P (f a))
    → (o : Option A) → (a : A) × (on_pointer f (or_new d o) ≡ some a) × P a
section_of P f d h none = (f d, refl, h d)
section_of P f d h (some a) = (f a, refl, h a)

or_text-given : (d : Str) (s : Str) → d ≢ [] → or_text d s ≢ []
or_text-given d [] h = h
or_text-given d (c ∷ s) h = λ e. cc

or_positive-IsPositive : (d z : ℤ) → IsPositive d → IsPositive (or_positive d z)
or_positive-IsPositive d (pos zero) p = p
or_positive-IsPositive d (pos (suc n)) p = (n, refl)
or_positive-IsPositive d (negsuc n) p = p

fill_log-HasLog : (c : LogConfig) → HasLog (fill_log c)
fill_log-HasLog c = rw (fill_log_lem c) (or_text-given (codes "info") c.level (λ e. cc))

fill_timeout-HasTimeouts : (c : TimeoutConfig) → HasTimeouts (fill_timeout c)
fill_timeout-HasTimeouts c = rw (fill_timeout_lem c) (
  or_positive-IsPositive five_seconds c.read (_, refl),
  or_positive-IsPositive five_seconds c.write (_, refl),
)

fill_telemetry-HasTelemetry : (c : TelemetryConfig) → HasTelemetry (fill_telemetry c)
fill_telemetry-HasTelemetry c =
    let (t, e, positive) =
      section_of HasTimeouts fill_timeout (record { read = pos 0; write = pos 0 })
        fill_timeout-HasTimeouts c.timeout in
    rw (fill_telemetry_lem c) (
      or_text-given (codes "127.0.0.1:4280") c.addr (λ e. cc),
      or_text-given (codes "/") c.path (λ e. cc),
      t,
      e,
      positive,
    )

fill_key-format : (c : KeyConfig) → (fill_key c).format ≢ []
fill_key-format c = rw (fill_key_lem c) (or_text-given (codes "ssh") c.format (λ e. cc))

fill_fuse-HasFuse : (c : FuseConfig) → HasFuse (fill_fuse c)
fill_fuse-HasFuse c =
    rw (fill_fuse_lem c) (section_of (λ k. k.format ≢ []) fill_key new_key fill_key-format c.key)

abbrev pub Has : {A : Type 0} → (A → Type 0) → Option A → Type 0
Has {A} P o = (a : A) × (o ≡ some a) × P a

pub complete_sections :
    (c : Config) → fill c ≡ c → Has HasLog c.log × Has HasTelemetry c.telemetry × Has HasFuse c.fuse
complete_sections c whole =
    let made = sym whole ∙ fill_lem c in
    let (l, hl, gl) = section_of HasLog fill_log (record { level = [] }) fill_log-HasLog c.log in
    let (t, ht, gt) =
      section_of HasTelemetry fill_telemetry new_telemetry fill_telemetry-HasTelemetry
        c.telemetry in
    let (f, hf, gf) = section_of HasFuse fill_fuse new_fuse fill_fuse-HasFuse c.fuse in
    (
      (l, ap (λ x. x.log) made ∙ hl, gl),
      (t, ap (λ x. x.telemetry) made ∙ ht, gt),
      (f, ap (λ x. x.fuse) made ∙ hf, gf),
    )
