-- ===== src/Config/Tree/Twice.antt =====
-- The defaults of a configuration that already went through them.
use gpgfs.Base.{zero, suc, ◌≡◌, refl, Option, none, some, [], ◌∷◌, ◌*◌}
use gpgfs.Base.Int.{ℤ, pos, negsuc}
use gpgfs.Std.Strings.{Str, codes}
use gpgfs.Config.Sections.{
  second, LogConfig, TimeoutConfig, TelemetryConfig, KeyConfig, FuseConfig, Config,
}
use gpgfs.Config.Defaults.{or_text, or_new, or_nonzero, or_positive, five_seconds, filled_telemetry}
use gpgfs.Config.Whole.{new_key, filled_config}
use gpgfs.Config.Tree.{
  on_pointer, fill_timeout, fill_log, fill_key, fill_telemetry, fill_fuse, fill,
}
use gpgfs.Config.Tree.Valid.{
  fill_log_lem, fill_timeout_lem, fill_key_lem, fill_telemetry_lem, fill_fuse_lem, fill_lem,
  new_telemetry, new_fuse,
}

or_text-twice : (d s : Str) → or_text d d ≡ d → or_text d (or_text d s) ≡ or_text d s
or_text-twice d [] e = e
or_text-twice d (c ∷ s) e = refl

or_positive-twice :
    (d a : ℤ) → or_positive d d ≡ d → or_positive d (or_positive d a) ≡ or_positive d a
or_positive-twice d (pos zero) e = e
or_positive-twice d (pos (suc m)) e = refl
or_positive-twice d (negsuc m) e = e

or_nonzero-twice : (d a : ℤ) → or_nonzero d d ≡ d → or_nonzero d (or_nonzero d a) ≡ or_nonzero d a
or_nonzero-twice d (pos zero) e = e
or_nonzero-twice d (pos (suc m)) e = refl
or_nonzero-twice d (negsuc m) e = refl

-- A section that is made where it is missing, and filled.
section-twice :
    {A : Type 0} (f : A → A) (d : A)
    → ((a : A) → f (f a) ≡ f a)
    → (o : Option A)
    → on_pointer f (or_new d (on_pointer f (or_new d o))) ≡ on_pointer f (or_new d o)
section-twice f d twice none = rw (twice d) refl
section-twice f d twice (some a) = rw (twice a) refl

fill_log-twice : (c : LogConfig) → fill_log (fill_log c) ≡ fill_log c
fill_log-twice c =
    rw
      (
        fill_log_lem c,
        fill_log_lem (record { level = or_text (codes "info") c.level }),
        or_text-twice (codes "info") c.level refl,
      )
      refl

fill_key-twice : (c : KeyConfig) → fill_key (fill_key c) ≡ fill_key c
fill_key-twice c =
    rw
      (
        fill_key_lem c,
        fill_key_lem (record { format = or_text (codes "ssh") c.format; path = c.path }),
        or_text-twice (codes "ssh") c.format refl,
      )
      refl

fill_timeout-twice : (c : TimeoutConfig) → fill_timeout (fill_timeout c) ≡ fill_timeout c
fill_timeout-twice c =
    rw
      (
        fill_timeout_lem c,
        fill_timeout_lem (record {
          read = or_positive five_seconds c.read;
          write = or_positive five_seconds c.write;
        }),
        or_positive-twice five_seconds c.read refl,
        or_positive-twice five_seconds c.write refl,
      )
      refl

fill_telemetry-twice : (c : TelemetryConfig) → fill_telemetry (fill_telemetry c) ≡ fill_telemetry c
fill_telemetry-twice c =
    rw
      (
        fill_telemetry_lem c,
        fill_telemetry_lem (record (filled_telemetry c) {
          timeout = on_pointer fill_timeout (filled_telemetry c).timeout;
        }),
        or_text-twice (codes "127.0.0.1:4280") c.addr refl,
        or_text-twice (codes "/") c.path refl,
        section-twice fill_timeout (record { read = pos 0; write = pos 0 }) fill_timeout-twice
            c.timeout,
      )
      refl

fill_fuse-twice : (c : FuseConfig) → fill_fuse (fill_fuse c) ≡ fill_fuse c
fill_fuse-twice c =
    rw
      (
        fill_fuse_lem c,
        fill_fuse_lem (record c { key = on_pointer fill_key (or_new new_key c.key) }),
        section-twice fill_key new_key fill_key-twice c.key,
      )
      refl

-- The defaults of a completed configuration change nothing.
pub fill-twice : (c : Config) → fill (fill c) ≡ fill c
fill-twice c =
    let d = filled_config c in
    rw
      (
        fill_lem c,
        fill_lem (record d {
          log = on_pointer fill_log d.log;
          telemetry = on_pointer fill_telemetry d.telemetry;
          fuse = on_pointer fill_fuse d.fuse;
        }),
        section-twice fill_log (record { level = [] }) fill_log-twice c.log,
        section-twice fill_telemetry new_telemetry fill_telemetry-twice c.telemetry,
        section-twice fill_fuse new_fuse fill_fuse-twice c.fuse,
        or_nonzero-twice (pos (120 * second)) c.shutdown_grace_time refl,
      )
      refl
