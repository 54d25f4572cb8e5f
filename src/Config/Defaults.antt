-- ===== src/Config/Defaults.antt =====
-- The Default loops end, and where they end.
use gpgfs.Base.{
  ℕ, zero, suc, ◌*◌, ◌≡◌, refl, Bool, true, false, Option, none, some, List, [], ◌∷◌, ok,
}
use gpgfs.Base.Int.{ℤ, pos, negsuc}
use gpgfs.Std.Strings.{Str, codes}
use gpgfs.Config.Sections.{
  second, LogConfig, log_default, log_validate, TimeoutConfig, timeout_default, CorsConfig,
  cors_validate, cors_default, TelemetryConfig, telemetry_default, telemetry_validate,
}

-- A text with a default for the empty one, a pointer with one for nil, a list with one for the
-- empty one, a number with one for 0 and a number with one for 0 and below.
abbrev pub or_text : Str → Str → Str
or_text d [] = d
or_text d (c ∷ s) = c ∷ s

abbrev pub or_new : {A : Type 0} → A → Option A → Option A
or_new d none = some d
or_new d (some a) = some a

abbrev pub or_list : {A : Type 0} → List A → List A → List A
or_list d [] = d
or_list d (a ∷ as') = a ∷ as'

abbrev pub or_nonzero : ℤ → ℤ → ℤ
or_nonzero d (pos zero) = d
or_nonzero d (pos (suc n)) = pos (suc n)
or_nonzero d (negsuc n) = negsuc n

abbrev pub or_positive : ℤ → ℤ → ℤ
or_positive d (pos zero) = d
or_positive d (pos (suc n)) = pos (suc n)
or_positive d (negsuc n) = d

pub log_settles :
    (k : ℕ) (level : Str)
    → log_default (suc (suc k)) (record { level = level })
      ≡ some (record { level = or_text (codes "info") level })
unfolding log_default
log_settles k [] = refl
log_settles k (c ∷ s) = refl

pub log_passes :
    (level : Str) → log_validate (record { level = or_text (codes "info") level }) ≡ ok tt
unfolding log_validate
log_passes [] = refl
log_passes (c ∷ s) = refl

-- Two rounds are enough for the level: one that is given is kept, the empty one becomes `info`,
-- and the result passes `Validate`.
pub log_default_lem :
    (k : ℕ) (c : LogConfig)
    → (d : LogConfig) × (log_default (suc (suc k)) c ≡ some d)
      × (d ≡ record { level = or_text (codes "info") c.level })
      × (log_validate d ≡ ok tt)
log_default_lem k c = (
  record { level = or_text (codes "info") c.level },
  log_settles k c.level,
  refl,
  log_passes c.level,
)

abbrev pub five_seconds : ℤ
five_seconds = pos (5 * second)

pub timeout_settles :
    (k : ℕ) (read write : ℤ)
    → timeout_default (suc (suc (suc k))) (record { read = read; write = write })
      ≡ some
          (record { read = or_positive five_seconds read; write = or_positive five_seconds write })
unfolding timeout_default
timeout_settles k (pos zero) (pos zero) = refl
timeout_settles k (pos zero) (pos (suc m)) = refl
timeout_settles k (pos zero) (negsuc m) = refl
timeout_settles k (pos (suc n)) (pos zero) = refl
timeout_settles k (pos (suc n)) (pos (suc m)) = refl
timeout_settles k (pos (suc n)) (negsuc m) = refl
timeout_settles k (negsuc n) (pos zero) = refl
timeout_settles k (negsuc n) (pos (suc m)) = refl
timeout_settles k (negsuc n) (negsuc m) = refl

-- Three rounds are enough for the timeouts: each one that is positive is kept, and each other is
-- five seconds afterwards.
pub timeout_default_lem :
    (k : ℕ) (c : TimeoutConfig)
    → timeout_default (suc (suc (suc k))) c
      ≡ some (record {
        read = or_positive five_seconds c.read;
        write = or_positive five_seconds c.write;
      })
timeout_default_lem k c = timeout_settles k c.read c.write

abbrev filled_cors : CorsConfig → CorsConfig
filled_cors c = record c {
  allow_methods = or_list (codes "POST" ∷ []) c.allow_methods;
  max_age = or_nonzero (pos 900) c.max_age;
}

cors_settles :
    (k : ℕ) (c : CorsConfig) (methods : List Str) (age : ℤ)
    → cors_default (suc (suc (suc k))) (record c { allow_methods = methods; max_age = age })
      ≡ some (filled_cors (record c { allow_methods = methods; max_age = age }))
unfolding cors_default
cors_settles k c [] (pos zero) = refl
cors_settles k c [] (pos (suc n)) = refl
cors_settles k c [] (negsuc n) = refl
cors_settles k c (m ∷ ms) (pos zero) = refl
cors_settles k c (m ∷ ms) (pos (suc n)) = refl
cors_settles k c (m ∷ ms) (negsuc n) = refl

-- Three rounds are enough for the methods and the age: those given are kept, `POST` and 900 stand
-- for those that are not, nothing else changes, and `Validate` says of the result what it said.
pub cors_default_lem :
    (k : ℕ) (c : CorsConfig)
    → (d : CorsConfig) × (cors_default (suc (suc (suc k))) c ≡ some d)
      × (d ≡ record c {
        allow_methods = or_list (codes "POST" ∷ []) c.allow_methods;
        max_age = or_nonzero (pos 900) c.max_age;
      })
      × (cors_validate d ≡ cors_validate c)
unfolding cors_validate
cors_default_lem k c = (filled_cors c, cors_settles k c c.allow_methods c.max_age, refl, refl)

abbrev pub filled_telemetry : TelemetryConfig → TelemetryConfig
filled_telemetry c = record {
  enable = c.enable;
  addr = or_text (codes "127.0.0.1:4280") c.addr;
  path = or_text (codes "/") c.path;
  timeout = or_new (record { read = pos 0; write = pos 0 }) c.timeout;
}

pub telemetry_settles :
    (k : ℕ) (enable : Bool) (addr path : Str) (timeout : Option TimeoutConfig)
    → let c : TelemetryConfig = record {
      enable = enable;
      addr = addr;
      path = path;
      timeout = timeout;
    } in
      telemetry_default (suc (suc (suc (suc k)))) c ≡ some (filled_telemetry c)
unfolding telemetry_default
telemetry_settles k enable [] [] none = refl
telemetry_settles k enable [] [] (some t) = refl
telemetry_settles k enable [] (p ∷ ps) none = refl
telemetry_settles k enable [] (p ∷ ps) (some t) = refl
telemetry_settles k enable (a ∷ as') [] none = refl
telemetry_settles k enable (a ∷ as') [] (some t) = refl
telemetry_settles k enable (a ∷ as') (p ∷ ps) none = refl
telemetry_settles k enable (a ∷ as') (p ∷ ps) (some t) = refl

pub telemetry_passes :
    (enable : Bool) (addr path : Str) (timeout : Option TimeoutConfig)
    → telemetry_validate (record {
      enable = enable;
      addr = addr;
      path = or_text (codes "/") path;
      timeout = timeout;
    })
      ≡ ok tt
unfolding telemetry_validate
telemetry_passes true addr [] timeout = refl
telemetry_passes true addr (p ∷ ps) timeout = refl
telemetry_passes false addr path timeout = refl

-- Four rounds are enough for the telemetry: what is given is kept, each other of the address, the
-- path and the timeouts has its default, and the result passes `Validate`.
pub telemetry_default_lem :
    (k : ℕ) (c : TelemetryConfig)
    → (d : TelemetryConfig) × (telemetry_default (suc (suc (suc (suc k)))) c ≡ some d)
      × (d ≡ record {
        enable = c.enable;
        addr = or_text (codes "127.0.0.1:4280") c.addr;
        path = or_text (codes "/") c.path;
        timeout = or_new (record { read = pos 0; write = pos 0 }) c.timeout;
      })
      × (telemetry_validate d ≡ ok tt)
telemetry_default_lem k c = (
  filled_telemetry c,
  telemetry_settles k c.enable c.addr c.path c.timeout,
  refl,
  telemetry_passes c.enable (or_text (codes "127.0.0.1:4280") c.addr) c.path _,
)
