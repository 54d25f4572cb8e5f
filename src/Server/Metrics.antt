-- ===== src/Server/Metrics.antt =====
-- The names of metrics (pkg/telemetry/collector/collector.go), and their registration by NewTelemetry
-- (pkg/server/middleware/telemetry_middleware.go).
pub mod Names
pub mod Once
use gpgfs.Base.{String, ◌≡◌, ◌≢◌, Result, ok, panic, ◌>>=◌, List, [], ◌∷◌, ◌++◌}
use gpgfs.Std.Strings.{Str, codes, join}

-- `collector.Name`; 95 is the underscore.
unfoldable pub name : Str → Str → List Str → Str
unfolding join
name subsystem first rest = join 95 ((codes "gpgfs" ∷ subsystem ∷ first ∷ []) ++ rest)

unfoldable pub requests_total : Str → Str
unfolding name
requests_total subsystem = name subsystem (codes "requests") (codes "total" ∷ [])

unfoldable pub request_duration : Str → Str
unfolding name
request_duration subsystem =
    name subsystem (codes "request") (codes "duration" ∷ codes "seconds" ∷ [])

unfoldable pub request_size : Str → Str
unfolding name
request_size subsystem = name subsystem (codes "request") (codes "size" ∷ codes "bytes" ∷ [])

unfoldable pub response_size : Str → Str
unfolding name
response_size subsystem = name subsystem (codes "response") (codes "size" ∷ codes "bytes" ∷ [])

-- prometheus' registry: `MustRegister` of a collector with a name.
pub record Registry : Type 1 where
  pub State : Type 0
  pub must_register : Str → State → Result State

-- "MustRegister panics if any error occurs", which the collectors of a name that is taken cause.
pub record IsRegistry (G : Registry) : Type 1 where
  pub Registered : Str → G.State → Type 0
  pub must_register-free :
      (n : Str) (s : G.State)
      → (Registered n s → ⊥)
      → (t : G.State) × (G.must_register n s ≡ ok t)
        × Registered n t
        × ((m : Str) → Registered m s → Registered m t)
        × ((m : Str) → m ≢ n → Registered m t → Registered m s)
  pub must_register-taken :
      (n : Str) (s : G.State) → Registered n s → (why : String) × (G.must_register n s ≡ panic why)

module _ (G : Registry) where
  -- The registrations of `NewTelemetry`.
  unfoldable pub new_telemetry : Str → G.State → Result G.State
  unfolding requests_total request_duration request_size response_size
  new_telemetry subsystem s = G.must_register (requests_total subsystem) s >>= λ s1.
      G.must_register (request_duration subsystem) s1 >>= λ s2.
      G.must_register (request_size subsystem) s2 >>= λ s3.
      G.must_register (response_size subsystem) s3
