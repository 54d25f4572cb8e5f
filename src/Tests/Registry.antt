-- ===== src/Tests/Registry.antt =====
-- The registry that the program begins with, over some names of prometheus.
use gpgfs.Base.{some, ◌≡◌, refl, List, [], ◌∷◌, ◌++◌, ok, arith}
use gpgfs.Std.Strings.{Str, codes, has_prefix}
use gpgfs.Config.Sections.{TelemetryConfig}
use gpgfs.Telemetry.Registry.{go_build_info, init}
use gpgfs.Telemetry.Registry.Fresh.{IsDistinct, IsForeign}
use gpgfs.Telemetry.{provide_telemetry}
use gpgfs.Telemetry.Total.{scrapes, scrapes_in_flight, IsFramework, Ends, provide_telemetry_total}
use gpgfs.Tests.Loading.{keys, keys-IsRevip, levels, process, paths, loaded, loads}
use gpgfs.Tests.Http.{plain_http, names, names-IsRegistry, nothing_taken}

abbrev process_names : List Str
process_names = codes "process_cpu_seconds_total" ∷ codes "process_open_fds" ∷ []

abbrev go_names : List Str
go_names = codes "go_goroutines" ∷ []

distinct :
    IsDistinct (scrapes ∷ scrapes_in_flight ∷ process_names ++ (go_names ++ go_build_info ∷ []))
distinct = (
  (
    (λ e. ground arith),
    ((λ e. ground arith), ((λ e. ground arith), ((λ e. ground arith), ((λ e. ground arith), tt)))),
  ),
  (
    ((λ e. ground arith), ((λ e. ground arith), ((λ e. ground arith), ((λ e. ground arith), tt)))),
    (
      ((λ e. ground arith), ((λ e. ground arith), ((λ e. ground arith), tt))),
      (((λ e. ground arith), ((λ e. ground arith), tt)), (((λ e. ground arith), tt), (tt, tt))),
    ),
  ),
)

process-IsForeign : IsForeign process_names
unfolding has_prefix
process-IsForeign = (refl, (refl, tt))

go-IsForeign : IsForeign go_names
unfolding has_prefix
go-IsForeign = (refl, tt)

plain-IsFramework : IsFramework plain_http names-IsRegistry
plain-IsFramework = record {
  metric_handler-ok = λ r a b. ([], r, refl, λ m x y k. k);
  listen-returns = λ addr m e. cc;
}

provide_telemetry_total_example :
    (r : List Str) × (init names process_names go_names [] ≡ ok r)
    × (t : TelemetryConfig) × (loaded.telemetry ≡ some t)
    × Ends plain_http t r 0 (provide_telemetry plain_http loaded r 0)
provide_telemetry_total_example =
    provide_telemetry_total plain_http names-IsRegistry plain-IsFramework keys levels process paths
      loaded process_names go_names [] 0 keys-IsRevip loads nothing_taken distinct process-IsForeign
      go-IsForeign
