-- ===== src/Telemetry/Registry.antt =====
-- pkg/telemetry/registry/registry.go: what is registered before the program begins. The names of
-- prometheus' own collectors are parameters.
pub mod Fresh
use gpgfs.Base.{Result, ok, ◌>>=◌, List, [], ◌∷◌}
use gpgfs.Std.Strings.{Str, codes}
use gpgfs.Server.Metrics.{Registry}

-- The name of the metric that `collector.Self` holds.
abbrev pub go_build_info : Str
go_build_info = codes "go_build_info"

module _ (G : Registry) where
  -- A collector of many metrics takes their names.
  unfoldable pub register_all : List Str → G.State → Result G.State
  register_all [] s = ok s
  register_all (n ∷ ns) s = G.must_register n s >>= λ t. register_all ns t

  -- `init`: the collector of the process, that of the Go runtime, and the information about the
  -- build.
  unfoldable pub init : List Str → List Str → G.State → Result G.State
  unfolding register_all
  init process go s =
      register_all process s >>= λ s1. register_all go s1 >>= λ s2. G.must_register go_build_info s2
