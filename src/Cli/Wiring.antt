-- ===== src/Cli/Wiring.antt =====
-- cli/cli.go: what `Before` and MountAction teach the container, and what the actions ask of it. The
-- container, go.uber.org/dig, is a parameter.
pub mod Built
pub mod Checks
pub mod Resolved
use gpgfs.Base.{
  ℕ, ◌<◌, ◌≡◌, ◌≢◌, ◌⊎◌, Bool, true, false, All, List, [], ◌∷◌, ◌++◌, Result, ok, ◌>>=◌, ◌>>◌,
  if◌then◌else◌,
}

-- The types of the values.
pub data Kind : Type 0 where
  done_ch cli_context spew_config json_encoder config logger rand registry telemetry_server : Kind
  wait_group error_ch signal_ch context fuse fuse_server : Kind

-- A constructor: the types of its parameters, and that of its result.
pub record Provider : Type 0 where
  pub needs : List Kind
  pub gives : Kind

abbrev pub value : Kind → Provider
value k = record { needs = []; gives = k }

pub record Dig : Type 1 where
  pub Container : Type 0
  pub new : Container
  pub provide : Provider → Container → Result Container
  pub invoke : List Kind → Container → Result Container

-- `if err != nil { return err }` behind each `c.Provide`.
unfoldable pub provide_all : (D : Dig) → List Provider → D.Container → Result D.Container
provide_all D [] c = ok c
provide_all D (p ∷ ps) c = D.provide p c >>= λ d. provide_all D ps d

-- Without a duration, and with one, the constructor of the context takes and makes the same types.
unfoldable pub before_providers : List Provider
before_providers =
    value done_ch
    ∷ value cli_context
    ∷ value spew_config
    ∷ value json_encoder
    ∷ record { needs = cli_context ∷ []; gives = config }
    ∷ record { needs = cli_context ∷ config ∷ []; gives = logger }
    ∷ value rand
    ∷ value registry
    ∷ record {
      needs = config ∷ logger ∷ registry ∷ done_ch ∷ wait_group ∷ error_ch ∷ [];
      gives = telemetry_server;
    }
    ∷ value wait_group
    ∷ value error_ch
    ∷ value signal_ch
    ∷ record { needs = cli_context ∷ []; gives = context }
    ∷ []

unfoldable pub mount_providers : List Provider
mount_providers =
    record { needs = config ∷ logger ∷ registry ∷ []; gives = fuse }
    ∷ record {
      needs = config ∷ logger ∷ fuse ∷ cli_context ∷ done_ch ∷ wait_group ∷ [];
      gives = fuse_server;
    }
    ∷ []

-- What `writeProfile` and `writeTrace` ask for.
abbrev pub profiler_needs : List Kind
profiler_needs = context ∷ logger ∷ []

-- What the function with the event loop asks for.
abbrev pub loop_needs : List Kind
loop_needs =
    context ∷ config ∷ logger ∷ telemetry_server ∷ fuse_server ∷ wait_group ∷ done_ch ∷ error_ch
    ∷ signal_ch ∷ []

-- The actions of the other commands.
pub data Action : Type 0 where
  config_show config_validate config_push key_convert message_encrypt message_decrypt : Action

-- What the function that such an action invokes asks for.
unfoldable pub action_needs : Action → List Kind
action_needs config_show = config ∷ []
action_needs config_validate = logger ∷ []
action_needs config_push = logger ∷ []
action_needs key_convert = []
action_needs message_encrypt = []
action_needs message_decrypt = []

module _ (D : Dig) where
  -- `Before`, with the flags `profile` and `trace`.
  unfoldable pub before : Bool → Bool → Result D.Container
  unfolding provide_all before_providers
  before profile trace = do
    c ← provide_all D before_providers D.new
    d ← if profile then D.invoke profiler_needs c else ok c
    if trace then D.invoke profiler_needs d else ok d

  -- What MountAction does with the container up to its last `Invoke`. The `Invoke` for the graph of the
  -- components has its error thrown away.
  unfoldable pub mount : D.Container → Result D.Container
  unfolding provide_all mount_providers
  mount c = provide_all D mount_providers c
