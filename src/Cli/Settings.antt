-- ===== src/Cli/Settings.antt =====
-- cli/cli.go: the commands on configurations, and the providers of the configuration and the logger.

pub mod Pushed
pub mod Checked
use gpgfs.Base.{Result, ok, err, panic, new, ◌>>=◌, none, some, List, [], ◌∷◌, ◌++◌}
use gpgfs.Std.Strings.{Str}
use gpgfs.Config.Sections.{Config, LogConfig}
use gpgfs.Config.Load.{defaults, validation, Revip, load, validate, default}
use gpgfs.Log.{Zerolog, Process, Logger, create}

-- `revip.ToWriter`, which writes a configuration to the standard output, and `revip.ToURL` with the
-- function it returns.
pub record Writers : Type 1 where
  pub Destination : Type 0
  pub to_writer : Config → Result Str
  pub to_url : Str → Result Destination
  pub push : Destination → Config → Result (Unit {0})

-- What a command leaves: what it wrote to the standard output, the destinations that took the
-- configuration, and how it ended.
pub record Outcome : Type 0 where
  pub stdout : List Str
  pub pushed : List (Str × Config)
  pub ended : Result (Unit {0})

abbrev pub written : Result Str → Outcome
written (ok text) = record { stdout = text ∷ []; pushed = []; ended = ok tt }
written (err e) = record { stdout = []; pushed = []; ended = err e }
written (panic m) = record { stdout = []; pushed = []; ended = panic m }

abbrev pub quiet : Result (Unit {0}) → Outcome
quiet r = record { stdout = []; pushed = []; ended = r }

-- The field `Level` that the flag replaces.
unfoldable pub leveled : LogConfig → Str → LogConfig
leveled c [] = c
leveled c (a ∷ as') = record { level = a ∷ as' }

-- The provider of the logger: `*c.Log` needs the section.
unfoldable pub provide_logger : (Z : Zerolog) → Process → Config → Str → Result (Logger Z.Level)
unfolding create leveled
provide_logger Z process c flag = elim c.log [
  | none ↦ panic "invalid memory address or nil pointer dereference"
  | some lc ↦ create Z process (leveled lc flag)
]

module _ (R : Revip) (W : Writers) where
  unfoldable pub config_show_default : Outcome
  unfolding default
  config_show_default = written (default R >>= λ c. W.to_writer c)

module _ (W : Writers) where
  -- The destinations in their order; the first error ends the command.
  unfoldable pub push_all : Config → List Str → List (Str × Config) → Outcome
  push_all c [] before = record { stdout = []; pushed = before; ended = ok tt }
  push_all c (d ∷ ds) before =
      let rest = push_all c ds (before ++ (d, c) ∷ []) in
      elim (W.to_url d >>= λ w. W.push w c) [
        | ok done ↦ rest
        | err e ↦ record { stdout = []; pushed = before; ended = err e }
        | panic m ↦ record { stdout = []; pushed = before; ended = panic m }
      ]

  unfoldable pub push_args : Config → List Str → Outcome
  unfolding push_all
  push_args c [] = quiet (err (new "subcommand requires an argument, example: ./config.out.yml" []))
  push_args c (d ∷ ds) = push_all c (d ∷ ds) []

module _ (R : Revip) (Z : Zerolog) (process : Process) where
  -- The provider of the configuration.
  unfoldable pub provide_config : List Str → Result Config
  unfolding load
  provide_config paths = load R Z process paths []

  -- The container makes the configuration and then the logger, where a command asks for it.
  unfoldable pub with_logger : List Str → Str → Result (Logger Z.Level)
  unfolding provide_config provide_logger
  with_logger paths flag = provide_config paths >>= λ c. provide_logger Z process c flag

module _ (R : Revip) (W : Writers) (Z : Zerolog) (process : Process) where
  unfoldable pub config_show : List Str → Outcome
  unfolding provide_config
  config_show paths = written (provide_config R Z process paths >>= λ c. W.to_writer c)

module _ (R : Revip) (Z : Zerolog) (process : Process) where
  unfoldable pub config_validate : List Str → Str → Outcome
  unfolding with_logger load validate
  config_validate paths flag = quiet (
      with_logger R Z process paths flag >>= λ l.
      load R Z process paths (defaults ∷ []) >>= λ c. validate R c)

module _ (R : Revip) (W : Writers) (Z : Zerolog) (process : Process) where
  unfoldable pub config_push : List Str → Str → List Str → Outcome
  unfolding with_logger load push_args
  config_push paths flag args =
      elim (with_logger R Z process paths flag >>= λ l.
      load R Z process paths (defaults ∷ validation ∷ [])) [
        | ok c ↦ push_args W c args
        | err e ↦ quiet (err e)
        | panic m ↦ quiet (panic m)
      ]
