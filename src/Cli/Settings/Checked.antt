-- ===== src/Cli/Settings/Checked.antt =====
-- The commands on configurations act on valid ones.
use gpgfs.Base.{◌≡◌, ◌≢◌, refl, ok, >>=-eq-ok, some, List, []}
use gpgfs.Std.Strings.{Str}
use gpgfs.Config.Sections.{Config, LogConfig}
use gpgfs.Config.Tree.{fill}
use gpgfs.Config.Tree.Valid.{key_path}
use gpgfs.Config.Tree.Complete.{complete_sections}
use gpgfs.Config.Load.{Revip, IsRevip, load}
use gpgfs.Config.Load.Valid.{load-valid}
use gpgfs.Log.{Zerolog, Process, create}
use gpgfs.Cli.Settings.{provide_logger, leveled, provide_config, with_logger, config_validate}

module _ (Z : Zerolog) (process : Process) where
  provide_logger-some :
      (c : Config) (lc : LogConfig) (flag : Str)
      → c.log ≡ some lc
      → provide_logger Z process c flag ≡ create Z process (leveled lc flag)
  unfolding provide_logger
  provide_logger-some c lc flag e = rw e refl

module _ (R : Revip) (L : IsRevip R) (Z : Zerolog) (process : Process) where
  -- The section that the provider of the logger needs is there.
  pub provide_logger-loaded :
      (paths : List Str) (flag : Str) (c : Config)
      → load R Z process paths [] ≡ ok c
      → (lc : LogConfig) × (c.log ≡ some lc)
        × (lc.level ≢ [])
        × (provide_logger Z process c flag ≡ create Z process (leveled lc flag))
  unfolding provide_logger
  provide_logger-loaded paths flag c h =
      let (whole, given, c0, reads, _) = load-valid R L Z process paths c h in
      let ((lc, q, level), telemetry, fuse) = complete_sections c whole in
      (lc, q, level, provide_logger-some Z process c lc flag q)

  -- `config validate` only succeeds on a valid configuration: the provider of the logger has
  -- already loaded and checked the same sources.
  pub config_validate-checks :
      (paths : List Str) (flag : Str)
      → (config_validate R Z process paths flag).ended ≡ ok tt
      → (c : Config) × (provide_config R Z process paths ≡ ok c) × (key_path c ≢ []) × (fill c ≡ c)
  unfolding config_validate with_logger provide_config
  config_validate-checks paths flag h =
      let (l, hl, _) = >>=-eq-ok (with_logger R Z process paths flag) _ h in
      let (c, hc, _) = >>=-eq-ok (provide_config R Z process paths) _ hl in
      let (whole, given, c0, reads, _) = load-valid R L Z process paths c hc in
      (c, hc, given, whole)
