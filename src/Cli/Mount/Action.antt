-- ===== src/Cli/Mount/Action.antt =====
-- cli/cli.go: what the container calls for MountAction, up to its event loop.
pub mod Ready
pub mod Reads
use gpgfs.Base.{ℕ, Bool, Option, Result, ok, ◌>>=◌, [], List, false}
use gpgfs.Std.Strings.{Str}
use gpgfs.Std.WalkDir.{Root}
use gpgfs.Fuse.Key.OpenPgp.{UserId}
use gpgfs.Fuse.Preload.{World, Fuse, Inode, State}
use gpgfs.Fuse.Mount.{Options}
use gpgfs.Config.Sections.{Config}
use gpgfs.Config.Load.{Revip}
use gpgfs.Log.{Zerolog, Process, Logger}
use gpgfs.Telemetry.{Framework, Server, provide_telemetry}
use gpgfs.Cli.Settings.{provide_config, provide_logger}
use gpgfs.Cli.Mount.{provide_fuse, provide_server}
use gpgfs.Cli.Shutdown.{looping}
use gpgfs.Cli.Shutdown.{State as Loop}

-- What the action is called with: the flags, the process, and what it meets outside of itself.
pub record Call (W : World) (F : Framework) : Type 0 where
  pub paths : List Str
  pub level : Str
  pub source : Str
  pub target : Str
  pub getwd : Result Str
  pub uid : UserId
  pub process : Process
  pub notify : Result Bool
  pub registry : F.metrics.State
  pub root : Inode W
  pub tree : Root
  pub inodes : State W

-- The arguments of the function that the container invokes, and the number in the wait group.
pub record Arguments (W : World) (S : Type 0) (Z : Zerolog) (F : Framework) : Type 0 where
  pub config : Config
  pub logger : Logger Z.Level
  pub telemetry : Option (Server F)
  pub fuse : Fuse W.enclaves
  pub server : S
  pub inodes : State W
  pub running : ℕ

module _ (R : Revip) (Z : Zerolog) (F : Framework) (W : World) {S : Type 0}
    (mount_fs : Str → Fuse W.enclaves → Options → Result S) where
  -- The container calls the providers in the order of the arguments, and each of them once; the
  -- wait group is empty before.
  unfoldable pub arguments : Call W F → Result (Arguments W S Z F)
  unfolding provide_config provide_logger provide_telemetry provide_fuse provide_server
  arguments x = do
    c ← provide_config R Z x.process x.paths
    l ← provide_logger Z x.process c x.level
    (t, registry, counted) ← provide_telemetry F c x.registry 0
    f ← provide_fuse W x.getwd x.uid c.fuse x.source x.target
    (s, after, running) ← provide_server W mount_fs x.notify f x.root x.tree x.inodes counted
    ok (record {
      config = c;
      logger = l;
      telemetry = t;
      fuse = f;
      server = s;
      inodes = after;
      running = running;
    })

-- Where the event loop begins, before the end of the context, with or without the goroutines of the
-- profilers that `Before` has started.
unfoldable pub begun : Bool → ℕ → Loop
begun profiling running = record {
  phase = looping;
  done = false;
  running = running;
  ended = false;
  profiling = profiling;
}
