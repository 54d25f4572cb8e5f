-- ===== src/Cli/Mount.antt =====
-- cli/cli.go: the two providers of MountAction, which build the filesystem and serve it.
pub mod Served
pub mod Configured
pub mod Action
use gpgfs.Base.{ℕ, Bool, Option, none, some, Result, ok, err, panic, suc, ◌>>=◌}
use gpgfs.Std.Strings.{Str}
use gpgfs.Std.WalkDir.{Root}
use gpgfs.Fuse.Key.OpenPgp.{UserId}
use gpgfs.Fuse.Key.{key_type_private, new_key}
use gpgfs.Fuse.Preload.{World, Fuse, Inode, State, Stop, failure, panicking, preload}
use gpgfs.Fuse.Mount.{Options, MountConfig, new, mount}
use gpgfs.Config.Sections.{KeyConfig, FuseConfig}

-- Following a pointer.
deref {ℓ} : {A : Type ℓ} → Option A → Result A
deref none = panic "invalid memory address or nil pointer dereference"
deref (some a) = ok a

-- The configuration that `New` copies.
unfoldable pub mount_config : FuseConfig → MountConfig
mount_config c = record { allow_other = c.allow_other; debug = c.debug }

module _ (W : World) (getwd : Result Str) (uid : UserId) where
  -- The provider of `*fuse.Fuse`: the key is read from its file.
  unfoldable pub provide_fuse : Option FuseConfig → Str → Str → Result (Fuse W.enclaves)
  unfolding deref mount_config new_key new
  provide_fuse section source target = do
    c ← deref section
    key ← deref c.key
    buf ← W.disk.read_file key.path
    enclave ← new_key W.pgp W.enclaves key.format uid key_type_private buf
    new W.enclaves W.disk.stat getwd (mount_config c) enclave source target

module _ (W : World) {S : Type 0} (mount_fs : Str → Fuse W.enclaves → Options → Result S)
    (notify : Result Bool) where
  -- How the filling ends, as a result.
  filled : State W × Option Stop → Result (State W)
  filled (s, none) = ok s
  filled (s, some (failure e)) = err e
  filled (s, some (panicking m)) = panic m

  -- The provider of `*fuse.Server`: the filesystem is mounted, filled, and announced to systemd,
  -- and then counted in the wait group.
  unfoldable pub provide_server :
      Fuse W.enclaves → Inode W → Root → State W → ℕ → Result (S × State W × ℕ)
  unfolding mount preload filled
  provide_server f root tree s running = do
    server ← mount W.enclaves mount_fs f
    after ← filled (preload W f root tree s)
    notified ← notify
    ok (server, after, suc running)
