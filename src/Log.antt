-- ===== src/Log.antt =====
-- pkg/log: the creation of a logger. zerolog's levels and what the system says of the process are
-- parameters.
pub mod Std
use gpgfs.Base.{ℕ, Bool, Result, ok, err, panic, ◌>>=◌, wrapping, []}
use gpgfs.Std.Strings.{Str}
use gpgfs.Config.Sections.{LogConfig}

pub record Zerolog : Type 1 where
  pub Level : Type 0
  pub parse_level : Str → Result Level

-- `os.Getpid`, `os.Getppid`, `syscall.Getpgid`, and whether the standard output is a terminal.
pub record Process : Type 0 where
  pub pid : ℕ
  pub ppid : ℕ
  pub pgid : Result ℕ
  pub terminal : Bool

-- What a logger adds to each line, and the level below which it is silent.
pub record Logger (Level : Type 0) : Type 0 where
  pub pid : ℕ
  pub ppid : ℕ
  pub pgid : ℕ
  pub console : Bool
  pub level : Level

abbrev panicking : {A : Type 0} → Result A → Result A
panicking (err e) = panic "getpgid"
panicking r = r

unfoldable pub create : (Z : Zerolog) → Process → LogConfig → Result (Logger Z.Level)
create Z p c =
    wrapping "failed to parse logging level from config" [] (Z.parse_level c.level) >>= λ level.
    panicking p.pgid >>= λ pgid.
    ok (record { pid = p.pid; ppid = p.ppid; pgid = pgid; console = p.terminal; level = level })
