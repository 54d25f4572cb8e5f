-- ===== src/Tests/Action.antt =====
-- The action with a telemetry server and a mounted file.
use gpgfs.Base.{true, false, suc, ◌≡◌, ◌≢◌, refl, some, Result, [], ◌∷◌, ok, arith}
use gpgfs.Std.Strings.{Str, codes}
use gpgfs.Std.FilePath
use gpgfs.Std.FilePath.Clean.{rooted}
use gpgfs.Std.WalkDir.{present}
use gpgfs.Fuse.Enclave.{Bytes, open_pointer}
use gpgfs.Fuse.Key.{Entity, key_type_private}
use gpgfs.Fuse.Key.Conversion.{IsEntityOf, IsArmoredKey}
use gpgfs.Fuse.Preload.{Fuse, State, preload}
use gpgfs.Fuse.Mount.{Options}
use gpgfs.Config.Tree.{fill, validate_sections}
use gpgfs.Config.Tree.Valid
use gpgfs.Config.Load.{load}
use gpgfs.Telemetry.Counted.{components}
use gpgfs.Cli.Shutdown.{exited, Steps}
use gpgfs.Cli.Mount.Action.{Call, Arguments, arguments, begun}
use gpgfs.Cli.Mount.Action.Ready.{arguments-exits}
use gpgfs.Cli.Mount.Action.Reads.{arguments-Serves}
use gpgfs.Fuse.Preload.Served.{Serves}
use gpgfs.Tests.Mounted.{tree, empty, empty-IsBare, met, alone}
use gpgfs.Tests.Inodes.{trees-IsInodeTree}
use gpgfs.Tests.World.{key_path, world, memory, memory-IsSealing}
use gpgfs.Tests.Loading.{with_key, keys, keys-IsRevip, levels, process}
use gpgfs.Tests.Http.{plain_http, made}
use gpgfs.Tests.Preload.{
  s, d, f, t, uid, new_key_buffer, provided, s-IsPlain, d-IsPlain, f-IsPlain, key_fits,
  provided_opens,
}

abbrev served_state : State world
served_state = (preload world provided 0 (present tree) empty).0

abbrev call : Call world plain_http
call = record {
  paths = key_path ∷ [];
  level = codes "debug";
  source = rooted (s ∷ []);
  target = rooted (t ∷ []);
  getwd = ok [];
  uid = uid;
  process = process;
  notify = ok true;
  registry = [];
  root = 0;
  tree = present tree;
  inodes = empty;
}

abbrev mount_fs : Str → Fuse memory → Options → Result Str
mount_fs target f options = ok target

abbrev ready : Arguments world Str levels plain_http
ready = record {
  config = fill (with_key key_path);
  logger = record { pid = 7; ppid = 1; pgid = 7; console = false; level = codes "debug" };
  telemetry = some made;
  fuse = provided;
  server = codes "/t";
  inodes = served_state;
  running = 2;
}

reached : arguments keys levels plain_http world mount_fs call ≡ ok ready
unfolding arguments load validate_sections fill open_pointer FilePath.join_path
reached = refl

arguments-exits_example :
    (2 ≡ suc (components plain_http (some made)))
    × Steps
        (begun true 2)
        (record { phase = exited 0; done = true; running = 0; ended = false; profiling = true })
arguments-exits_example =
    arguments-exits keys levels plain_http world mount_fs call ready true reached

arguments-Serves_example :
    ((raw : Bytes) × (e : Entity world.pgp) × (out : Bytes) × (Valid.key_path ready.config ≢ [])
      × (world.disk.read_file (Valid.key_path ready.config) ≡ ok raw)
      × IsEntityOf world.pgp uid raw e
      × IsArmoredKey world.pgp uid raw key_type_private e out
      × (provided.key ≡ memory.new_enclave out))
    × Serves world served_state.forest 0 (d ∷ f ∷ []) (104 ∷ 105 ∷ []) 1 9
arguments-Serves_example =
    arguments-Serves keys levels plain_http world mount_fs call ready (s ∷ []) (t ∷ []) (d ∷ []) f
      tree new_key_buffer (104 ∷ 105 ∷ []) 1 9 keys-IsRevip (trees-IsInodeTree _) memory-IsSealing
      (s-IsPlain, tt) (d-IsPlain, tt) f-IsPlain refl refl refl empty-IsBare reached provided_opens
      met alone key_fits (omega arith)
