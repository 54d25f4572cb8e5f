-- ===== src/Tests/Mounted.antt =====
-- A file that the action has encrypted, and its mounting.
use gpgfs.Base.{ok-injective, sym, ◌∙◌, ap, ◌≡◌, refl, none, some, [], ◌∷◌, ok, arith, true}
use gpgfs.Std.Strings.{Str, codes, same, join, has_suffix, has_prefix}
use gpgfs.Std.FilePath
use gpgfs.Std.FilePath.Clean.{rooted}
use gpgfs.Std.WalkDir.{regular, Entry, dir, entry, file, end, present, walk, walk_dir}
use gpgfs.Std.WalkDir.Visits.{HasFile, here, inside, first, later}
use gpgfs.Fuse.Preload.{preload}
use gpgfs.Fuse.Preload.Served.{Serves, IsBare, IsAlone}
use gpgfs.Fuse.Preload.Free.{IsApart, mounted_names}
use gpgfs.Fuse.Enclave.{open_pointer, Bytes}
use gpgfs.Fuse.Key.{new_key, key_format_ctor, encrypt, decrypt}
use gpgfs.Fuse.Preload.{
  default_attr, folder, State, visit, mount_file, place, inode_path, load_attr,
}
use gpgfs.Fuse.Preload.Paths.{encrypted_path}
use gpgfs.Fuse.Preload.Placed.{descend}
use gpgfs.Fuse.Preload.Complete.{Decrypts}
use gpgfs.Fuse.Preload.Taken.{visit-taken}
use gpgfs.Cli.Host.{Host, put, read_file}
use gpgfs.Cli.Message.{message_encrypt}
use gpgfs.Cli.Message.RoundTrip.{IsKeyFile}
use gpgfs.Cli.Message.Mounted.{message_encrypt-Serves}
use gpgfs.Tests.World.{world, memory, memory-IsSealing, tagging, tagging-IsPublicKeyCrypto}
use gpgfs.Tests.Inodes.{trees-IsInodeTree, find_edge, find_node}
use gpgfs.Tests.Preload.{s, d, f, s-IsPlain, d-IsPlain, f-IsPlain, provided, provided_opens}
use gpgfs.Tests.Messages.{uid, system, empty_host, buffer, buffer-IsPrivateKeyBuffer}

abbrev text : Bytes
text = 104 ∷ 105 ∷ []

abbrev path : Str
path = encrypted_path (s ∷ []) (d ∷ []) f

-- The key in the file `k`, a message in the file `m`.
abbrev host : Host
host = put (codes "k") (9 ∷ []) (put (codes "m") text empty_host)

host-IsKeyFile : IsKeyFile tagging memory uid host (codes "k") buffer
unfolding put new_key key_format_ctor same open_pointer
host-IsKeyFile = record { raw = 9 ∷ []; held = refl; opens = refl }

there : host.files (codes "m") ≡ some text
unfolding put same
there = refl

encrypts : encrypt tagging buffer text ≡ ok (1 ∷ text)
unfolding encrypt
encrypts = refl

same_disk :
    world.disk.read_file path
    ≡ read_file system
        (message_encrypt tagging memory system uid host (codes "k") (codes "m") path).0
        path
unfolding message_encrypt new_key join open_pointer
same_disk = refl

-- The tree under `/s`, with another file in it.
abbrev pub tree : Entry
tree =
    dir none (
      entry (codes "d") (dir none (entry (codes "f.gpg") file end))
        (entry (codes "e.gpg") file end))

abbrev pub empty : State world
empty = record { forest = record { nodes = (0, folder) ∷ []; edges = [] }; warnings = [] }

pub empty-IsBare : IsBare world empty.forest 0
unfolding find_node find_edge
empty-IsBare = record { embeds = folder; there = refl; childless = λ name. refl }

pub met : HasFile path (rooted (s ∷ [])) tree
unfolding FilePath.join_path
met = inside (first (inside (first (here refl))))

elsewhere :
    (at : Str × Str)
    → inode_path (rooted (s ∷ [])) (codes "/s/e.gpg") ≡ ok at
    → IsApart (d ∷ f ∷ []) (mounted_names at)
unfolding inode_path FilePath.rel FilePath.clean join mounted_names
elsewhere at e rest h =
    let found : ([], codes "e") ≡ at = ok-injective e in let h' = rw (← found) at h in cc

pub alone : IsAlone (s ∷ []) path tree (d ∷ f ∷ [])
unfolding FilePath.join_path
alone q (inside (first (inside (first (here e))))) ne suffixed at h = absurd (ne e)
alone q (inside (first (inside (later w)))) ne suffixed at h = elim w [ ]
alone q (inside (later (later w))) ne suffixed at h = elim w [ ]
alone q (inside (later (first (here e)))) ne suffixed at h =
    elsewhere at (ap (inode_path (rooted (s ∷ []))) (sym e) ∙ h)

quiet : (preload world provided 0 (present tree) empty).1 ≡ none
unfolding preload walk walk_dir visit FilePath.join_path FilePath.clean has_suffix has_prefix
    mount_file place inode_path load_attr decrypt FilePath.rel open_pointer
quiet = refl

message_encrypt-Serves_example :
    ((message_encrypt tagging memory system uid host (codes "k") (codes "m") path).1 ≡ ok tt)
    × Serves world (preload world provided 0 (present tree) empty).0.forest 0 (d ∷ f ∷ []) text 1 9
message_encrypt-Serves_example =
    message_encrypt-Serves world (trees-IsInodeTree _) system uid host (codes "k") (codes "m")
      (s ∷ []) (d ∷ []) f text (1 ∷ text) buffer true true provided 0 tree empty 1 9
      tagging-IsPublicKeyCrypto memory-IsSealing buffer-IsPrivateKeyBuffer host-IsKeyFile
      (s-IsPlain, tt) (d-IsPlain, tt) f-IsPlain (λ e. ground arith) (λ e. ground arith)
      (λ e. ground arith) refl there encrypts refl provided_opens empty-IsBare met alone same_disk
      quiet (omega arith)

-- A directory stands where the file would be mounted.
abbrev taken : State world
taken = record {
  forest = record {
    nodes = (0, folder) ∷ (1, folder) ∷ (2, folder) ∷ [];
    edges = (0, d, 1) ∷ (1, f, 2) ∷ [];
  };
  warnings = [];
}

standing : descend world taken.forest 0 (d ∷ f ∷ []) ≡ some 2
unfolding descend find_edge
standing = refl

standing_node : world.inodes.node taken.forest 2 ≡ some folder
unfolding find_node
standing_node = refl

decrypts : Decrypts world buffer path text
unfolding decrypt same join
decrypts = refl

loads : load_attr world path ≡ ok default_attr
unfolding load_attr join
loads = refl

visit-taken_example :
    let (left, stop) = visit world (rooted (s ∷ [])) 0 buffer path (some regular) none taken in
    (stop ≡ none)
    × (left.warnings ≡ [])
    × (descend world left.forest 0 (d ∷ f ∷ []) ≡ some 2)
    × (world.inodes.node left.forest 2 ≡ some folder)
visit-taken_example =
    visit-taken world (trees-IsInodeTree _) 0 buffer (s ∷ []) (d ∷ []) f text default_attr taken 2
      folder (s-IsPlain, tt) (d-IsPlain, tt) f-IsPlain decrypts loads standing standing_node
