-- ===== src/Tests/Preload.antt =====
-- The mounting of one file.
use gpgfs.Base.{true, ◌≡◌, ◌⊎◌, refl, false, none, some, [], ◌∷◌, ok, arith}
use gpgfs.Std.Strings.{Str, codes, same, has_prefix, has_suffix, join}
use gpgfs.Std.FilePath
use gpgfs.Std.FilePath.Clean.{IsPlain, rooted}
use gpgfs.Std.WalkDir.{present, walk, walk_dir}
use gpgfs.Std.WalkDir.Visits.{HasFile, here, inside, first}
use gpgfs.Fuse.Enclave.{LockedBuffer, locked, open_pointer}
use gpgfs.Fuse.File.{File, new_file}
use gpgfs.Fuse.Key.{decrypt}
use gpgfs.Fuse.Preload.{
  default_attr, Fuse, folder, leaf, State, inode_path, load_attr, place, mount_file, visit, preload,
}
use gpgfs.Fuse.Preload.Kept.{preload-keeps}
use gpgfs.Fuse.Preload.Paths.{encrypted_path}
use gpgfs.Fuse.Preload.Complete.{Decrypts}
use gpgfs.Fuse.Preload.Origin.{IsDecrypted, preload-adds}
use gpgfs.Base.Int.{pos}
use gpgfs.Base.{◌≢◌}
use gpgfs.Fuse.Enclave.{Bytes}
use gpgfs.Fuse.File.{read_bytes}
use gpgfs.Fuse.Preload.{encrypted_suffix}
use gpgfs.Fuse.Preload.Reading.{served, preload-read_bytes}
use gpgfs.Tests.World.{memory-IsSealing}
use gpgfs.Fuse.Key.OpenPgp.{UserId}
use gpgfs.Tests.Inodes.{trees-IsInodeTree, find_edge, find_node, link, grow}
use gpgfs.Tests.World.{world, key, source_tree, memory}

abbrev pub s : Str
s = codes "s"

abbrev pub d : Str
d = codes "d"

abbrev pub f : Str
f = codes "f"

pub s-IsPlain : IsPlain s
s-IsPlain = ((λ e. cc), (λ e. ground arith), (λ e. ground arith), ((λ e. ground arith), tt))

pub d-IsPlain : IsPlain d
d-IsPlain = ((λ e. cc), (λ e. ground arith), (λ e. ground arith), ((λ e. ground arith), tt))

pub f-IsPlain : IsPlain f
f-IsPlain = ((λ e. cc), (λ e. ground arith), (λ e. ground arith), ((λ e. ground arith), tt))

abbrev fuse : Fuse memory
fuse = record {
  key = some (7 ∷ []);
  allow_other = false;
  debug = false;
  source = rooted (s ∷ []);
  target = codes "/t";
}

-- The root, 0, and a directory `d` in it.
abbrev pub state : State world
state = record {
  forest = record { nodes = (0, folder) ∷ (1, folder) ∷ []; edges = (0, d, 1) ∷ [] };
  warnings = [];
}

quiet : (preload world fuse 0 (present source_tree) state).1 ≡ none
unfolding preload walk walk_dir visit FilePath.join_path FilePath.clean has_suffix has_prefix
    mount_file place inode_path load_attr decrypt FilePath.rel open_pointer
quiet = refl

opened : open_pointer memory fuse.key ≡ ok key
unfolding open_pointer
opened = refl

decrypts : Decrypts world key (encrypted_path (s ∷ []) (d ∷ []) f) (104 ∷ 105 ∷ [])
unfolding decrypt same join
decrypts = refl

pub there : HasFile (encrypted_path (s ∷ []) (d ∷ []) f) (rooted (s ∷ [])) source_tree
unfolding FilePath.join_path
there = inside (first (inside (first (here refl))))

child : world.inodes.get_child state.forest 0 d ≡ some 1
unfolding find_edge
child = refl

embeds : world.inodes.node state.forest 1 ≡ some folder
unfolding find_node
embeds = refl

preload-keeps_example :
    let after = (preload world fuse 0 (present source_tree) state).0.forest in
    (world.inodes.get_child after 0 d ≡ some 1) × (world.inodes.node after 1 ≡ some folder)
preload-keeps_example =
    preload-keeps world (trees-IsInodeTree _) fuse 0 (present source_tree) state 0 1 d folder child
      embeds

abbrev mounted : File memory
mounted = new_file memory default_attr (some (104 ∷ 105 ∷ []))

embedded :
    world.inodes.node (preload world fuse 0 (present source_tree) state).0.forest 4
    ≡ some (leaf mounted)
unfolding preload walk walk_dir visit FilePath.join_path FilePath.clean has_suffix has_prefix
    mount_file place inode_path load_attr decrypt FilePath.rel open_pointer find_node link grow
embedded = refl

preload-adds_example :
    (world.inodes.node state.forest 4 ≡ some (leaf mounted)) ⊎ IsDecrypted world key mounted
preload-adds_example =
    preload-adds world (trees-IsInodeTree _) fuse 0 (present source_tree) state key opened 4 mounted
      embedded

fresh : world.inodes.node state.forest 4 ≢ some (leaf mounted)
unfolding find_node
fresh e = cc

preload-read_bytes_example :
    (path : Str) × (plain : Bytes) × (has_suffix path encrypted_suffix ≡ true)
    × Decrypts world key path plain
    × (read_bytes memory mounted 9 (pos 1) ≡ served plain 1 9)
preload-read_bytes_example =
    preload-read_bytes world (trees-IsInodeTree _) fuse 0 (present source_tree) state key 4 mounted
      1 9 memory-IsSealing opened embedded fresh (omega arith)

abbrev pub uid : UserId
uid = record { id = codes "root" }

-- The filesystem with the key that the SSH key stands for.
abbrev pub provided : Fuse memory
provided = record fuse { key = some (45 ∷ 9 ∷ []) }

abbrev pub new_key_buffer : LockedBuffer
new_key_buffer = locked (45 ∷ 9 ∷ [])

abbrev pub t : Str
t = codes "t"

pub provided_opens : open_pointer memory provided.key ≡ ok new_key_buffer
unfolding open_pointer
provided_opens = refl

pub key_fits : Decrypts world new_key_buffer (encrypted_path (s ∷ []) (d ∷ []) f) (104 ∷ 105 ∷ [])
unfolding decrypt same join
key_fits = refl
