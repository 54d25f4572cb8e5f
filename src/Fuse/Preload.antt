-- ===== src/Fuse/Preload.antt =====
-- pkg/fuse/fuse.go: Fuse and Preload.
pub mod Kept
pub mod Paths
pub mod Placed
pub mod Complete
pub mod Origin
pub mod Reading
pub mod Taken
pub mod Shape
pub mod Free
pub mod Served
use gpgfs.Base.{
  ℕ, String, Bool, true, false, Option, none, some, List, [], ◌∷◌, ◌++◌, Result, ok, err, panic,
  Error, ◌>>=◌, wrapping, if◌then◌else◌,
}
use gpgfs.Std.Strings.{Str, codes, has_suffix, trim_suffix, split}
use gpgfs.Std.FilePath.{slash, clean, rel, split_path}
use gpgfs.Std.WalkDir.{directory, regular, irregular, Root, Callback, walk}
use gpgfs.Fuse.Enclave.{Bytes, LockedBuffer, Enclaves, open_pointer}
use gpgfs.Fuse.Attr.{zero_attr, Attr, Users, expand}
use gpgfs.Fuse.File.{File, new_file}
use gpgfs.Fuse.Key.OpenPgp.{Pgp}
use gpgfs.Fuse.Key.{decrypt}
use gpgfs.Fuse.Inodes.{Inodes}

abbrev pub encrypted_suffix : Str
encrypted_suffix = codes ".gpg"

abbrev pub attr_suffix : Str
attr_suffix = codes ".yml"

-- fuse.S_IFDIR
abbrev pub s_ifdir : ℕ
s_ifdir = 0x4000

-- What `os.Stat` says: `os.IsNotExist` holds of the error `not_exist` alone.
pub data Stat : Type 0 where
  exists : Stat
  not_exist : Error → Stat
  failed : Error → Stat

-- The disk, read while the filesystem is filled; `unmarshal` is `yaml.Unmarshal` into an Attr.
pub record Disk : Type 0 where
  pub read_file : Str → Result Bytes
  pub stat : Str → Stat
  pub unmarshal : Bytes → Attr → Result Attr

-- What an inode of the mounted filesystem embeds.
pub data Node (G : Enclaves) : Type 0 where
  folder : Node G
  leaf : File G → Node G

-- A line of the log at the level of a warning: the path, the message and the error.
pub record Warning : Type 0 where
  pub path : Str
  pub message : Str
  pub error : Option Error

pub record World : Type 1 where
  pub enclaves : Enclaves
  pub pgp : Pgp
  pub users : Users
  pub disk : Disk
  pub inodes : Inodes (Node enclaves)

-- `Config` of pkg/fuse, as far as `Mount` reads it, and the filesystem's root.
pub record Fuse (G : Enclaves) : Type 0 where
  pub key : Option G.Enclave
  pub allow_other : Bool
  pub debug : Bool
  pub source : Str
  pub target : Str

-- What ends the filling before its end.
pub data Stop : Type 0 where
  failure : Error → Stop
  panicking : String → Stop

-- The attributes of a file that has no attribute file: `Mode: 0400`.
abbrev pub default_attr : Attr
default_attr = record {
  fuse_attr = some (record zero_attr { mode = 0o400 });
  user = [];
  group = [];
}

-- The path of a file in the mounted filesystem, cut at its last slash.
unfoldable pub inode_path : Str → Str → Result (Str × Str)
unfolding rel trim_suffix clean split_path
inode_path source path = do
  p ← rel source (trim_suffix path encrypted_suffix)
  ok (split_path (clean p))

module _ (W : World) where
  abbrev pub Forest : Type 0
  Forest = W.inodes.Forest

  abbrev pub Inode : Type 0
  Inode = W.inodes.Inode

  pub record State : Type 0 where
    pub forest : Forest
    pub warnings : List Warning

  -- `f.warn(path, d, err).Msg(message)`
  unfoldable pub warn : Str → Option Error → String → State → State
  warn path error message s = record s {
    warnings = s.warnings ++ record { path = path; message = codes message; error = error } ∷ [];
  }

  abbrev pub skip_error : String
  skip_error = "skipping file because of error"

  -- One round of the loop over the directory's components.
  unfoldable pub enter : Forest × Inode → Str → Forest × Inode
  enter (t, parent) [] = (t, parent)
  enter (t, parent) (c ∷ cs) = elim (W.inodes.get_child t parent (c ∷ cs)) [
    | some inode ↦ (t, inode)
    | none ↦
        let (t1, inode) = W.inodes.new_persistent_inode t parent folder s_ifdir in
        ((W.inodes.add_child t1 parent (c ∷ cs) inode true).0, inode)
  ]

  -- The loop: the inode of the file's directory, made where it is missing.
  unfoldable pub enter_all : Forest × Inode → List Str → Forest × Inode
  unfolding enter
  enter_all at [] = at
  enter_all at (c ∷ cs) = enter_all (enter at c) cs

  -- The attributes of the file at `path`, from the attribute file beside it if there is one.
  unfoldable pub load_attr : Str → Result Attr
  unfolding trim_suffix expand
  load_attr path =
      let attr_path = trim_suffix path encrypted_suffix ++ attr_suffix in
      elim (W.disk.stat attr_path) [
        | exists ↦ do
          attr_buf ←
              wrapping "failed to load attrs from %q" (attr_path ∷ []) (W.disk.read_file attr_path)
          attr ←
              wrapping "failed to parse attrs from %q" (attr_path ∷ [])
                (W.disk.unmarshal attr_buf default_attr)
          wrapping "faield to expand fuse node attributes" [] (expand W.users attr)
        | not_exist e ↦ ok default_attr
        | failed e ↦ err e
      ]

  -- The new inode of the file; a child that is there already is left alone.
  unfoldable pub add_file : Forest × Inode → Str → Attr → Bytes → Forest
  unfolding new_file
  add_file (t, parent) base attr plain =
      let content = W.enclaves.new_enclave plain in
      let (t1, inode) =
        W.inodes.new_persistent_inode t parent (leaf (new_file W.enclaves attr content)) 0 in
      (W.inodes.add_child t1 parent base inode false).0

  module _ (source : Str) (root : Inode) (key : LockedBuffer) where
    -- A decrypted file at the path `(dir, base)` of the mounted filesystem.
    unfoldable pub place : Str → Bytes → Str × Str → State → State × Option Stop
    unfolding enter_all split load_attr add_file
    place path plain (dir, base) s =
        let at = enter_all (s.forest, root) (split slash dir) in
        elim (load_attr path) [
          | ok attr ↦ (record s { forest = add_file at base attr plain }, none)
          | err e ↦ (record s { forest = at.0 }, some (failure e))
          | panic m ↦ (record s { forest = at.0 }, some (panicking m))
        ]

    -- A regular file with the suffix.
    unfoldable pub mount_file : Str → State → State × Option Stop
    unfolding place inode_path decrypt warn
    mount_file path s = elim (W.disk.read_file path >>= λ enc. decrypt W.pgp key enc) [
      | ok plain ↦ elim (inode_path source path) [
        | ok at ↦ place path plain at s
        | err e ↦ (warn path (some e) skip_error s, none)
        | panic m ↦ (s, some (panicking m))
      ]
      | err e ↦ (warn path (some e) skip_error s, none)
      | panic m ↦ (s, some (panicking m))
    ]

    -- The callback of `Preload`.
    unfoldable pub visit : Callback State Stop
    unfolding mount_file has_suffix warn
    visit path d (some e) s = (warn path (some e) skip_error s, none)
    visit path none none s =
        (s, some (panicking "invalid memory address or nil pointer dereference"))
    visit path (some directory) none s = (s, none)
    visit path (some irregular) none s = (warn path none "skipping unsupported file type" s, none)
    visit path (some regular) none s =
        if has_suffix path encrypted_suffix
        then mount_file path s
        else (warn path none "skipping file without required suffix %q" s, none)

  -- `(*Fuse).Preload`, over the tree that the walk of the source directory meets.
  unfoldable pub preload : Fuse W.enclaves → Inode → Root → State → State × Option Stop
  unfolding visit walk
  preload f root tree s = elim (open_pointer W.enclaves f.key) [
    | ok key ↦ walk (visit f.source root key) f.source tree s
    | err e ↦ (s, some (panicking "failed to obtain locked buffer from enclave"))
    | panic m ↦ (s, some (panicking m))
  ]

  -- `(*Fuse).OnAdd` leaves the tree as it is.
  unfoldable pub on_add : State → State
  on_add s = s
