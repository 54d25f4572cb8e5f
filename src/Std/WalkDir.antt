-- ===== src/Std/WalkDir.antt =====
-- Go's filepath.WalkDir over a directory tree, with a callback that keeps a state.
pub mod Visits
pub mod Invariant
use gpgfs.Base.{Option, none, some, Error}
use gpgfs.Std.Strings.{Str}
use gpgfs.Std.FilePath.{join_path}

-- What the type bits of a directory entry say.
pub data Kind : Type 0 where
  directory regular irregular : Kind

-- A directory tree as a walk meets it: the names of a directory are listed in order, and reading
-- a directory may fail, with the names read before the failure.
mutual
  pub data Entry : Type 0 where
    file : Entry
    special : Entry
    dir : Option Error → Entries → Entry

  pub data Entries : Type 0 where
    end : Entries
    entry : Str → Entry → Entries → Entries

-- What `Lstat` says of the root.
pub data Root : Type 0 where
  missing : Error → Root
  present : Entry → Root

abbrev pub kind : Entry → Kind
kind file = regular
kind special = irregular
kind (dir _ _) = directory

-- `func(path string, d DirEntry, err error) error`, whose effects are those on a state. What ends
-- the walk, an error or a panic, is an `X`; `none` is a nil error.
abbrev pub Callback : Type 0 → Type 0 → Type 0
Callback S X = Str → Option Kind → Option Error → S → S × Option X

module _ {S X : Type 0} (f : Callback S X) where
  -- `if err != nil { return err }`, with the state carried on.
  abbrev pub then_if_nil : S × Option X → (S → S × Option X) → S × Option X
  then_if_nil (s, none) k = k s
  then_if_nil (s, some e) k = (s, some e)

  -- A failed `ReadDir` is told to the callback, which decides whether the walk goes on.
  report : Str → Option Error → S → S × Option X
  report path none s = (s, none)
  report path (some e) s = f path (some directory) (some e) s

  -- The callback of this program returns neither SkipDir nor SkipAll, so an error ends the walk.
  unfoldable mutual
    unfolding report

    pub walk_dir : Str → Entry → S → S × Option X
    walk_dir path file s = f path (some regular) none s
    walk_dir path special s = f path (some irregular) none s
    walk_dir path (dir failed es) s =
        then_if_nil (f path (some directory) none s)
          λ s1. then_if_nil (report path failed s1) λ s2. walk_entries path es s2

    pub walk_entries : Str → Entries → S → S × Option X
    walk_entries path end s = (s, none)
    walk_entries path (entry name e es) s =
        then_if_nil (walk_dir (join_path path name) e s) λ s1. walk_entries path es s1

  -- `filepath.WalkDir`
  unfoldable pub walk : Str → Root → S → S × Option X
  unfolding walk_dir
  walk root (missing e) s = f root none (some e) s
  walk root (present e) s = walk_dir root e s
