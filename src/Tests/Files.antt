-- ===== src/Tests/Files.antt =====
-- A file of the text `hello`, its attributes and its owner.
use gpgfs.Fuse.File.Reads.{read_bytes-bounds}
use gpgfs.Base.{
  length, ◌+◌, ◌↔◌, ◌⊎◌, ◌<◌, ◌≤◌, ◌^◌, ℕ, ◌≡◌, refl, true, false, none, some, [], ok, panic,
  String, arith,
}
use gpgfs.Base.Int.{pos}
use gpgfs.Std.Strings.{Str, codes, same}
use gpgfs.Std.Strconv.{parse_uint}
use gpgfs.Std.FilePath.{clean, is_rooted}
use gpgfs.Fuse.Enclave.{open_pointer}
use gpgfs.Fuse.Attr.{FuseAttr, zero_attr, Attr, expand, Owns}
use gpgfs.Fuse.Attr.Owner.{expand-Owns}
use gpgfs.Fuse.File.{File, new_file, no_error, read_bytes, getattr}
use gpgfs.Fuse.File.Reads.{Holds, window, read_bytes-window, getattr-read_bytes, empty_file_panics}
use gpgfs.Fuse.Preload.{default_attr, Fuse, exists}
use gpgfs.Fuse.Mount.{new, MountConfig}
use gpgfs.Tests.World.{memory, memory-IsSealing, users}

abbrev hello : Str
hello = codes "hello"

abbrev hello_file : File memory
hello_file = record { attr = default_attr; content = some hello }

holds : Holds memory hello_file hello
unfolding open_pointer
holds = refl

read_bytes-window_example : read_bytes memory hello_file 10 (pos 2) ≡ ok (window hello 2 10)
read_bytes-window_example =
    read_bytes-window memory hello_file hello holds 2 10 (omega arith) (omega arith)

read_bytes-bounds_example :
    ((m : String) × (read_bytes memory hello_file 10 (pos 6) ≡ panic m)) ↔ ((5 < 6) ⊎ (2 ^ 63 ≤ 16))
read_bytes-bounds_example =
    read_bytes-bounds memory hello_file hello holds 6 10 (omega arith) (omega arith)

abbrev owner_only : FuseAttr
owner_only = record zero_attr { mode = 0o400 }

getattr-read_bytes_example :
    (getattr memory hello_file zero_attr ≡ ok (record owner_only { size = length hello }, no_error))
    × (read_bytes memory hello_file (length hello) (pos 0) ≡ ok hello)
    × (read_bytes memory hello_file (length hello + 1) (pos 0) ≡ ok hello)
getattr-read_bytes_example =
    getattr-read_bytes memory hello_file hello holds owner_only zero_attr refl (omega arith)

empty_file_panics_example :
    let f = new_file memory default_attr none in
    let nil : String = "invalid memory address or nil pointer dereference" in
    (read_bytes memory f 1 (pos 0) ≡ panic nil) × (getattr memory f zero_attr ≡ panic nil)
empty_file_panics_example =
    empty_file_panics memory default_attr zero_attr 1 (pos 0) memory-IsSealing

abbrev of_root : Attr
of_root = record {
  fuse_attr = some (record owner_only { uid = 5; gid = 6 });
  user = codes "root";
  group = [];
}

abbrev expanded : Attr
expanded = record of_root { fuse_attr = some (record owner_only { uid = 0; gid = 6 }) }

expands : expand users of_root ≡ ok expanded
unfolding expand same parse_uint
expands = refl

expand-Owns_example :
    (uid gid : ℕ) × Owns users.lookup of_root.user 5 uid
    × Owns users.lookup_group of_root.group 6 gid
    × (expanded ≡ record of_root { fuse_attr = some (record owner_only { uid = uid; gid = gid }) })
expand-Owns_example =
    expand-Owns users of_root expanded (record owner_only { uid = 5; gid = 6 }) refl expands

abbrev config : MountConfig
config = record { allow_other = true; debug = false }

abbrev made : Fuse memory
made = record {
  key = none;
  allow_other = true;
  debug = false;
  source = codes "/s";
  target = codes "/t";
}

makes : new memory (λ p. exists) (ok []) config none (codes "/s/") (codes "/t") ≡ ok made
unfolding new clean is_rooted
makes = refl
