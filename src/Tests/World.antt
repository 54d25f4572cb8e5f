-- ===== src/Tests/World.antt =====
-- A world: enclaves that are the bytes themselves, a key is the number of its ring, an encrypted
-- message has a 1 in front, and the disk has one file.
use gpgfs.Base.{
  ◌||◌, ◌≡◌, refl, Bool, true, false, Option, none, some, [], ◌∷◌, Result, ok, err, new,
  if◌then◌else◌,
}
use gpgfs.Std.Strings.{Str, codes, same}
use gpgfs.Std.WalkDir.{file, dir, end, entry, Entry}
use gpgfs.Fuse.Enclave.{Bytes, Enclaves, IsSealing, locked, LockedBuffer}
use gpgfs.Fuse.Attr.{Users}
use gpgfs.Fuse.Key.OpenPgp.{Pgp, IsPublicKeyCrypto, SshKey, rsa}
use gpgfs.Fuse.Preload.{Disk, World, Node, Stat, exists, not_exist}
use gpgfs.Tests.Inodes.{trees}

abbrev pub seal_bytes : Bytes → Option Bytes
seal_bytes [] = none
seal_bytes (b ∷ bs) = some (b ∷ bs)

abbrev pub memory : Enclaves
memory = record { Enclave = Bytes; new_enclave = seal_bytes; open_enclave = λ b. ok (locked b) }

pub memory-IsSealing : IsSealing memory
memory-IsSealing = record {
  new_enclave-nil = refl;
  new_enclave-cons = λ b bs. (b ∷ bs, refl, refl);
}

abbrev parse_key : Bytes → Result (SshKey Bytes Bytes)
parse_key [] = err (new "no key" [])
parse_key (b ∷ bs) = ok (rsa (b ∷ bs))

abbrev parse_armor : Bytes → Result Bool
parse_armor [] = err (new "no armor" [])
parse_armor (b ∷ bs) = ok true

abbrev untag : Bytes → Result Bytes
untag [] = err (new "no message" [])
untag (b ∷ bs) = ok bs

abbrev pub tagging : Pgp
tagging = record {
  Rsa = Bytes;
  Ed25519 = Bytes;
  PublicKey = Bytes;
  PrivateKey = Bytes;
  Key = Bool;
  KeyRing = Bool;
  parse_raw_private_key = parse_key;
  new_rsa_public_key = λ t k. k;
  new_rsa_private_key = λ t k. k;
  new_eddsa_public_key = λ t k. k;
  new_eddsa_private_key = λ t k. k;
  key_id = λ k. 7;
  sign_user_id = λ sig id public private. ok (record sig { signed = some id });
  armor_encode = λ block. ok tt;
  armored = λ block body. 45 ∷ body;
  serialize = λ e. ok e.primary_key;
  serialize_private = λ e. ok e.private_key;
  new_key_from_armored = parse_armor;
  is_private = λ k. k;
  to_public = λ k. ok false;
  new_key_ring = λ k. ok k;
  encrypt = λ ring m. ok (1 ∷ m);
  decrypt = λ ring c. untag c;
}

pub tagging-IsPublicKeyCrypto : IsPublicKeyCrypto tagging
tagging-IsPublicKeyCrypto = record {
  decrypt-encrypt =
      λ private public sealing opening m c p t s o e. let same : 1 ∷ m ≡ c = cc in rw (← same) refl;
}

-- Only root is known, as 0.
abbrev pub users : Users
users = record {
  lookup = λ name. if same name (codes "root") then ok (codes "0") else err (new "no user" []);
  lookup_group = λ name. err (new "no group" []);
}

abbrev pub file_path : Str
file_path = codes "/s/d/f.gpg"

abbrev pub key_path : Str
key_path = codes "/k"

abbrev found : Str → Result Bytes
found path =
    if same path file_path
    then ok (1 ∷ 104 ∷ 105 ∷ [])
    else if same path key_path
    then ok (9 ∷ [])
    else err (new "no file" [])

abbrev is_there : Str → Stat
is_there path =
    if same path (codes "/s") || same path (codes "/t")
    then exists
    else not_exist (new "no file" [])

abbrev pub disk : Disk
disk = record { read_file = found; stat = is_there; unmarshal = λ text attr. ok attr }

-- The tree under `/s`.
abbrev pub source_tree : Entry
source_tree = dir none (entry (codes "d") (dir none (entry (codes "f.gpg") file end)) end)

abbrev pub world : World
world = record {
  enclaves = memory;
  pgp = tagging;
  users = users;
  disk = disk;
  inodes = trees (Node memory);
}

abbrev pub key : LockedBuffer
key = locked (7 ∷ [])
