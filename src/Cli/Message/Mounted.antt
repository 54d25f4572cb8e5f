-- ===== src/Cli/Message/Mounted.antt =====
-- Encrypting a file by the action, into the source directory of a mount.
use gpgfs.Base.{
  ℕ, ◌+◌, ◌^◌, ◌<◌, ◌≡◌, ◌≢◌, none, some, List, [], ◌∷◌, ◌++◌, ok, ◌>>=◌, All, ap, ◌∙◌, arith,
}
use gpgfs.Std.Strings.{Str}
use gpgfs.Std.FilePath.Clean.{IsPlain, rooted}
use gpgfs.Std.WalkDir.{Entry, present}
use gpgfs.Std.WalkDir.Visits.{HasFile}
use gpgfs.Fuse.Enclave.{Bytes, LockedBuffer, IsSealing, open_pointer}
use gpgfs.Fuse.Inodes.{IsInodeTree}
use gpgfs.Fuse.Key.OpenPgp.{UserId, IsPublicKeyCrypto}
use gpgfs.Fuse.Key.{encrypt, decrypt}
use gpgfs.Fuse.Key.Messages.{IsPrivateKeyBuffer, decrypt-encrypt}
use gpgfs.Fuse.Preload.{World, Fuse, Inode, State, preload}
use gpgfs.Fuse.Preload.Paths.{encrypted_path}
use gpgfs.Fuse.Preload.Complete.{Decrypts}
use gpgfs.Fuse.Preload.Served.{Serves, IsBare, IsAlone, preload-Serves}
use gpgfs.Cli.Host.{Host, System, stream, put, put_self, read_file, read_file_lem}
use gpgfs.Cli.Message.{message_encrypt}
use gpgfs.Cli.Message.RoundTrip.{IsKeyFile, message_encrypt_lem}

encrypted_path-named :
    (source dirs : List Str) (base : Str) → encrypted_path source dirs base ≢ stream
encrypted_path-named source dirs base e = ground arith

-- A file that `MessageEncryptAction` has encrypted, under the name `base.gpg` in a directory of
-- plain names below a rooted source, is served as it was: the action returns, and if `Preload`, with
-- the same key and from a root with no child, then ends with no error and has met the file, there is
-- an inode at the same names below the mount point, and a read of it returns the part of the
-- original text, or panics: if the text is empty, or the read starts behind its end. The three files
-- of the action are apart and the output can be made; the message can be encrypted; the disk is
-- what the action has left, at that path; no other file of the tree is mounted at these names or
-- below them; the offset and the length add up to less than 2^63. OpenPGP decrypts with the private
-- key what is encrypted to its public part; the inode tree and memguard behave as documented.
pub message_encrypt-Serves :
    (W : World) (L : IsInodeTree W.inodes) (Y : System) (uid : UserId) (h : Host) (key input : Str)
    (source dirs : List Str) (base : Str) (text c : Bytes) (buf : LockedBuffer) (x : W.pgp.Key)
    (opening : W.pgp.KeyRing) (f : Fuse W.enclaves) (root : Inode W) (tree : Entry) (s : State W)
    (off len : ℕ)
    → IsPublicKeyCrypto W.pgp
    → IsSealing W.enclaves
    → IsPrivateKeyBuffer W.pgp buf x opening
    → IsKeyFile W.pgp W.enclaves uid h key buf
    → All IsPlain source
    → All IsPlain dirs
    → IsPlain base
    → input ≢ stream
    → input ≢ encrypted_path source dirs base
    → key ≢ encrypted_path source dirs base
    → Y.creatable (encrypted_path source dirs base) ≡ none
    → h.files input ≡ some text
    → encrypt W.pgp buf text ≡ ok c
    → f.source ≡ rooted source
    → open_pointer W.enclaves f.key ≡ ok buf
    → IsBare W s.forest root
    → HasFile (encrypted_path source dirs base) (rooted source) tree
    → IsAlone source (encrypted_path source dirs base) tree (dirs ++ base ∷ [])
    → let path = encrypted_path source dirs base in
      let (left, ended) = message_encrypt W.pgp W.enclaves Y uid h key input path in
      let (after, stop) = preload W f root (present tree) s in
      W.disk.read_file path ≡ read_file Y left path
      → stop ≡ none
      → off + len < 2 ^ 63
      → (ended ≡ ok tt) × Serves W after.forest root (dirs ++ base ∷ []) text off len
message_encrypt-Serves W L Y uid h key input source dirs base text c buf x opening f root tree s off
      len C S b k hs hd hb named apart apart' makes there e at opened bare met alone same quiet
      small =
    let path = encrypted_path source dirs base in
    let run =
      message_encrypt_lem W.pgp W.enclaves Y uid h key input path text c buf k named
        (encrypted_path-named source dirs base) apart apart' there makes e in
    let left = put path c (put path [] h) in
    let stands : W.disk.read_file path ≡ ok c =
      same
      ∙ ap (λ r. read_file Y r.0 path) run
      ∙ read_file_lem Y left path c (put_self path c (put path [] h)) in
    let d : Decrypts W buf path text =
      ap (λ r. r >>= λ enc. decrypt W.pgp buf enc) stands
      ∙ decrypt-encrypt W.pgp buf x opening C b text c e in
    (
      ap (λ r. r.1) run,
      preload-Serves W L f root tree s buf source dirs base text off len S hs hd hb at opened bare
          met alone d quiet small,
    )
