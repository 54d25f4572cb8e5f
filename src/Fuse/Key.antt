-- ===== src/Fuse/Key.antt =====
-- pkg/fuse/key.go: making an OpenPGP key from an SSH key, and the two directions of a message.
pub mod OpenPgp
pub mod Conversion
pub mod Messages
pub mod DefaultUid
use gpgfs.Base.{
  ℕ, ◌≡◌, refl, Bool, true, false, Option, none, some, List, [], ◌∷◌, Result, ok, err, Error, new,
  ◌>>=◌, ◌>>◌, wrapping, if◌then◌else◌,
}
use gpgfs.Std.Strings.{Str, codes, same}
use gpgfs.Fuse.Enclave.{Bytes, LockedBuffer, Enclaves}
use OpenPgp
use OpenPgp.{
  UserId, SshKey, rsa, ed25519, unsupported, Algorithm, algo_rsa, algo_eddsa, positive_cert, sha256,
  Signature, Identity, Pgp,
}

abbrev pub key_format_ssh : Str
key_format_ssh = codes "ssh"

abbrev pub key_type_private : Str
key_type_private = codes "private"

abbrev pub key_type_public : Str
key_type_public = codes "public"

-- openpgp.PrivateKeyType and openpgp.PublicKeyType
abbrev pub private_block : Str
private_block = codes "PGP PRIVATE KEY BLOCK"

abbrev pub public_block : Str
public_block = codes "PGP PUBLIC KEY BLOCK"

-- The armor block of the key that is asked for.
unfoldable pub armor_block_type : Str → Result Str
unfolding same
armor_block_type key_type =
    if same key_type key_type_private
    then ok private_block
    else if same key_type key_type_public
    then ok public_block
    else err (new "failed to create key type from %q" (key_type ∷ []))

-- time.Unix(0, 0)
abbrev pub time_null : ℕ
time_null = 0

module _ (P : Pgp) where
  abbrev pub Entity : Type 0
  Entity = OpenPgp.Entity P.PublicKey P.PrivateKey

  -- The switch on the type of the parsed key.
  unfoldable pub key_pair : SshKey P.Rsa P.Ed25519 → Result (Algorithm × P.PublicKey × P.PrivateKey)
  key_pair (rsa k) =
      ok (algo_rsa, P.new_rsa_public_key time_null k, P.new_rsa_private_key time_null k)
  key_pair (ed25519 k) =
      ok (algo_eddsa, P.new_eddsa_public_key time_null k, P.new_eddsa_private_key time_null k)
  key_pair (unsupported name) = err (new "unsupported private key %T" (name ∷ []))

  unfoldable pub self_signature : Algorithm → P.PublicKey → Signature
  self_signature algo primary = record {
    creation_time = time_null;
    sig_type = positive_cert;
    pub_key_algo = algo;
    hash = sha256;
    is_primary_id = some true;
    flags_valid = true;
    flag_sign = true;
    flag_certify = true;
    flag_encrypt_storage = true;
    flag_encrypt_communications = true;
    issuer_key_id = P.key_id primary;
    signed = none;
  }

  -- The entity with its one identity, whose self signature is `sig`.
  unfoldable pub entity : UserId → P.PublicKey → P.PrivateKey → Signature → Entity
  entity uid primary private sig = record {
    primary_key = primary;
    private_key = private;
    identities =
        (
          uid.id,
          record { name = uid.id; user_id = uid; self_signature = sig; signatures = sig ∷ [] },
        )
        ∷ [];
  }

  unfoldable pub serialize_key : Str → Entity → Result Bytes
  unfolding same
  serialize_key key_type e =
      if same key_type key_type_private then P.serialize_private e else P.serialize e

  -- `NewKeyFromSSH`; `keyType` is the type of the key to return.
  unfoldable pub new_key_from_ssh : UserId → Str → Bytes → Result Bytes
  unfolding armor_block_type key_pair self_signature entity serialize_key
  new_key_from_ssh uid key_type raw = do
    block ← armor_block_type key_type
    key ← wrapping "failed to parse private ssh key" [] (P.parse_raw_private_key raw)
    (algo, primary, private) ← key_pair key
    sig ← P.sign_user_id (self_signature algo primary) uid.id primary private
    wrapping "failed to encode armor writer" [] (P.armor_encode block)
    body ←
        wrapping "failed to serialize key %q" (key_type ∷ [])
          (serialize_key key_type (entity uid primary private sig))
    ok (P.armored block body)

  -- `KeyFormatCtor`, the map of constructors.
  unfoldable pub key_format_ctor : Str → Option (UserId → Str → Bytes → Result Bytes)
  unfolding same new_key_from_ssh
  key_format_ctor format = if same format key_format_ssh then some new_key_from_ssh else none

  -- `NewKey`; the enclave is nil for an empty key.
  unfoldable pub new_key : (G : Enclaves) → Str → UserId → Str → Bytes → Result (Option G.Enclave)
  unfolding key_format_ctor
  new_key G format uid key_type raw = elim (key_format_ctor format) [
    | none ↦ err (new "unsupported key format %q for %q key type" (format ∷ key_type ∷ []))
    | some key_ctor ↦ do
      buf ←
          wrapping "failed to construct key from format %q for %q key type" (format ∷ key_type ∷ [])
            (key_ctor uid key_type raw)
      ok (G.new_enclave buf)
  ]

  -- The public part of a key, which may be public already.
  unfoldable pub public_part : P.Key → Result P.Key
  public_part k =
      if P.is_private k
      then wrapping "failed to extract public key from private key" [] (P.to_public k)
      else ok k

  -- `Encrypt`
  unfoldable pub encrypt : LockedBuffer → Bytes → Result Bytes
  unfolding public_part
  encrypt key message = do
    k ← wrapping "failed to parse public key" [] (P.new_key_from_armored key.bytes)
    public ← public_part k
    ring ← wrapping "failed to create new keyring" [] (P.new_key_ring public)
    wrapping "failed to encrypt message" [] (P.encrypt ring message)

  -- `Decrypt`
  unfoldable pub decrypt : LockedBuffer → Bytes → Result Bytes
  decrypt key enc = do
    private ← wrapping "failed to parse the private key" [] (P.new_key_from_armored key.bytes)
    ring ← wrapping "failed to create the private key ring" [] (P.new_key_ring private)
    wrapping "failed to decrypt message" [] (P.decrypt ring enc)
