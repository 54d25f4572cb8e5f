-- ===== src/Fuse/Key/OpenPgp.antt =====
-- The packages ssh, openpgp, packet, armor and gopenpgp as pkg/fuse uses them. Their code is
-- vendored and stands here as an interface.
use gpgfs.Base.{ℕ, ◌≡◌, Bool, true, Option, List, Result, ok}
use gpgfs.Std.Strings.{Str}
use gpgfs.Fuse.Enclave.{Bytes}

-- `packet.UserId`
pub record UserId : Type 0 where
  pub id : Str

-- What `ssh.ParseRawPrivateKey` returns, by its dynamic type.
pub data SshKey (R E : Type 0) : Type 0 where
  rsa : R → SshKey R E
  ed25519 : E → SshKey R E
  unsupported : Str → SshKey R E

pub data Algorithm : Type 0 where
  algo_rsa algo_eddsa : Algorithm

pub data SignatureType : Type 0 where
  positive_cert : SignatureType

pub data Hash : Type 0 where
  sha256 : Hash

-- The fields of `packet.Signature` that are set; `signed` is the signature's value.
pub record Signature : Type 0 where
  pub creation_time : ℕ
  pub sig_type : SignatureType
  pub pub_key_algo : Algorithm
  pub hash : Hash
  pub is_primary_id : Option Bool
  pub flags_valid : Bool
  pub flag_sign : Bool
  pub flag_certify : Bool
  pub flag_encrypt_storage : Bool
  pub flag_encrypt_communications : Bool
  pub issuer_key_id : ℕ
  pub signed : Option Bytes

pub record Identity : Type 0 where
  pub name : Str
  pub user_id : UserId
  pub self_signature : Signature
  pub signatures : List Signature

-- `openpgp.Entity`
pub record Entity (Public Private : Type 0) : Type 0 where
  pub primary_key : Public
  pub private_key : Private
  pub identities : List (Str × Identity)

pub record Pgp : Type 1 where
  pub Rsa : Type 0
  pub Ed25519 : Type 0
  pub PublicKey : Type 0
  pub PrivateKey : Type 0
  pub Key : Type 0
  pub KeyRing : Type 0
  pub parse_raw_private_key : Bytes → Result (SshKey Rsa Ed25519)
  pub new_rsa_public_key : ℕ → Rsa → PublicKey
  pub new_rsa_private_key : ℕ → Rsa → PrivateKey
  pub new_eddsa_public_key : ℕ → Ed25519 → PublicKey
  pub new_eddsa_private_key : ℕ → Ed25519 → PrivateKey
  pub key_id : PublicKey → ℕ
  -- `(*Signature).SignUserId`: the signature with its value set.
  pub sign_user_id : Signature → Str → PublicKey → PrivateKey → Result Signature
  -- `armor.Encode` may fail; `armored` is what stands in the buffer after `Close`.
  pub armor_encode : Str → Result (Unit {0})
  pub armored : Str → Bytes → Bytes
  pub serialize : Entity PublicKey PrivateKey → Result Bytes
  pub serialize_private : Entity PublicKey PrivateKey → Result Bytes
  pub new_key_from_armored : Bytes → Result Key
  pub is_private : Key → Bool
  pub to_public : Key → Result Key
  pub new_key_ring : Key → Result KeyRing
  pub encrypt : KeyRing → Bytes → Result Bytes
  pub decrypt : KeyRing → Bytes → Result Bytes

-- A message that is encrypted to the public part of a private key is decrypted by that key.
pub record IsPublicKeyCrypto (P : Pgp) : Type 0 where
  pub decrypt-encrypt :
      (private public : P.Key) (sealing opening : P.KeyRing) (m c : Bytes)
      → P.is_private private ≡ true
      → P.to_public private ≡ ok public
      → P.new_key_ring public ≡ ok sealing
      → P.new_key_ring private ≡ ok opening
      → P.encrypt sealing m ≡ ok c
      → P.decrypt opening c ≡ ok m
