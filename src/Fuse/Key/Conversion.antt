-- ===== src/Fuse/Key/Conversion.antt =====
-- Which keys `NewKeyFromSSH` and `NewKey` make.
use gpgfs.Base.{
  ◌≡◌, refl, ◌⊎◌, inl, inr, Option, [], ok, wrapping, >>=-eq-ok, >>-eq-ok, wrapping-eq-ok, arith,
  Bool-cases,
}
use gpgfs.Std.Strings.{Str, same}
use gpgfs.Std.Strings.Laws.{same_iff}
use gpgfs.Fuse.Enclave.{Bytes, Enclaves}
use gpgfs.Fuse.Key.OpenPgp.{UserId, SshKey, Algorithm, Signature, Pgp}
use gpgfs.Fuse.Key.{
  key_format_ssh, key_type_private, key_type_public, private_block, public_block, armor_block_type,
  Entity, key_pair, self_signature, entity, serialize_key, new_key_from_ssh, key_format_ctor,
  new_key,
}

module _ (P : Pgp) (uid : UserId) (raw : Bytes) where
  -- The signed entity that `uid` and the raw key stand for.
  pub record IsEntityOf (e : Entity P) : Type 0 where
    pub key : SshKey P.Rsa P.Ed25519
    pub algorithm : Algorithm
    pub primary : P.PublicKey
    pub private : P.PrivateKey
    pub signature : Signature
    pub parsed : P.parse_raw_private_key raw ≡ ok key
    pub paired : key_pair P key ≡ ok (algorithm, primary, private)
    pub signed :
        P.sign_user_id (self_signature P algorithm primary) uid.id primary private ≡ ok signature
    pub built : e ≡ entity P uid primary private signature

  -- The key in its armor: the block of the private key around the private serialization, or that
  -- of the public key around the public one.
  abbrev pub IsArmoredKey : Str → Entity P → Bytes → Type 0
  IsArmoredKey key_type e out =
      ((body : Bytes) × (key_type ≡ key_type_private)
        × (P.serialize_private e ≡ ok body)
        × (out ≡ P.armored private_block body))
      ⊎ ((body : Bytes) × (key_type ≡ key_type_public)
          × (P.serialize e ≡ ok body)
          × (out ≡ P.armored public_block body))

  armored-IsArmoredKey :
      (key_type block body out : Bytes) (e : Entity P)
      → armor_block_type key_type ≡ ok block
      → serialize_key P key_type e ≡ ok body
      → ok (P.armored block body) ≡ ok out
      → IsArmoredKey key_type e out
  unfolding armor_block_type serialize_key
  armored-IsArmoredKey key_type block body out e b s o =
      elim (Bool-cases (same key_type key_type_private)) [
        | inl h ↦ inl (body, (same_iff _ _).0 h, ground arith, ground arith)
        | inr h ↦ elim (Bool-cases (same key_type key_type_public)) [
          | inl k ↦ inr (body, (same_iff _ _).0 k, ground arith, ground arith)
          | inr k ↦ ground arith
        ]
      ]

  -- A key that is returned is the armor of the signed entity of the parsed key: an RSA or Ed25519
  -- key, serialized as the type asks for, which is `private` or `public`.
  pub new_key_from_ssh-eq-ok :
      (key_type out : Bytes)
      → new_key_from_ssh P uid key_type raw ≡ ok out
      → (e : Entity P) × IsEntityOf e × IsArmoredKey key_type e out
  unfolding new_key_from_ssh
  new_key_from_ssh-eq-ok key_type out h =
      let (block, b, h1) = >>=-eq-ok (armor_block_type key_type) _ h in
      let (key, k, h2) = >>=-eq-ok _ _ h1 in
      let ((algo, primary, private), p, h3) = >>=-eq-ok (key_pair P key) _ h2 in
      let (sig, s, h4) = >>=-eq-ok _ _ h3 in
      let (_, h5) =
        >>-eq-ok (wrapping "failed to encode armor writer" [] (P.armor_encode block)) _ h4 in
      let (body, w, o) = >>=-eq-ok _ _ h5 in
      let e = entity P uid primary private sig in
      (
        e,
        record {
          key = key;
          algorithm = algo;
          primary = primary;
          private = private;
          signature = sig;
          parsed = wrapping-eq-ok _ _ _ key k;
          paired = p;
          signed = s;
          built = refl;
        },
        armored-IsArmoredKey key_type block body out e b (wrapping-eq-ok _ _ _ body w) o,
      )

-- A key that `NewKey` returns is in the only known format, `ssh`, and is sealed from the armor of
-- the signed entity that the SSH key stands for: the private serialization in a private block if
-- the type asked for is `private`, the public one in a public block if it is `public`, and there
-- is no other type.
pub new_key-eq-ok :
    (P : Pgp) (G : Enclaves) (format : Str) (uid : UserId) (key_type raw : Bytes)
    (e : Option G.Enclave)
    → new_key P G format uid key_type raw ≡ ok e
    → (format ≡ key_format_ssh)
      × (x : Entity P) × IsEntityOf P uid raw x
      × (out : Bytes) × IsArmoredKey P uid raw key_type x out
      × (e ≡ G.new_enclave out)
unfolding new_key key_format_ctor
new_key-eq-ok P G format uid key_type raw e h = elim (Bool-cases (same format key_format_ssh)) [
  | inl s ↦
      let (out, made, h') = >>=-eq-ok _ _ (rw (s, new_key) at h) in
      let (x, is_x, armored) =
        new_key_from_ssh-eq-ok P uid raw key_type out (wrapping-eq-ok _ _ _ out made) in
      ((same_iff _ _).0 s, x, is_x, out, armored, cc)
  | inr s ↦ ground arith
]
