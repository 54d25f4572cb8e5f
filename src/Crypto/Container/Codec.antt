-- ===== src/Crypto/Container/Codec.antt =====
-- pkg/crypto/container: Marshal, Encrypt, Compress and Encode, with their inverses.
pub mod Pipeline
use gpgfs.Base.{ℕ, ◌≡◌, List, [], ◌∷◌, Option, Result, ok, err, Error, new, wrap, ◌>>=◌, wrapping}
use gpgfs.Std.Base64
use gpgfs.Crypto.SecretBox.{
  Rand, Nacl, BoxError, ill_formed, undecryptable, Opened, opened, refused, nonce_gen, seal,
  open_sealed,
}
use gpgfs.Crypto.Container.{Bytes, Container}

-- The packages zstd and msgpack.
pub record Formats : Type 0 where
  pub encode_all : Bytes → Bytes
  pub decode_all : Bytes → Result Bytes
  pub marshal : Container → Result Bytes
  pub unmarshal : Bytes → Container → Result Container

-- "DecodeAll" takes back what "EncodeAll" made.
pub record IsLossless (F : Formats) : Type 0 where
  pub decode_all-encode_all : (buf : Bytes) → F.decode_all (F.encode_all buf) ≡ ok buf

-- The box of pkg/crypto with its key.
pub record Box (R : Rand) : Type 0 where
  pub key : Bytes

-- The text of the box's errors.
unfoldable pub box_error : BoxError → Error
box_error (ill_formed want got) =
    new "illformed encrypted message, expected message size to be at least %d, got: %d"
      ((want ∷ []) ∷ (got ∷ []) ∷ [])
box_error undecryptable = new "failed to decrypt message" []

module _ (R : Rand) (N : Nacl) where
  -- `Encrypt`
  unfoldable pub encrypt : Box R → R.Source → Bytes → Result Bytes × R.Source
  unfolding nonce_gen seal
  encrypt box s buf =
      let (r, s') = nonce_gen R s in
      (wrapping "failed to encrypt container" [] r >>= λ nonce. ok (seal N box.key nonce buf), s')

  opening : Opened → Result Bytes
  unfolding box_error
  opening (opened buf) = ok buf
  opening (refused e) = err (wrap "failed to decrypt container" [] (box_error e))

  -- `Decrypt`
  unfoldable pub decrypt : Box R → Bytes → Result Bytes
  unfolding open_sealed opening
  decrypt box enc = opening (open_sealed N box.key enc)

-- `Encode`
unfoldable pub encode : Bytes → Bytes
unfolding Base64.encode
encode = Base64.encode

-- `Decode`
unfoldable pub decode : Bytes → Result Bytes
unfolding Base64.decode
decode buf = wrapping "failed to decode encrypted container" [] (Base64.decode buf)

module _ (F : Formats) where
  unfoldable pub marshal : Container → Result Bytes
  marshal v = wrapping "failed to marshal container" [] (F.marshal v)

  unfoldable pub unmarshal : Bytes → Container → Result Container
  unmarshal buf v = wrapping "failed to unmarshal container" [] (F.unmarshal buf v)

  unfoldable pub compress : Bytes → Bytes
  compress buf = F.encode_all buf

  unfoldable pub decompress : Bytes → Result Bytes
  decompress buf = F.decode_all buf
