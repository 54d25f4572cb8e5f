-- ===== src/Crypto/Container/Codec/Pipeline.antt =====
-- A container that is packed is unpacked to what it was.
use gpgfs.Base.{◌≡◌, refl, [], ok, ◌>>=◌, wrapping, >>=-eq-ok, wrapping-eq-ok}
use gpgfs.Std.Base64.RoundTrip.{IsBytes, decode-encode}
use gpgfs.Crypto.SecretBox.{Rand, IsFull, Nacl, IsSecretBox, nonce_gen, seal}
use gpgfs.Crypto.SecretBox.Boxes.{open_sealed-seal, nonce_gen-length}
use gpgfs.Crypto.Container.{Bytes}
use gpgfs.Crypto.Container.Codec.{
  Formats, IsLossless, Box, encrypt, decrypt, encode, decode, compress, decompress,
}

-- What `Encode` makes of bytes, `Decode` takes back to them.
pub decode-encode_lem : (c : Bytes) → IsBytes c → decode (encode c) ≡ ok c
unfolding decode encode
decode-encode_lem c h = rw (decode-encode c h) refl

module _ (R : Rand) (N : Nacl) (full : IsFull R) (S : IsSecretBox N) (box : Box R)
    (s : R.Source) where
  encrypt-eq-ok :
      (buf c : Bytes)
      → (encrypt R N box s buf).0 ≡ ok c
      → (nonce : Bytes) × ((nonce_gen R s).0 ≡ ok nonce) × (c ≡ seal N box.key nonce buf)
  unfolding encrypt
  encrypt-eq-ok buf c h =
      let (nonce, made, e) =
        >>=-eq-ok (wrapping "failed to encrypt container" [] (nonce_gen R s).0) _ h in
      (nonce, wrapping-eq-ok (nonce_gen R s).0 _ _ nonce made, cc)

  -- What `Encrypt` returns, `Decrypt` takes back to the bytes.
  pub decrypt-encrypt_box :
      (buf c : Bytes) → (encrypt R N box s buf).0 ≡ ok c → decrypt R N box c ≡ ok buf
  unfolding decrypt
  decrypt-encrypt_box buf c h =
      let (nonce, made, same) = encrypt-eq-ok buf c h in
      let sized = nonce_gen-length R full s nonce made in
      rw (same, open_sealed-seal N S box.key nonce buf sized) refl

  -- If compressed bytes could be encrypted, what is encoded from the result comes back to the
  -- bytes by decoding, decrypting and decompressing with the same key. The entropy source, nacl
  -- and zstd behave as documented, and the encrypted text is one of bytes.
  pub decompress-decrypt-decode :
      (F : Formats)
      → IsLossless F
      → (buf c : Bytes) → (encrypt R N box s (compress F buf)).0 ≡ ok c
      → IsBytes c
      → (do enc ← decode (encode c); zipped ← decrypt R N box enc; decompress F zipped) ≡ ok buf
  unfolding decompress compress
  decompress-decrypt-decode F L buf c h bytes =
      rw (decode-encode_lem c bytes, decrypt-encrypt_box (compress F buf) c h, decompress)
        (L.decode_all-encode_all buf)
