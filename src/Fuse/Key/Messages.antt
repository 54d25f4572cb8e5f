-- ===== src/Fuse/Key/Messages.antt =====
-- `Encrypt` and `Decrypt` with one private key.
use gpgfs.Base.{◌≡◌, refl, true, [], ok, wrapping, >>=-eq-ok, wrapping-eq-ok}
use gpgfs.Fuse.Enclave.{Bytes, LockedBuffer}
use gpgfs.Fuse.Key.OpenPgp.{Pgp, IsPublicKeyCrypto}
use gpgfs.Fuse.Key.{public_part, encrypt, decrypt}

module _ (P : Pgp) (key : LockedBuffer) (k : P.Key) (opening : P.KeyRing) where
  -- The buffer holds the armor of a private key, which makes a key ring.
  pub record IsPrivateKeyBuffer : Type 0 where
    pub parsed : P.new_key_from_armored key.bytes ≡ ok k
    pub private : P.is_private k ≡ true
    pub ring : P.new_key_ring k ≡ ok opening

  public_part-private :
      (p : P.Key) → P.is_private k ≡ true → public_part P k ≡ ok p → P.to_public k ≡ ok p
  unfolding public_part
  public_part-private p h e = wrapping-eq-ok _ _ _ p (rw (h, public_part) at e)

  -- With a buffer that holds the armor of a private key, from which a key ring can be made, what
  -- `Encrypt` returns for a message, `Decrypt` takes back to it. OpenPGP decrypts with the private
  -- key what is encrypted to its public part.
  pub decrypt-encrypt :
      IsPublicKeyCrypto P
      → IsPrivateKeyBuffer
      → (message c : Bytes) → encrypt P key message ≡ ok c
      → decrypt P key c ≡ ok message
  unfolding encrypt decrypt
  decrypt-encrypt C b message c h =
      let (public, p, h2) = >>=-eq-ok (public_part P k) _ (rw (b.parsed, encrypt) at h) in
      let (sealing, s, h3) =
        >>=-eq-ok (wrapping "failed to create new keyring" [] (P.new_key_ring public)) _ h2 in
      rw
        (
          b.parsed,
          decrypt,
          b.ring,
          C.decrypt-encrypt k public sealing opening message c b.private
              (public_part-private public b.private p) (wrapping-eq-ok _ _ _ sealing s) b.ring
              (wrapping-eq-ok _ _ _ c h3),
        )
        refl
