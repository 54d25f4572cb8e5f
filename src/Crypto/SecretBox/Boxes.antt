-- ===== src/Crypto/SecretBox/Boxes.antt =====
-- What a sealed box opens to.
use gpgfs.Base.{
  ℕ, ◌<◌, [], String, ◌↔◌, ok, wrapping-eq-ok, ◌+◌, ◌≡◌, refl, false, ◌++◌, ltb, length, take, drop,
  length-append, take_all, arith, ◌∙◌, take-append, drop-append, subst, ap,
}
use gpgfs.Crypto.SecretBox.{
  Rand, IsFull, refused, ill_formed, read_entropy, nonce_gen, Bytes, nonce_size, overhead, Nacl,
  IsSecretBox, opened, seal, open_split, open_sealed,
}

module _ (N : Nacl) (S : IsSecretBox N) where
  -- A sealed box is longer than its message by the nonce and the overhead.
  pub length-seal :
      (key nonce message : Bytes)
      → length nonce ≡ nonce_size
      → length (seal N key nonce message) ≡ length message + nonce_size + overhead
  unfolding seal
  length-seal key nonce message h =
      rw (S.seal_appends _ message nonce key, take_all nonce_size nonce (omega arith))
        (omega
          (arith, length-append nonce (S.box message nonce key), S.length-box message nonce key))

  seal_lem :
      (key nonce message : Bytes)
      → length nonce ≡ nonce_size
      → seal N key nonce message ≡ nonce ++ S.box message nonce key
  unfolding seal
  seal_lem key nonce message h =
      S.seal_appends _ message nonce key
      ∙ ap (λ n. n ++ S.box message nonce key) (take_all nonce_size nonce (omega arith))

  open_split-seal :
      (key nonce message : Bytes)
      → length nonce ≡ nonce_size
      → open_split N key (seal N key nonce message) ≡ opened message
  unfolding open_split
  open_split-seal key nonce message h =
      let box = S.box message nonce key in
      let front : take nonce_size (nonce ++ box) ≡ nonce =
        subst (λ n. take n (nonce ++ box) ≡ nonce) h (take-append nonce box) in
      let back : drop nonce_size (nonce ++ box) ≡ box =
        subst (λ n. drop n (nonce ++ box) ≡ box) h (drop-append nonce box) in
      rw (seal_lem key nonce message h, open_split, front, back, S.open-box message nonce key) refl

  -- What was sealed under a nonce of the right size opens to the message with the same key, if
  -- nacl behaves as documented.
  pub open_sealed-seal :
      (key nonce message : Bytes)
      → length nonce ≡ nonce_size
      → open_sealed N key (seal N key nonce message) ≡ opened message
  unfolding open_sealed
  open_sealed-seal key nonce message h =
      let long : ltb (length (seal N key nonce message)) (nonce_size + overhead) ≡ false =
        ground (arith, length-seal key nonce message h) in
      rw (long, open_sealed) (open_split-seal key nonce message h)

-- A box is refused as ill-formed exactly if it is shorter than a nonce and the overhead, and the
-- error names that size and the box's.
pub open_sealed-ill_formed :
    (N : Nacl) (key box : Bytes) (want got : ℕ)
    → (open_sealed N key box ≡ refused (ill_formed want got))
      ↔ ((length box < nonce_size + overhead) × (want ≡ nonce_size + overhead) × (got ≡ length box))
unfolding open_sealed open_split
open_sealed-ill_formed N key box want got = ground arith

module _ (R : Rand) (F : IsFull R) where
  read_entropy-length :
      (message : String) (n : ℕ) (s : R.Source) (b : Bytes)
      → (read_entropy R message n s).0 ≡ ok b
      → length b ≡ n
  unfolding read_entropy
  read_entropy-length message n s b h =
      F.length-read_full s n b (wrapping-eq-ok (R.read_full s n).0 message [] b h)

  -- A nonce that is returned has the size of a nonce.
  pub nonce_gen-length :
      (s : R.Source) (nonce : Bytes) → (nonce_gen R s).0 ≡ ok nonce → length nonce ≡ nonce_size
  unfolding nonce_gen
  nonce_gen-length s nonce h = read_entropy-length _ nonce_size s nonce h
