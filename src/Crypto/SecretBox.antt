-- ===== src/Crypto/SecretBox.antt =====
-- pkg/crypto/secretbox.go: keys and nonces from an entropy source, sealed boxes.
pub mod Boxes
use gpgfs.Base.{
  ℕ, String, ◌+◌, ◌≡◌, Bool, true, false, List, [], ◌∷◌, ◌++◌, Option, none, some, Result, ok, err,
  Error, new, ◌>>=◌, wrapping, ltb, length, take, drop, if◌then◌else◌,
}

abbrev pub Bytes : Type 0
Bytes = List ℕ

abbrev pub key_size : ℕ
key_size = 32

abbrev pub nonce_size : ℕ
nonce_size = 24

-- `secretbox.Overhead`
abbrev pub overhead : ℕ
overhead = 16

-- An entropy source: `io.ReadFull` of so many bytes from it, and the source afterwards.
pub record Rand : Type 1 where
  pub Source : Type 0
  pub read_full : Source → ℕ → Result Bytes × Source

-- "On return, n == len(buf) if and only if err == nil."
pub record IsFull (R : Rand) : Type 0 where
  pub length-read_full :
      (s : R.Source) (n : ℕ) (b : Bytes) → (R.read_full s n).0 ≡ ok b → length b ≡ n

-- The packages secretbox and argon2. `seal out message nonce key` appends to `out`; `key` is
-- `argon2.Key(password, salt, time, memory, threads, keyLen)`.
pub record Nacl : Type 0 where
  pub seal : Bytes → Bytes → Bytes → Bytes → Bytes
  pub open_box : Bytes → Bytes → Bytes → Option Bytes
  pub argon2_key : Bytes → Bytes → ℕ → ℕ → ℕ → ℕ → Bytes

-- "Seal appends an encrypted and authenticated copy of message to out"; the copy is longer by the
-- overhead, and opens under the same nonce and key.
pub record IsSecretBox (N : Nacl) : Type 0 where
  pub box : Bytes → Bytes → Bytes → Bytes
  pub seal_appends :
      (out message nonce key : Bytes) → N.seal out message nonce key ≡ out ++ box message nonce key
  pub length-box :
      (message nonce key : Bytes) → length (box message nonce key) ≡ length message + overhead
  pub open-box :
      (message nonce key : Bytes) → N.open_box (box message nonce key) nonce key ≡ some message

module _ (R : Rand) where
  -- `io.ReadFull` into a buffer of so many bytes, with the message of the error.
  read_entropy : String → ℕ → R.Source → Result Bytes × R.Source
  read_entropy message n s = let (r, s') = R.read_full s n in (wrapping message [] r, s')

  -- `SecretBoxKeyGen`
  unfoldable pub key_gen : R.Source → Result Bytes × R.Source
  unfolding read_entropy
  key_gen s = read_entropy "failed to read key bytes from entropy source" key_size s

  -- `SecretBoxNonceGen`
  unfoldable pub nonce_gen : R.Source → Result Bytes × R.Source
  unfolding read_entropy
  nonce_gen s = read_entropy "failed to read nonce bytes from entropy source" nonce_size s

  -- `SecretBoxKeyDerive`: 8 passes over 128 KiB on 2 threads. The copy fills an array of the key's
  -- size.
  unfoldable pub key_derive : Nacl → R.Source → Bytes → Result Bytes × R.Source
  unfolding read_entropy
  key_derive N s key =
      let (r, s') = read_entropy "failed to read salt bytes from entropy source" key_size s in
      (r >>= λ salt. ok (take key_size (N.argon2_key key salt 8 128 2 key_size)), s')

-- The errors of the box, whose types callers tell apart.
pub data BoxError : Type 0 where
  ill_formed : ℕ → ℕ → BoxError
  undecryptable : BoxError

pub data Opened : Type 0 where
  opened : Bytes → Opened
  refused : BoxError → Opened

module _ (N : Nacl) where
  -- `SecretBoxSeal`: the nonce in front of the box. The nonce is an array of 24 bytes.
  unfoldable pub seal : Bytes → Bytes → Bytes → Bytes
  seal key nonce message = N.seal (take nonce_size nonce) message nonce key

  open_split : Bytes → Bytes → Opened
  open_split key box = elim (N.open_box (drop nonce_size box) (take nonce_size box) key) [
    | none ↦ refused undecryptable
    | some message ↦ opened message
  ]

  -- `SecretBoxOpen`
  unfoldable pub open_sealed : Bytes → Bytes → Opened
  unfolding open_split
  open_sealed key box =
      if ltb (length box) (nonce_size + overhead)
      then refused (ill_formed (nonce_size + overhead) (length box))
      else open_split key box
