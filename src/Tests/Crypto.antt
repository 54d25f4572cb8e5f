-- ===== src/Tests/Crypto.antt =====
-- Boxes with an overhead of zeros, and a container with one entry.
use gpgfs.Base.{
  ℕ, zero, suc, ◌<◌, ◌≡◌, refl, true, none, some, [], ◌∷◌, ◌++◌, ok, length, drop, leb,
  if◌then◌else◌, arith, ◌>>=◌,
}
use gpgfs.Base.Int.{pos}
use gpgfs.Std.Base64.RoundTrip.{IsBytes}
use gpgfs.Crypto.SecretBox.{Bytes, Rand, IsFull, Nacl, IsSecretBox}
use gpgfs.Crypto.Container.{Payload, insert, Store, write, Container, set, new}
use gpgfs.Crypto.Container.Access.{IsReady}
use gpgfs.Crypto.Container.Codec.{
  Formats, IsLossless, Box, encrypt, decrypt, encode, decode, compress, decompress,
}
use gpgfs.Crypto.Container.Codec.Pipeline.{decompress-decrypt-decode}

abbrev replicate : ℕ → ℕ → Bytes
replicate zero b = []
replicate (suc n) b = b ∷ replicate n b

length-replicate : (n b : ℕ) → length (replicate n b) ≡ n
length-replicate zero b = refl
length-replicate (suc n) b = omega (arith, length-replicate n b)

replicate-IsBytes :
    (n b : ℕ) (rest : Bytes) → b < 256 → IsBytes rest → IsBytes (replicate n b ++ rest)
replicate-IsBytes zero b rest h hs = hs
replicate-IsBytes (suc n) b rest h hs = (h, replicate-IsBytes n b rest h hs)

-- The source repeats a byte.
abbrev repeating : Rand
repeating = record { Source = ℕ; read_full = λ s n. (ok (replicate n s), suc s) }

repeating-IsFull : IsFull repeating
repeating-IsFull = record {
  length-read_full =
      λ s n b e. let same : replicate n s ≡ b = cc in rw (← same) (length-replicate n s);
}

abbrev zeros : Bytes → Bytes
zeros m = replicate 16 0 ++ m

abbrev padding : Nacl
padding = record {
  seal = λ out m nonce key. out ++ zeros m;
  open_box = λ box nonce key. if leb 16 (length box) then some (drop 16 box) else none;
  argon2_key = λ key salt time memory threads n. replicate n 0;
}

open_zeros :
    (m : Bytes) → (if leb 16 (length (zeros m)) then some (drop 16 (zeros m)) else none) ≡ some m
open_zeros m = ground arith

padding-IsSecretBox : IsSecretBox padding
padding-IsSecretBox = record {
  box = λ m nonce key. zeros m;
  seal_appends = λ out m nonce key. refl;
  length-box = λ m nonce key. ground arith;
  open-box = λ m nonce key. open_zeros m;
}

abbrev nonce : Bytes
nonce = replicate 24 5

-- The formats do nothing.
abbrev verbatim : Formats
verbatim = record {
  encode_all = λ b. b;
  decode_all = λ b. ok b;
  marshal = λ v. ok [];
  unmarshal = λ b v. ok v;
}

verbatim-IsLossless : IsLossless verbatim
verbatim-IsLossless = record { decode_all-encode_all = λ b. refl }

abbrev box : Box repeating
box = record { key = [] }

abbrev sealed : Bytes
sealed = replicate 24 5 ++ (replicate 16 0 ++ (7 ∷ []))

sealed-IsBytes : IsBytes sealed
sealed-IsBytes =
    replicate-IsBytes 24 5 (replicate 16 0 ++ (7 ∷ [])) (omega arith)
      (replicate-IsBytes 16 0 (7 ∷ []) (omega arith) (omega arith, tt))

box_encrypts_compressed :
    (encrypt repeating padding box 5 (compress verbatim (7 ∷ []))).0 ≡ ok sealed
unfolding encrypt compress
box_encrypts_compressed = refl

decompress-decrypt-decode_example :
    (do
      enc ← decode (encode sealed)
      zipped ← decrypt repeating padding box enc
      decompress verbatim zipped)
    ≡ ok (7 ∷ [])
decompress-decrypt-decode_example =
    decompress-decrypt-decode repeating padding repeating-IsFull padding-IsSecretBox box 5 verbatim
      verbatim-IsLossless (7 ∷ []) sealed box_encrypts_compressed sealed-IsBytes

-- One map, at 0, with the value 2 at the key 1.
abbrev pub entry : Payload
entry = (1, 2 ∷ []) ∷ []

abbrev pub store : Store
store = record { maps = λ q. entry; next = 1 }

abbrev pub container : Container
container = record {
  lock = true;
  version = 0;
  valid_after = pos 3;
  valid_before = pos 9;
  payload = some 0;
}

pub container-IsReady : IsReady container 0
container-IsReady = record { locks = refl; payload = refl }

abbrev made : Container × Store
made = new (pos 3) (pos 6) (some 0) store

abbrev after_set : Store
after_set = write 1 (insert 4 (8 ∷ []) (made.1.maps 1)) made.1

new_sets :
    (let (s, st') = new (pos 3) (pos 6) (some 0) store in set s st' 4 (8 ∷ []) ≡ ok after_set)
unfolding new set
new_sets = refl
