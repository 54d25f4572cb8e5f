-- ===== src/Std/Base64.antt =====
-- Go's encoding/base64 with the URL alphabet and padding: EncodedLen, DecodedLen, Encode, Decode.
pub mod RoundTrip
use gpgfs.Base.{
  ℕ, ◌+◌, ◌-◌, ◌*◌, ◌/◌, ◌%◌, ◌≡◌, Bool, true, false, ◌&&◌, ◌||◌, List, [], ◌∷◌, ◌++◌, Option, none,
  some, Result, ok, err, Error, new, ltb, leb, ◌==◌, if◌then◌else◌,
}

abbrev pub pad : ℕ
pad = b'='

-- The alphabet `A-Z a-z 0-9 - _`.
unfoldable pub encode_digit : ℕ → ℕ
encode_digit v =
    if ltb v 26
    then b'A' + v
    else if ltb v 52
    then b'a' + (v - 26)
    else if ltb v 62
    then b'0' + (v - 52)
    else if v == 62
    then b'-'
    else b'_'

unfoldable pub decode_digit : ℕ → Option ℕ
decode_digit c =
    if leb b'A' c && leb c b'Z'
    then some (c - b'A')
    else if leb b'a' c && leb c b'z'
    then some (c - b'a' + 26)
    else if leb b'0' c && leb c b'9'
    then some (c - b'0' + 52)
    else if c == b'-'
    then some 62
    else if c == b'_'
    then some 63
    else none

unfoldable pub encode : List ℕ → List ℕ
unfolding encode_digit
encode [] = []
encode (a ∷ []) = encode_digit (a / 4) ∷ encode_digit (a % 4 * 16) ∷ pad ∷ pad ∷ []
encode (a ∷ b ∷ []) =
    encode_digit (a / 4) ∷ encode_digit (a % 4 * 16 + b / 16) ∷ encode_digit (b % 16 * 4) ∷ pad ∷ []
encode (a ∷ b ∷ c ∷ bs) =
    encode_digit (a / 4)
    ∷ encode_digit (a % 4 * 16 + b / 16)
    ∷ encode_digit (b % 16 * 4 + c / 64)
    ∷ encode_digit (c % 64)
    ∷ encode bs

is_newline : ℕ → Bool
is_newline c = c == 10 || c == 13

-- Newlines are passed over wherever they stand.
unfoldable pub strip : List ℕ → List ℕ
unfolding is_newline
strip [] = []
strip (c ∷ s) = let rest = strip s in if is_newline c then rest else c ∷ rest

corrupt : Result (List ℕ)
corrupt = err (new "illegal base64 data at input byte" [])

infixl 5 ◌>>=?◌
abbrev ◌>>=?◌ : Option ℕ → (ℕ → Result (List ℕ)) → Result (List ℕ)
none >>=? f = err (new "illegal base64 data at input byte" [])
some v >>=? f = f v

-- The bytes of the last quantum, whose end is padding, or of a full one with those behind it.
last_one : ℕ → ℕ → Result (List ℕ)
last_one a b = decode_digit a >>=? λ x. decode_digit b >>=? λ y. ok ((x * 4 + y / 16) % 256 ∷ [])

last_two : ℕ → ℕ → ℕ → Result (List ℕ)
last_two a b c = decode_digit a >>=? λ x. decode_digit b >>=? λ y.
    decode_digit c >>=? λ z. ok ((x * 4 + y / 16) % 256 ∷ (y * 16 + z / 4) % 256 ∷ [])

prepend : List ℕ → Result (List ℕ) → Result (List ℕ)
prepend bs (ok r) = ok (bs ++ r)
prepend bs (err e) = err e
prepend bs (Result.panic m) = Result.panic m

full : ℕ → ℕ → ℕ → ℕ → Result (List ℕ) → Result (List ℕ)
unfolding prepend
full a b c d rest = decode_digit a >>=? λ x. decode_digit b >>=? λ y. decode_digit c >>=? λ z.
    decode_digit d >>=? λ w.
    prepend ((x * 4 + y / 16) % 256 ∷ (y * 16 + z / 4) % 256 ∷ (z * 64 + w) % 256 ∷ []) rest

decode_quanta : List ℕ → Result (List ℕ)
unfolding last_one last_two full corrupt decode_digit
decode_quanta [] = ok []
decode_quanta (a ∷ b ∷ c ∷ d ∷ []) =
    if d == pad then if c == pad then last_one a b else last_two a b c else full a b c d (ok [])
decode_quanta (a ∷ b ∷ c ∷ d ∷ e ∷ s) = full a b c d (decode_quanta (e ∷ s))
decode_quanta _ = corrupt

unfoldable pub decode : List ℕ → Result (List ℕ)
unfolding decode_quanta strip
decode s = decode_quanta (strip s)

unfoldable pub encoded_len : ℕ → ℕ
encoded_len n = (n + 2) / 3 * 4

unfoldable pub decoded_len : ℕ → ℕ
decoded_len n = n / 4 * 3
