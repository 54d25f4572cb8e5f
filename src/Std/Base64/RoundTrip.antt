-- ===== src/Std/Base64/RoundTrip.antt =====
-- Decoding takes back what encoding made, and the lengths are those of the buffers.
use gpgfs.Base.{
  ℕ, ◌+◌, ◌*◌, ◌/◌, ◌%◌, ◌<◌, ◌≡◌, refl, false, List, [], ◌∷◌, some, ok, ◌==◌, length, All, arith,
  ◌∙◌, ap,
}
use gpgfs.Std.Base64.{
  pad, encode_digit, decode_digit, encode, is_newline, strip, last_one, last_two, full,
  decode_quanta, decode, encoded_len,
}

decode_digit-encode_digit : (v : ℕ) → v < 64 → decode_digit (encode_digit v) ≡ some v
unfolding decode_digit encode_digit
decode_digit-encode_digit v h = ground arith

is_newline-encode_digit : (v : ℕ) → v < 64 → is_newline (encode_digit v) ≡ false
unfolding is_newline encode_digit
is_newline-encode_digit v h = ground arith

encode_digit-ne-pad : (v : ℕ) → v < 64 → (encode_digit v == pad) ≡ false
unfolding encode_digit
encode_digit-ne-pad v h = ground arith

abbrev pub IsBytes : List ℕ → Type 0
IsBytes bs = All (λ b. b < 256) bs

is_newline-pad : is_newline pad ≡ false
unfolding is_newline
is_newline-pad = refl

strip-keep : (c : ℕ) (s : List ℕ) → is_newline c ≡ false → strip (c ∷ s) ≡ c ∷ strip s
unfolding strip
strip-keep c s h = rw (h, strip) refl

strip-nil : strip [] ≡ []
unfolding strip
strip-nil = refl

-- A quantum holds no newline.
strip-four :
    (a b c d : ℕ) (s : List ℕ)
    → is_newline a ≡ false
    → is_newline b ≡ false
    → is_newline c ≡ false
    → is_newline d ≡ false
    → strip (a ∷ b ∷ c ∷ d ∷ s) ≡ a ∷ b ∷ c ∷ d ∷ strip s
strip-four a b c d s ha hb hc hd =
    rw
      (
        strip-keep a (b ∷ c ∷ d ∷ s) ha,
        strip-keep b (c ∷ d ∷ s) hb,
        strip-keep c (d ∷ s) hc,
        strip-keep d s hd,
      )
      refl

strip-encode : (bs : List ℕ) → IsBytes bs → strip (encode bs) ≡ encode bs
unfolding encode
strip-encode [] h = unfold strip in refl
strip-encode (a ∷ []) (ha, _) =
    strip-four (encode_digit (a / 4)) (encode_digit (a % 4 * 16)) pad pad []
      (is_newline-encode_digit (a / 4) (omega arith))
      (is_newline-encode_digit (a % 4 * 16) (omega arith)) is_newline-pad is_newline-pad
    ∙ rw strip-nil refl
strip-encode (a ∷ b ∷ []) (ha, (hb, _)) =
    strip-four (encode_digit (a / 4)) (encode_digit (a % 4 * 16 + b / 16))
      (encode_digit (b % 16 * 4)) pad [] (is_newline-encode_digit (a / 4) (omega arith))
      (is_newline-encode_digit (a % 4 * 16 + b / 16) (omega arith))
      (is_newline-encode_digit (b % 16 * 4) (omega arith)) is_newline-pad
    ∙ rw strip-nil refl
strip-encode (a ∷ b ∷ c ∷ bs) (ha, (hb, (hc, h))) =
    strip-four (encode_digit (a / 4)) (encode_digit (a % 4 * 16 + b / 16))
      (encode_digit (b % 16 * 4 + c / 64)) (encode_digit (c % 64)) (encode bs)
      (is_newline-encode_digit (a / 4) (omega arith))
      (is_newline-encode_digit (a % 4 * 16 + b / 16) (omega arith))
      (is_newline-encode_digit (b % 16 * 4 + c / 64) (omega arith))
      (is_newline-encode_digit (c % 64) (omega arith))
    ∙ rw (strip-encode bs h) refl

decode_quanta-full :
    (a b c d : ℕ) (s : List ℕ)
    → (d == pad) ≡ false
    → decode_quanta (a ∷ b ∷ c ∷ d ∷ s) ≡ full a b c d (decode_quanta s)
unfolding decode_quanta
decode_quanta-full a b c d [] h = rw (h, decode_quanta) refl
decode_quanta-full a b c d (e ∷ s) h = refl

full-encode_digit :
    (x y z w : ℕ) (r : List ℕ)
    → x < 64
    → y < 64
    → z < 64
    → w < 64
    → full (encode_digit x) (encode_digit y) (encode_digit z) (encode_digit w) (ok r)
      ≡ ok ((x * 4 + y / 16) % 256 ∷ (y * 16 + z / 4) % 256 ∷ (z * 64 + w) % 256 ∷ r)
unfolding full
full-encode_digit x y z w r hx hy hz hw =
    rw
      (
        decode_digit-encode_digit x hx,
        decode_digit-encode_digit y hy,
        decode_digit-encode_digit z hz,
        decode_digit-encode_digit w hw,
      )
      refl

decode_quanta-one : (a b : ℕ) → decode_quanta (a ∷ b ∷ pad ∷ pad ∷ []) ≡ last_one a b
unfolding decode_quanta
decode_quanta-one a b = refl

decode_quanta-two :
    (a b c : ℕ) → (c == pad) ≡ false → decode_quanta (a ∷ b ∷ c ∷ pad ∷ []) ≡ last_two a b c
unfolding decode_quanta
decode_quanta-two a b c h = rw (h, decode_quanta) refl

last_one-encode_digit :
    (x y : ℕ)
    → x < 64
    → y < 64
    → last_one (encode_digit x) (encode_digit y) ≡ ok ((x * 4 + y / 16) % 256 ∷ [])
unfolding last_one
last_one-encode_digit x y hx hy =
    rw (decode_digit-encode_digit x hx, decode_digit-encode_digit y hy) refl

last_two-encode_digit :
    (x y z : ℕ)
    → x < 64
    → y < 64
    → z < 64
    → last_two (encode_digit x) (encode_digit y) (encode_digit z)
      ≡ ok ((x * 4 + y / 16) % 256 ∷ (y * 16 + z / 4) % 256 ∷ [])
unfolding last_two
last_two-encode_digit x y z hx hy hz =
    rw
      (
        decode_digit-encode_digit x hx,
        decode_digit-encode_digit y hy,
        decode_digit-encode_digit z hz,
      )
      refl

decode_quanta-encode : (bs : List ℕ) → IsBytes bs → decode_quanta (encode bs) ≡ ok bs
unfolding encode
decode_quanta-encode [] h = unfold decode_quanta in refl
decode_quanta-encode (a ∷ []) (ha, _) =
    decode_quanta-one (encode_digit (a / 4)) (encode_digit (a % 4 * 16))
    ∙ last_one-encode_digit (a / 4) (a % 4 * 16) (omega arith) (omega arith)
    ∙ ap ok (ground arith)
decode_quanta-encode (a ∷ b ∷ []) (ha, (hb, _)) =
    decode_quanta-two _ _ _ (encode_digit-ne-pad (b % 16 * 4) (omega arith))
    ∙ last_two-encode_digit (a / 4) (a % 4 * 16 + b / 16) (b % 16 * 4) (omega arith) (omega arith)
        (omega arith)
    ∙ ap ok (ground arith)
decode_quanta-encode (a ∷ b ∷ c ∷ bs) (ha, (hb, (hc, h))) =
    decode_quanta-full _ _ _ _ (encode bs) (encode_digit-ne-pad (c % 64) (omega arith))
    ∙ rw (decode_quanta-encode bs h) (
        full-encode_digit (a / 4) (a % 4 * 16 + b / 16) (b % 16 * 4 + c / 64) (c % 64) bs
          (omega arith) (omega arith) (omega arith) (omega arith)
        ∙ ap ok (ground arith))

-- Decoding takes every text of bytes back from its encoding.
pub decode-encode : (bs : List ℕ) → IsBytes bs → decode (encode bs) ≡ ok bs
unfolding decode
decode-encode bs h = rw (strip-encode bs h) (decode_quanta-encode bs h)

-- The encoding fills a buffer of `EncodedLen` bytes exactly.
pub length-encode : (bs : List ℕ) → length (encode bs) ≡ encoded_len (length bs)
unfolding encode encoded_len
length-encode [] = refl
length-encode (a ∷ []) = refl
length-encode (a ∷ b ∷ []) = refl
length-encode (a ∷ b ∷ c ∷ bs) = omega (arith, length-encode bs)
