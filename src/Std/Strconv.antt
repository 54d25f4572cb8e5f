-- ===== src/Std/Strconv.antt =====
-- Go's strconv.ParseUint in base 10.
use native.Mathlib.Nat.{pow-suc}
use gpgfs.Base.{
  ℕ, zero, suc, ◌+◌, ◌-◌, ◌*◌, ◌^◌, ◌<◌, ◌≡◌, Bool, ◌&&◌, [], ◌∷◌, Result, ok, err, new, arith, leb,
  ltb, if◌then◌else◌,
}
use gpgfs.Std.Strings.{Str}

is_digit : ℕ → Bool
is_digit c = leb b'0' c && leb c b'9'

-- The value is read from the left; a value past the largest of `bits` bits ends the reading.
parse_digits : ℕ → Str → ℕ → Str → Result ℕ
parse_digits bits s n [] = ok n
parse_digits bits s n (c ∷ cs) =
    let rest = parse_digits bits s (10 * n + (c - b'0')) cs in
    if is_digit c
    then if ltb (10 * n + (c - b'0')) (2 ^ bits)
      then rest
      else err (new "value out of range" (s ∷ []))
    else err (new "invalid syntax" (s ∷ []))

unfoldable pub parse_uint : Str → ℕ → Result ℕ
unfolding parse_digits is_digit
parse_uint [] bits = err (new "invalid syntax" ([] ∷ []))
parse_uint (c ∷ cs) bits = parse_digits bits (c ∷ cs) 0 (c ∷ cs)

parse_digits-lt :
    (bits : ℕ) (s : Str) (n : ℕ) (cs : Str) (v : ℕ)
    → n < 2 ^ bits
    → parse_digits bits s n cs ≡ ok v
    → v < 2 ^ bits
unfolding parse_digits
parse_digits-lt bits s n [] v h e = ground arith
parse_digits-lt bits s n (c ∷ cs) v h e =
    ground (arith, parse_digits-lt bits s (10 * n + (c - b'0')) cs v)

pow_pos : (bits : ℕ) → 0 < 2 ^ bits
pow_pos zero = omega arith
pow_pos (suc bits) = rw (pow-suc 2 bits) (omega (arith, pow_pos bits))

-- A number that is parsed fits the width.
pub parse_uint-lt : (s : Str) (bits v : ℕ) → parse_uint s bits ≡ ok v → v < 2 ^ bits
unfolding parse_uint
parse_uint-lt [] bits v e = cc
parse_uint-lt (c ∷ cs) bits v e = parse_digits-lt bits (c ∷ cs) 0 (c ∷ cs) v (pow_pos bits) e
