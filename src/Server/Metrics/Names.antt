-- ===== src/Server/Metrics/Names.antt =====
-- The names of the metrics of the subsystems are all different.
use mathlib.Core.List.{reverse, reverse-append}
use gpgfs.Base.{
  [], ◌∷◌, ℕ, zero, suc, length, length-append, take, take-append, arith, ◌≡◌, refl, sym, ap, ◌∙◌,
  ◌++◌, append_assoc, true,
}
use gpgfs.Std.Strings.{Str, codes, has_prefix}
use gpgfs.Server.Metrics.{requests_total, request_duration, request_size, response_size}

-- The four metrics.
pub data Metric : Type 0 where
  total duration sent received : Metric

abbrev pub metric_name : Metric → Str → Str
metric_name total = requests_total
metric_name duration = request_duration
metric_name received = request_size
metric_name sent = response_size

-- The end of each name, from behind.
abbrev tail : Metric → Str
tail total = reverse (codes "_requests_total")
tail duration = reverse (codes "_request_duration_seconds")
tail received = reverse (codes "_request_size_bytes")
tail sent = reverse (codes "_response_size_bytes")

-- What follows the subsystem in each name.
abbrev rest : Metric → Str
rest total = codes "_requests_total"
rest duration = codes "_request_duration_seconds"
rest received = codes "_request_size_bytes"
rest sent = codes "_response_size_bytes"

metric_name_lem : (m : Metric) (s : Str) → metric_name m s ≡ codes "gpgfs_" ++ (s ++ rest m)
unfolding requests_total request_duration request_size response_size
metric_name_lem total s = refl
metric_name_lem duration s = refl
metric_name_lem received s = refl
metric_name_lem sent s = refl

reverse-name :
    (s t : Str) → reverse (codes "gpgfs_" ++ (s ++ t)) ≡ reverse t ++ (reverse s ++ codes "_sfgpg")
reverse-name s t =
    reverse-append (codes "gpgfs_") (s ++ t)
    ∙ ap (λ r. r ++ codes "_sfgpg") (reverse-append s t)
    ∙ append_assoc (reverse t) (reverse s) (codes "_sfgpg")

abbrev byte_at : ℕ → Str → ℕ
byte_at n [] = 0
byte_at zero (c ∷ s) = c
byte_at (suc n) (c ∷ s) = byte_at n s

tails-differ : (m n : Metric) (x y : Str) → tail m ++ x ≡ tail n ++ y → m ≡ n
tails-differ total total x y e = refl
tails-differ total duration x y e = absurd (omega (arith, ap (byte_at 0) e))
tails-differ total received x y e = absurd (omega (arith, ap (byte_at 0) e))
tails-differ total sent x y e = absurd (omega (arith, ap (byte_at 0) e))
tails-differ duration total x y e = absurd (omega (arith, ap (byte_at 0) e))
tails-differ duration duration x y e = refl
tails-differ duration received x y e = absurd (omega (arith, ap (byte_at 1) e))
tails-differ duration sent x y e = absurd (omega (arith, ap (byte_at 1) e))
tails-differ received total x y e = absurd (omega (arith, ap (byte_at 0) e))
tails-differ received duration x y e = absurd (omega (arith, ap (byte_at 1) e))
tails-differ received received x y e = refl
tails-differ received sent x y e = absurd (omega (arith, ap (byte_at 11) e))
tails-differ sent total x y e = absurd (omega (arith, ap (byte_at 0) e))
tails-differ sent duration x y e = absurd (omega (arith, ap (byte_at 1) e))
tails-differ sent received x y e = absurd (omega (arith, ap (byte_at 11) e))
tails-differ sent sent x y e = refl

append-cancel : (s t r : Str) → s ++ r ≡ t ++ r → s ≡ t
append-cancel s t r e =
    let same : length s ≡ length t =
      omega (arith, ap length e, length-append s r, length-append t r) in
    sym (take-append s r)
    ∙ ap (λ x. take (length s) x) e
    ∙ ap (λ n. take n (t ++ r)) same
    ∙ take-append t r

tail_lem : (m : Metric) → reverse (rest m) ≡ tail m
tail_lem total = refl
tail_lem duration = refl
tail_lem received = refl
tail_lem sent = refl

-- Every name begins with that of the program.
pub metric_name-has_prefix :
    (m : Metric) (s : Str) → has_prefix (metric_name m s) (codes "gpgfs_") ≡ true
unfolding has_prefix
metric_name-has_prefix m s = ap (λ n. has_prefix n (codes "gpgfs_")) (metric_name_lem m s) ∙ refl

-- A name tells the metric and the subsystem that it was made of, whatever the subsystem is called.
pub metric_name-injective :
    (m n : Metric) (s t : Str) → metric_name m s ≡ metric_name n t → (m ≡ n) × (s ≡ t)
metric_name-injective m n s t e =
    let named : codes "gpgfs_" ++ (s ++ rest m) ≡ codes "gpgfs_" ++ (t ++ rest n) =
      sym (metric_name_lem m s) ∙ e ∙ metric_name_lem n t in
    let backward : tail m ++ (reverse s ++ codes "_sfgpg")
        ≡ tail n ++ (reverse t ++ codes "_sfgpg") =
      ap (λ r. r ++ (reverse s ++ codes "_sfgpg")) (sym (tail_lem m))
      ∙ sym (reverse-name s (rest m))
      ∙ ap reverse named
      ∙ reverse-name t (rest n)
      ∙ ap (λ r. r ++ (reverse t ++ codes "_sfgpg")) (tail_lem n) in
    let q : m ≡ n = tails-differ m n _ _ backward in
    let inner : s ++ rest m ≡ t ++ rest n = cc in
    (q, append-cancel s t (rest m) (inner ∙ ap (λ x. t ++ rest x) (sym q)))
