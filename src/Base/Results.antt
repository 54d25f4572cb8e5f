-- ===== src/Base/Results.antt =====
-- Go's errors and the three ways in which a call ends: a value, an error, a panic.
use Prim.Native.Nat.{ℕ}
use Prim.Native.String.{String}
use mathlib.Core.Path.{◌≡◌, refl, ap}
use mathlib.Core.Logic.{◌⊎◌, inl, inr}
use mathlib.Core.List.{List}

-- An error value. `foreign` stands for the errors of the packages that the program calls, told
-- apart by a number; `new` and `wrap` are `errors.New`/`errors.Errorf` and `errors.Wrap`/`Wrapf`,
-- whose format arguments are byte strings; a number stands as the list of it alone.
pub data Error : Type 0 where
  new : String → List (List ℕ) → Error
  wrap : String → List (List ℕ) → Error → Error
  foreign : ℕ → Error

pub data Result {ℓ} (A : Type ℓ) : Type ℓ where
  ok : A → Result A
  err : Error → Result A
  panic : String → Result A

infixl 5 ◌>>=◌ ◌>>◌
abbrev pub ◌>>=◌ {ℓ κ} : {V : Type ℓ} {W : Type κ} → Result V → (V → Result W) → Result W
ok v >>= next = next v
err e >>= next = err e
panic text >>= next = panic text

abbrev pub ◌>>◌ {κ} : {W : Type κ} → Result (Unit {0}) → Result W → Result W
first >> second = first >>= λ _. second

-- `if err != nil { return nil, errors.Wrap(err, msg) }`
abbrev pub wrapping {ℓ} : {A : Type ℓ} → String → List (List ℕ) → Result A → Result A
wrapping msg args (ok a) = ok a
wrapping msg args (err e) = err (wrap msg args e)
wrapping msg args (panic m) = panic m

-- Inversion of a chain that returns.
pub >>=-eq-ok {ℓ κ} :
    {V : Type ℓ} {W : Type κ} (first : Result V) (next : V → Result W) {w : W}
    → (first >>= next) ≡ ok w
    → (v : V) × (first ≡ ok v) × (next v ≡ ok w)
>>=-eq-ok (ok v) next done = (v, refl, done)
>>=-eq-ok (err e) next done = cc
>>=-eq-ok (panic text) next done = cc

pub wrapping-eq-ok {ℓ} :
    {A : Type ℓ} (r : Result A) (msg : String) (args : List (List ℕ)) (a : A)
    → wrapping msg args r ≡ ok a
    → r ≡ ok a
wrapping-eq-ok (ok b) msg args a h = h
wrapping-eq-ok (err e) msg args a h = cc
wrapping-eq-ok (panic m) msg args a h = cc

pub >>-eq-ok {κ} :
    {B : Type κ} (m : Result (Unit {0})) (k : Result B) {b : B}
    → (m >> k) ≡ ok b
    → (m ≡ ok tt) × (k ≡ ok b)
>>-eq-ok (ok tt) k h = (refl, h)
>>-eq-ok (err e) k h = cc
>>-eq-ok (panic m) k h = cc

pub Result-cases {ℓ} :
    {A : Type ℓ} (r : Result A)
    → ((a : A) × (r ≡ ok a)) ⊎ (((e : Error) × (r ≡ err e)) ⊎ ((m : String) × (r ≡ panic m)))
Result-cases (ok a) = inl (a, refl)
Result-cases (err e) = inr (inl (e, refl))
Result-cases (panic m) = inr (inr (m, refl))

pub ok-injective {ℓ} : {A : Type ℓ} {a b : A} → ok a ≡ ok b → a ≡ b
ok-injective e = cc

-- A chain whose first part returns.
pub >>=-of_ok {ℓ κ} :
    {V : Type ℓ} {W : Type κ} {first : Result V} {v : V} (next : V → Result W)
    → first ≡ ok v
    → (first >>= next) ≡ next v
>>=-of_ok next e = ap (λ r. r >>= next) e
