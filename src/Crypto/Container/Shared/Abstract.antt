-- ===== src/Crypto/Container/Shared/Abstract.antt =====
-- What a shared container is from outside, and where a goroutine stands in it.
use gpgfs.Base.{ℕ, ◌≡◌, ◌⊎◌, true, Option, none, some, List, [], ◌∷◌}
use gpgfs.Base.Int.{ℤ}
use gpgfs.Crypto.Container.{Payload, lookup}
use gpgfs.Crypto.Container.Calls.{
  Object, Op, op_refresh, op_get, op_set, op_del, op_clean, op_data, Mapping, view, holds, answer,
  effect,
}
use gpgfs.Crypto.Container.Shared.{
  Body, begin, refreshing, deleting, copying, Pc, idle, called, inside, leaving,
}

-- The mapping of the keys, and from when to when the container is valid.
pub record Abstract : Type 0 where
  pub mapping : Mapping
  pub valid_after : ℤ
  pub valid_before : ℤ

abbrev pub seen : Object → Abstract
seen o = record {
  mapping = view o;
  valid_after = o.container.valid_after;
  valid_before = o.container.valid_before;
}

-- A whole call at once.
abbrev pub act : Op → Abstract → Abstract
act (op_refresh after before) a = record a { valid_after = after; valid_before = before }
act (op_get key) a = a
act (op_set key v) a = record a { mapping = effect (op_set key v) a.mapping }
act (op_del key) a = record a { mapping = effect (op_del key) a.mapping }
act op_clean a = record a { mapping = effect op_clean a.mapping }
act op_data a = a

abbrev pub Sees : Object → Abstract → Type 0
Sees o a =
    (view o ≡ a.mapping)
    × (o.container.valid_after ≡ a.valid_after)
    × (o.container.valid_before ≡ a.valid_before)

abbrev pub IsIn : ℕ → List ℕ → Type 0
IsIn j [] = ⊥
IsIn j (k ∷ ks) = (j ≡ k) ⊎ IsIn j ks

-- A copy agrees with the mapping but for keys that it does not have yet and that are left.
abbrev pub IsCopied : List ℕ → Payload → Mapping → Type 0
IsCopied rest made m = (j : ℕ) → (lookup j made ≡ m j) ⊎ ((lookup j made ≡ none) × IsIn j rest)

-- What is so where a goroutine stands, if the calls that have returned have led to `a`.
abbrev pub At : Pc → Abstract → Object → Type 0
At idle a o = Unit {0}
At (called op) a o = Unit {0}
At (inside (begin op)) a o = Sees o a
At (inside (refreshing after before)) a o = (view o ≡ a.mapping) × (o.container.valid_after ≡ after)
At (inside (deleting key)) a o = Sees o a × (holds (a.mapping key) ≡ true)
At (inside (copying rest made)) a o = Sees o a × IsCopied rest made a.mapping
At (leaving op x) a o = (x ≡ answer op a.mapping) × Sees o (act op a)

abbrev pub op_of : Body → Op
op_of (begin op) = op
op_of (refreshing after before) = op_refresh after before
op_of (deleting key) = op_del key
op_of (copying rest made) = op_data

abbrev pub current : Pc → Option Op
current idle = none
current (called op) = none
current (inside b) = some (op_of b)
current (leaving op x) = some op
