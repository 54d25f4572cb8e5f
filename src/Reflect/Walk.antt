-- ===== src/Reflect/Walk.antt =====
-- pkg/reflect/structs.go: WalkStruct and walkStructIter; IndirectValue and ExpectKind of reflect.go.
pub mod Order
pub mod Signals
pub mod Scan
use gpgfs.Base.{
  ℕ, String, ◌≡◌, Bool, true, false, Option, none, some, List, [], ◌∷◌, ◌++◌, Error, new, ◌==◌,
  ◌||◌, if◌then◌else◌,
}
use gpgfs.Std.Strings.{Str}

-- The kinds of reflect.Kind that the walk tells apart, and one for all others.
pub data Kind : Type 0 where
  ptr struct other : Kind

-- A value as the walk meets it. `target` is the struct of the fields that are not exported, too;
-- a nil pointer has no target.
mutual
  pub data Value : Type 0 where
    leaf : ℕ → Value
    nil : Value
    pointer : Value → Value
    fields : Fields → Value

  pub data Fields : Type 0 where
    end : Fields
    field : (name : Str) (exported : Bool) → Value → Fields → Fields

unfoldable pub kind_of : Value → Kind
kind_of (leaf n) = other
kind_of nil = ptr
kind_of (pointer v) = ptr
kind_of (fields fs) = struct

-- The error values of the package: nil, the two that steer the walk, the one of an unexpected
-- kind, and any other that a callback returns.
pub data Signal : Type 0 where
  go_on : Signal
  skip_branch : Signal
  stop_iteration : Signal
  unexpected_kind : Kind → Signal
  failure : Error → Signal

-- `cb(v, path)`, whose effects are those on a state.
abbrev pub Callback : Type 0 → Type 0
Callback S = Value → List Str → S → S × Signal

module _ {S : Type 0} (cb : Callback S) where
  -- The callback is not called for the root, whose path is empty.
  unfoldable pub call : Value → List Str → S → S × Signal
  call v [] s = (s, go_on)
  call v (p ∷ ps) s = cb v (p ∷ ps) s

  -- What the callback says decides whether the walk goes below the value.
  unfoldable pub below : S × Signal → (S → S × Signal) → S × Signal
  below (s, go_on) k = k s
  below (s, skip_branch) k = (s, go_on)
  below (s, stop_iteration) k = (s, stop_iteration)
  below (s, unexpected_kind g) k = (s, unexpected_kind g)
  below (s, failure e) k = (s, failure e)

  -- What a field's walk returns decides whether the loop goes on to the next field.
  unfoldable pub next : S × Signal → (S → S × Signal) → S × Signal
  next (s, go_on) k = k s
  next (s, skip_branch) k = k s
  next (s, stop_iteration) k = (s, stop_iteration)
  next (s, unexpected_kind g) k = (s, unexpected_kind g)
  next (s, failure e) k = (s, failure e)

  unfoldable mutual
    unfolding call below next

    pub walk_struct_iter : Value → List Str → S → S × Signal
    walk_struct_iter (leaf n) path s = below (call (leaf n) path s) (λ t. (t, go_on))
    walk_struct_iter nil path s = below (call nil path s) (λ t. (t, go_on))
    walk_struct_iter (pointer v) path s =
        below (call (pointer v) path s) (λ t. walk_struct_iter v path t)
    walk_struct_iter (fields fs) path s =
        below (call (fields fs) path s) (λ t. walk_fields fs path t)

    -- The loop over the fields, which passes over those that are not exported.
    pub walk_fields : Fields → List Str → S → S × Signal
    walk_fields end path s = (s, go_on)
    walk_fields (field name false v fs) path s = walk_fields fs path s
    walk_fields (field name true v fs) path s =
        next (walk_struct_iter v (path ++ name ∷ []) s) (λ t. walk_fields fs path t)

  -- `IndirectValue` of a value that is not nil.
  unfoldable pub indirect_value : Value → Option Value
  indirect_value (leaf n) = some (leaf n)
  indirect_value nil = none
  indirect_value (pointer v) = some v
  indirect_value (fields fs) = some (fields fs)

  -- `StopIteration` ends the walk with no error.
  unfoldable pub finish : S × Signal → S × Signal
  finish (s, go_on) = (s, go_on)
  finish (s, skip_branch) = (s, skip_branch)
  finish (s, stop_iteration) = (s, go_on)
  finish (s, unexpected_kind g) = (s, unexpected_kind g)
  finish (s, failure e) = (s, failure e)

  unfoldable pub expect_struct : Value → S → S × Signal
  unfolding walk_struct_iter finish
  expect_struct (fields fs) s = finish (walk_struct_iter (fields fs) [] s)
  expect_struct (leaf n) s = (s, unexpected_kind other)
  expect_struct nil s = (s, unexpected_kind ptr)
  expect_struct (pointer v) s = (s, unexpected_kind ptr)

  -- `WalkStruct`; `none` is the panic of `v.Type()` on the target of a nil pointer.
  unfoldable pub walk_struct : Value → S → Option (S × Signal)
  unfolding indirect_value expect_struct
  walk_struct value s = elim (indirect_value value) [
    | none ↦ none
    | some v ↦ some (expect_struct v s)
  ]
