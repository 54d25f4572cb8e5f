-- ===== src/Reflect/Kinds.antt =====
-- pkg/reflect/reflect.go: the checks of kinds, types and values, with the errors of errors.go.
use gpgfs.Base.{
  ℕ, ◌≡◌, ◌⊎◌, ◌↔◌, inl, inr, refl, Bool, true, false, ◌||◌, Option, none, some, Result, ok, panic,
  List, [], ◌∷◌, ◌==◌, ==_iff, Bool-cases, if◌then◌else◌, arith,
}
use gpgfs.Std.Strings.{Str}

-- A `reflect.Kind` is a number.
abbrev pub Kind : Type 0
Kind = ℕ

abbrev pub invalid : Kind
invalid = 0

abbrev pub chan : Kind
chan = 18

abbrev pub func : Kind
func = 19

abbrev pub interface : Kind
interface = 20

abbrev pub map_kind : Kind
map_kind = 21

abbrev pub ptr : Kind
ptr = 22

abbrev pub slice : Kind
slice = 23

abbrev pub struct : Kind
struct = 25

abbrev pub unsafe_pointer : Kind
unsafe_pointer = 26

-- A type has a kind and perhaps an element.
pub data GoType : Type 0 where
  simple : Kind → GoType
  composed : Kind → GoType → GoType

abbrev pub type_kind : GoType → Kind
type_kind (simple k) = k
type_kind (composed k t) = k

-- `Elem` of a type.
abbrev pub type_elem : GoType → Result GoType
type_elem (simple k) = panic "reflect: Elem of invalid type"
type_elem (composed k t) = ok t

-- A value of a kind; the zero `reflect.Value` has the kind `invalid`.
pub record GoValue : Type 0 where
  pub kind : Kind
  pub nil : Bool

-- `IsNil` of reflect panics for kinds that have no nil.
abbrev pub value_is_nil : GoValue → Result Bool
value_is_nil v =
    if v.kind == chan
      || v.kind == func
      || v.kind == interface
      || v.kind == map_kind
      || v.kind == ptr
      || v.kind == slice
      || v.kind == unsafe_pointer
    then ok v.nil
    else panic "reflect: call of reflect.Value.IsNil on a value without nil"

-- `ErrInvalid`, `ErrUnexpectedKind` and `ErrPtrRequired`.
pub data KindError : Type 0 where
  invalid_value : GoValue → KindError
  unexpected_kind : Kind → List Kind → KindError
  ptr_required : GoValue → KindError

-- `CheckValue` of a value in an interface
unfoldable pub check_value : GoValue → Option KindError
check_value v = if v.kind == ptr then none else some (ptr_required v)

unfoldable pub check_struct : GoValue → Option KindError
check_struct v = if v.kind == struct then none else some (unexpected_kind v.kind (struct ∷ []))

-- `StructFieldExported` of a field with this package path
unfoldable pub struct_field_exported : Str → Bool
struct_field_exported [] = true
struct_field_exported (c ∷ s) = false

unfoldable pub indirect_type : GoType → Result GoType
indirect_type t = if type_kind t == ptr || type_kind t == slice then type_elem t else ok t

unfoldable pub expected : Kind → List Kind → Bool
expected k [] = false
expected k (ek ∷ eks) = if ek == k then true else expected k eks

unfoldable pub expect_kind : GoType → List Kind → Option KindError
unfolding expected
expect_kind t ks =
    if expected (type_kind t) ks then none else some (unexpected_kind (type_kind t) ks)

unfoldable pub is_nil : GoValue → Result Bool
is_nil v =
    if v.kind == ptr || v.kind == map_kind || v.kind == slice then value_is_nil v else ok false

-- The kind is one of the list.
abbrev pub OneOf : Kind → List Kind → Type 0
OneOf k [] = ⊥
OneOf k (ek ∷ eks) = (ek ≡ k) ⊎ OneOf k eks

expected→OneOf : (k : Kind) (ks : List Kind) → expected k ks ≡ true → OneOf k ks
unfolding expected
expected→OneOf k [] h = cc
expected→OneOf k (e ∷ es) h = elim (Bool-cases (e == k)) [
  | inl same ↦ inl ((==_iff e k).0 same)
  | inr differ ↦ inr (expected→OneOf k es (ground arith))
]

OneOf→expected : (k : Kind) (ks : List Kind) → OneOf k ks → expected k ks ≡ true
unfolding expected
OneOf→expected k [] h = elim h [ ]
OneOf→expected k (e ∷ es) h = elim h [
  | inl same ↦ ground arith
  | inr later ↦ ground (arith, OneOf→expected k es later)
]

-- `ExpectKind` finds no fault exactly with the kinds of the list.
pub expect_kind_iff :
    (t : GoType) (ks : List Kind) → (expect_kind t ks ≡ none) ↔ OneOf (type_kind t) ks
unfolding expect_kind
expect_kind_iff t ks = elim (Bool-cases (expected (type_kind t) ks)) [
  | inl h ↦ (λ e. expected→OneOf (type_kind t) ks h, λ o. rw h refl)
  | inr h ↦ (λ e. absurd (ground arith), λ o. absurd (cc (h, OneOf→expected (type_kind t) ks o)))
]

-- `IsNil` of this package never panics.
pub is_nil_total : (v : GoValue) → (b : Bool) × (is_nil v ≡ ok b)
unfolding is_nil
is_nil_total v = elim (Bool-cases (v.kind == ptr || v.kind == map_kind || v.kind == slice)) [
  | inl h ↦ (v.nil, ground arith)
  | inr h ↦ (false, ground arith)
]
