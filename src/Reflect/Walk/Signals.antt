-- ===== src/Reflect/Walk/Signals.antt =====
-- The two error values that steer the walk do not come out of it.
use gpgfs.Base.{
  subst, ◌≡◌, ◌≢◌, refl, true, false, none, some, List, [], ◌∷◌, ◌++◌, inl, inr, Option-cases,
}
use gpgfs.Std.Strings.{Str}
use gpgfs.Reflect.Walk.{
  Value, leaf, nil, pointer, fields, Fields, end, field, Signal, go_on, skip_branch, stop_iteration,
  unexpected_kind, failure, Callback, call, below, next, walk_struct_iter, walk_fields,
  indirect_value, finish, expect_struct, walk_struct,
}

module _ {S : Type 0} (cb : Callback S) where
  below-ne-skip_branch :
      (r : S × Signal) (k : S → S × Signal)
      → ((t : S) → (k t).1 ≢ skip_branch)
      → (below cb r k).1 ≢ skip_branch
  unfolding below
  below-ne-skip_branch (s, go_on) k h = h s
  below-ne-skip_branch (s, skip_branch) k h = λ e. cc
  below-ne-skip_branch (s, stop_iteration) k h = λ e. cc
  below-ne-skip_branch (s, unexpected_kind g) k h = λ e. cc
  below-ne-skip_branch (s, failure x) k h = λ e. cc

  next-ne-skip_branch :
      (r : S × Signal) (k : S → S × Signal)
      → ((t : S) → (k t).1 ≢ skip_branch)
      → (next cb r k).1 ≢ skip_branch
  unfolding next
  next-ne-skip_branch (s, go_on) k h = h s
  next-ne-skip_branch (s, skip_branch) k h = h s
  next-ne-skip_branch (s, stop_iteration) k h = λ e. cc
  next-ne-skip_branch (s, unexpected_kind g) k h = λ e. cc
  next-ne-skip_branch (s, failure x) k h = λ e. cc

  go_on-ne-skip_branch : go_on ≢ skip_branch
  go_on-ne-skip_branch e = cc

  mutual
    unfolding walk_struct_iter

    pub walk_struct_iter-ne-skip_branch :
        (v : Value) (path : List Str) (s : S) → (walk_struct_iter cb v path s).1 ≢ skip_branch
    walk_struct_iter-ne-skip_branch (leaf n) path s =
        below-ne-skip_branch (call cb (leaf n) path s) _ (λ t. go_on-ne-skip_branch)
    walk_struct_iter-ne-skip_branch nil path s =
        below-ne-skip_branch (call cb nil path s) _ (λ t. go_on-ne-skip_branch)
    walk_struct_iter-ne-skip_branch (pointer v) path s =
        below-ne-skip_branch (call cb (pointer v) path s) _
          (λ t. walk_struct_iter-ne-skip_branch v path t)
    walk_struct_iter-ne-skip_branch (fields fs) path s =
        below-ne-skip_branch (call cb (fields fs) path s) _
          (λ t. walk_fields-ne-skip_branch fs path t)

    pub walk_fields-ne-skip_branch :
        (fs : Fields) (path : List Str) (s : S) → (walk_fields cb fs path s).1 ≢ skip_branch
    walk_fields-ne-skip_branch end path s = go_on-ne-skip_branch
    walk_fields-ne-skip_branch (field name false v fs) path s = walk_fields-ne-skip_branch fs path s
    walk_fields-ne-skip_branch (field name true v fs) path s =
        next-ne-skip_branch (walk_struct_iter cb v (path ++ name ∷ []) s) _
          (λ t. walk_fields-ne-skip_branch fs path t)

  finish-steers :
      (r : S × Signal)
      → r.1 ≢ skip_branch
      → ((finish cb r).1 ≢ skip_branch) × ((finish cb r).1 ≢ stop_iteration)
  unfolding finish
  finish-steers (s, go_on) h = ((λ e. cc), λ e. cc)
  finish-steers (s, skip_branch) h = absurd (h refl)
  finish-steers (s, stop_iteration) h = ((λ e. cc), λ e. cc)
  finish-steers (s, unexpected_kind g) h = ((λ e. cc), λ e. cc)
  finish-steers (s, failure x) h = ((λ e. cc), λ e. cc)

  expect_struct-steers :
      (v : Value) (s : S)
      → ((expect_struct cb v s).1 ≢ skip_branch) × ((expect_struct cb v s).1 ≢ stop_iteration)
  unfolding expect_struct
  expect_struct-steers (fields fs) s =
      finish-steers (walk_struct_iter cb (fields fs) [] s)
        (walk_struct_iter-ne-skip_branch (fields fs) [] s)
  expect_struct-steers (leaf n) s = ((λ e. cc), λ e. cc)
  expect_struct-steers nil s = ((λ e. cc), λ e. cc)
  expect_struct-steers (pointer v) s = ((λ e. cc), λ e. cc)

  walk_struct_indirect :
      (value v : Value) (s : S)
      → indirect_value cb value ≡ some v
      → walk_struct cb value s ≡ some (expect_struct cb v s)
  unfolding walk_struct
  walk_struct_indirect value v s e = rw (e, walk_struct) refl

  walk_struct_nil :
      (value : Value) (s : S) → indirect_value cb value ≡ none → walk_struct cb value s ≡ none
  unfolding walk_struct
  walk_struct_nil value s e = rw (e, walk_struct) refl

-- Whatever the callback does, `WalkStruct` returns neither of the two errors that steer it: a
-- branch that is skipped and an iteration that is stopped are no failures for its caller.
pub walk_struct-steers :
    {S : Type 0} (cb : Callback S) (value : Value) (s t : S) (signal : Signal)
    → walk_struct cb value s ≡ some (t, signal)
    → (signal ≢ skip_branch) × (signal ≢ stop_iteration)
walk_struct-steers cb value s t signal h = elim (Option-cases (indirect_value cb value)) [
  | inl e ↦ let e' = walk_struct_nil cb value s e in absurd (cc)
  | inr (v, e) ↦
      let e' = walk_struct_indirect cb value v s e in
      let same : expect_struct cb v s ≡ (t, signal) = cc in
      subst (λ r. (r.1 ≢ skip_branch) × (r.1 ≢ stop_iteration)) same (expect_struct-steers cb v s)
]
