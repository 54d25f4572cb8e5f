-- ===== src/Reflect/Walk/Order.antt =====
-- In which order the fields are visited, and what the walk returns.
use mathlib.Core.Path.{fun_ext}
use gpgfs.Base.{◌≡◌, ◌≢◌, refl, true, false, some, List, [], ◌∷◌, ◌++◌, ◌∙◌, sym, ap}
use gpgfs.Std.Strings.{Str}
use gpgfs.Reflect.Walk.{
  Value, leaf, nil, pointer, fields, Fields, end, field, Signal, go_on, skip_branch, stop_iteration,
  unexpected_kind, failure, Callback, call, below, next, walk_struct_iter, walk_fields, finish,
  walk_struct,
}

abbrev Visit : Type 0
Visit = Value × List Str

-- The visit of the value itself, if it is not the root.
abbrev own : Value → List Str → List Visit
own v [] = []
own v (p ∷ ps) = (v, p ∷ ps) ∷ []

-- Every value that can be reached over exported fields and pointers, each in front of what lies
-- below it and the fields of a struct in their order; the target of a pointer has the pointer's
-- path.
mutual
  pub visits : Value → List Str → List Visit
  visits (leaf n) path = own (leaf n) path
  visits nil path = own nil path
  visits (pointer v) path = own (pointer v) path ++ visits v path
  visits (fields fs) path = own (fields fs) path ++ visits_in fs path

  visits_in : Fields → List Str → List Visit
  visits_in end path = []
  visits_in (field name false v fs) path = visits_in fs path
  visits_in (field name true v fs) path = visits v (path ++ name ∷ []) ++ visits_in fs path

module _ {S : Type 0} (cb : Callback S) where
  -- The calls in their order, up to the first that does not return nil.
  pub run : List Visit → S → S × Signal
  run [] s = (s, go_on)
  run ((v, path) ∷ rest) s = next cb (cb v path s) (λ t. run rest t)

  -- The callback never asks to skip a branch.
  abbrev pub NeverSkips : Type 0
  NeverSkips = (v : Value) (path : List Str) (s : S) → (cb v path s).1 ≢ skip_branch

  pub next_assoc :
      (r : S × Signal) (k l : S → S × Signal)
      → next cb (next cb r k) l ≡ next cb r (λ t. next cb (k t) l)
  unfolding next
  next_assoc (s, go_on) k l = refl
  next_assoc (s, skip_branch) k l = refl
  next_assoc (s, stop_iteration) k l = refl
  next_assoc (s, unexpected_kind g) k l = refl
  next_assoc (s, failure e) k l = refl

  run-append : (xs ys : List Visit) (s : S) → run (xs ++ ys) s ≡ next cb (run xs s) (λ t. run ys t)
  unfolding run
  run-append [] ys s = unfold next in refl
  run-append ((v, path) ∷ xs) ys s =
      ap (λ (k : S → S × Signal). next cb (cb v path s) k) (fun_ext (λ t. run-append xs ys t))
      ∙ sym (next_assoc (cb v path s) (λ t. run xs t) (λ t. run ys t))

  below-eq-next :
      (r : S × Signal) (k : S → S × Signal) → r.1 ≢ skip_branch → below cb r k ≡ next cb r k
  unfolding below next
  below-eq-next (s, go_on) k h = refl
  below-eq-next (s, skip_branch) k h = absurd (h refl)
  below-eq-next (s, stop_iteration) k h = refl
  below-eq-next (s, unexpected_kind g) k h = refl
  below-eq-next (s, failure e) k h = refl

  next-nil :
      (r : S × Signal) (k : S → S × Signal) → next cb (next cb r (λ t. (t, go_on))) k ≡ next cb r k
  unfolding next
  next-nil (s, go_on) k = refl
  next-nil (s, skip_branch) k = refl
  next-nil (s, stop_iteration) k = refl
  next-nil (s, unexpected_kind g) k = refl
  next-nil (s, failure e) k = refl

  pub next-go_on : (r : S × Signal) → r.1 ≢ skip_branch → next cb r (λ t. (t, go_on)) ≡ r
  unfolding next
  next-go_on (s, go_on) h = refl
  next-go_on (s, skip_branch) h = absurd (h refl)
  next-go_on (s, stop_iteration) h = refl
  next-go_on (s, unexpected_kind g) h = refl
  next-go_on (s, failure e) h = refl

  module _ (keeps : NeverSkips) where
    -- Going below a value is running its own visit first.
    below_lem :
        (v : Value) (path : List Str) (s : S) (k : S → S × Signal)
        → below cb (call cb v path s) k ≡ next cb (run (own v path) s) k
    unfolding call run
    below_lem v [] s k = unfold below next in refl
    below_lem v (p ∷ ps) s k =
        below-eq-next (cb v (p ∷ ps) s) k (keeps v (p ∷ ps) s) ∙ sym (next-nil (cb v (p ∷ ps) s) k)

    own_lem :
        (v : Value) (path : List Str) (s : S)
        → below cb (call cb v path s) (λ t. (t, go_on)) ≡ run (own v path) s
    unfolding call run
    own_lem v [] s = unfold below in refl
    own_lem v (p ∷ ps) s = below-eq-next (cb v (p ∷ ps) s) (λ t. (t, go_on)) (keeps v (p ∷ ps) s)

    branch_lem :
        (v : Value) (path : List Str) (rest : List Visit) (s : S) (k : S → S × Signal)
        → ((t : S) → k t ≡ run rest t)
        → below cb (call cb v path s) k ≡ run (own v path ++ rest) s
    branch_lem v path rest s k h =
        below_lem v path s k
        ∙ ap (λ (l : S → S × Signal). next cb (run (own v path) s) l) (fun_ext h)
        ∙ sym (run-append (own v path) rest s)

    run-nil : (s : S) → (s, go_on) ≡ run [] s
    unfolding run
    run-nil s = refl

    mutual
      unfolding walk_struct_iter visits

      pub walk_struct_iter-eq-run :
          (v : Value) (path : List Str) (s : S)
          → walk_struct_iter cb v path s ≡ run (visits v path) s
      walk_struct_iter-eq-run (leaf n) path s = own_lem (leaf n) path s
      walk_struct_iter-eq-run nil path s = own_lem nil path s
      walk_struct_iter-eq-run (pointer v) path s =
          branch_lem (pointer v) path (visits v path) s _ (λ t. walk_struct_iter-eq-run v path t)
      walk_struct_iter-eq-run (fields fs) path s =
          branch_lem (fields fs) path (visits_in fs path) s _ (λ t. walk_fields-eq-run fs path t)

      walk_fields-eq-run :
          (fs : Fields) (path : List Str) (s : S)
          → walk_fields cb fs path s ≡ run (visits_in fs path) s
      walk_fields-eq-run end path s = run-nil s
      walk_fields-eq-run (field name false v fs) path s = walk_fields-eq-run fs path s
      walk_fields-eq-run (field name true v fs) path s =
          rw (walk_struct_iter-eq-run v (path ++ name ∷ []) s) (
            ap (λ (l : S → S × Signal). next cb (run (visits v (path ++ name ∷ [])) s) l)
              (fun_ext (λ t. walk_fields-eq-run fs path t))
            ∙ sym (run-append (visits v (path ++ name ∷ [])) (visits_in fs path) s))

-- With a callback that never skips a branch, walking a struct, or a pointer to one, calls it once
-- for every value that can be reached over exported fields and pointers, but not for the struct
-- itself, in depth-first order and with the path of field names that leads there. The first call
-- that does not return nil ends the walk, with its error, and with nil if that is the error that
-- stops the iteration.
pub walk_struct-eq-run :
    {S : Type 0} (cb : Callback S) (fs : Fields) (s : S)
    → NeverSkips cb
    → (walk_struct cb (fields fs) s ≡ some (finish cb (run cb (visits (fields fs) []) s)))
      × (walk_struct cb (pointer (fields fs)) s
          ≡ some (finish cb (run cb (visits (fields fs) []) s)))
unfolding walk_struct
walk_struct-eq-run cb fs s keeps =
    let e = ap (λ r. some (finish cb r)) (walk_struct_iter-eq-run cb keeps (fields fs) [] s) in
    (e, e)
