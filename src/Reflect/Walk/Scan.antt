-- ===== src/Reflect/Walk/Scan.antt =====
-- The recursive walk against one scan of the list of all values, in which a skipped branch is a
-- number of entries to pass over.
use mathlib.Core.Path.{fun_ext}
use gpgfs.Base.{
  ℕ, zero, suc, ◌≡◌, refl, true, false, some, List, [], ◌∷◌, ◌++◌, length, ◌∙◌, sym, ap,
  append_assoc, append-nil,
}
use gpgfs.Std.Strings.{Str}
use gpgfs.Reflect.Walk.{
  Value, leaf, nil, pointer, fields, Fields, end, field, Signal, go_on, skip_branch, stop_iteration,
  unexpected_kind, failure, Callback, call, below, next, walk_struct_iter, walk_fields, finish,
  walk_struct,
}
use gpgfs.Reflect.Walk.Order.{next_assoc, next-go_on}
use gpgfs.Reflect.Walk.Signals.{walk_struct_iter-ne-skip_branch}

-- A value, its path, and how many of the entries behind it are below it.
abbrev pub Entry : Type 0
Entry = Value × List Str × ℕ

abbrev own : Value → List Str → ℕ → List Entry
own v [] n = []
own v (p ∷ ps) n = (v, p ∷ ps, n) ∷ []

abbrev under : Value → List Str → List Entry → List Entry
under v path es = own v path (length es) ++ es

-- Every value that can be reached over exported fields and pointers, but for the root, each in
-- front of what lies below it and the fields of a struct in their order.
mutual
  pub entries : Value → List Str → List Entry
  entries (leaf n) path = under (leaf n) path []
  entries nil path = under nil path []
  entries (pointer v) path = under (pointer v) path (entries v path)
  entries (fields fs) path = under (fields fs) path (entries_in fs path)

  pub entries_in : Fields → List Str → List Entry
  entries_in end path = []
  entries_in (field name false v fs) path = entries_in fs path
  entries_in (field name true v fs) path = entries v (path ++ name ∷ []) ++ entries_in fs path

module _ {S : Type 0} (cb : Callback S) where
  -- What the callback says decides how many entries are passed over, or ends the scan.
  abbrev decide : S × Signal → (S → S × Signal) → (S → S × Signal) → S × Signal
  decide (s, go_on) on skip = on s
  decide (s, skip_branch) on skip = skip s
  decide (s, stop_iteration) on skip = (s, stop_iteration)
  decide (s, unexpected_kind g) on skip = (s, unexpected_kind g)
  decide (s, failure e) on skip = (s, failure e)

  -- The first number is how many entries are still passed over.
  pub scan : ℕ → List Entry → S → S × Signal
  scan k [] s = (s, go_on)
  scan (suc k) (e ∷ es) s = scan k es s
  scan zero ((v, path, n) ∷ es) s = decide (cb v path s) (λ t. scan zero es t) (λ t. scan n es t)

  scan-append : (xs ys : List Entry) (s : S) → scan (length xs) (xs ++ ys) s ≡ scan zero ys s
  unfolding scan
  scan-append [] ys s = refl
  scan-append (x ∷ xs) ys s = scan-append xs ys s

  -- The entries of a branch are scanned as the walk goes: what it says decides about the rest.
  abbrev Follows : List Entry → (S → S × Signal) → Type 0
  Follows es walk =
      (rest : List Entry) (s : S)
      → scan zero (es ++ rest) s ≡ next cb (walk s) (λ t. scan zero rest t)

  decide_lem :
      (r : S × Signal) (es rest : List Entry) (walk : S → S × Signal)
      → Follows es walk
      → decide r (λ t. scan zero (es ++ rest) t) (λ t. scan (length es) (es ++ rest) t)
        ≡ next cb (below cb r walk) (λ t. scan zero rest t)
  unfolding below next
  decide_lem (s, go_on) es rest walk h = h rest s
  decide_lem (s, skip_branch) es rest walk h = scan-append es rest s
  decide_lem (s, stop_iteration) es rest walk h = refl
  decide_lem (s, unexpected_kind g) es rest walk h = refl
  decide_lem (s, failure e) es rest walk h = refl

  under_lem :
      (v : Value) (path : List Str) (es : List Entry) (walk : S → S × Signal)
      → Follows es walk
      → Follows (under v path es) (λ s. below cb (call cb v path s) walk)
  unfolding call scan
  under_lem v [] es walk h rest s = unfold below in h rest s
  under_lem v (p ∷ ps) es walk h rest s = decide_lem (cb v (p ∷ ps) s) es rest walk h

  Follows-nil : Follows [] (λ t. (t, go_on))
  unfolding next
  Follows-nil rest s = refl

  Follows-append :
      (xs ys : List Entry) (first second : S → S × Signal)
      → Follows xs first
      → Follows ys second
      → Follows (xs ++ ys) (λ s. next cb (first s) second)
  Follows-append xs ys first second h k rest s =
      ap (λ es. scan zero es s) (append_assoc xs ys rest)
      ∙ h (ys ++ rest) s
      ∙ ap (λ (f : S → S × Signal). next cb (first s) f) (fun_ext (λ t. k rest t))
      ∙ sym (next_assoc cb (first s) second (λ t. scan zero rest t))

  mutual
    unfolding walk_struct_iter entries

    walk_struct_iter-Follows :
        (v : Value) (path : List Str) → Follows (entries v path) (λ s. walk_struct_iter cb v path s)
    walk_struct_iter-Follows (leaf n) path = under_lem (leaf n) path [] _ Follows-nil
    walk_struct_iter-Follows nil path = under_lem nil path [] _ Follows-nil
    walk_struct_iter-Follows (pointer v) path =
        under_lem (pointer v) path (entries v path) _ (walk_struct_iter-Follows v path)
    walk_struct_iter-Follows (fields fs) path =
        under_lem (fields fs) path (entries_in fs path) _ (walk_fields-Follows fs path)

    walk_fields-Follows :
        (fs : Fields) (path : List Str)
        → Follows (entries_in fs path) (λ s. walk_fields cb fs path s)
    walk_fields-Follows end path = Follows-nil
    walk_fields-Follows (field name false v fs) path = walk_fields-Follows fs path
    walk_fields-Follows (field name true v fs) path =
        Follows-append (entries v (path ++ name ∷ [])) (entries_in fs path)
          (λ s. walk_struct_iter cb v (path ++ name ∷ []) s) (λ s. walk_fields cb fs path s)
          (walk_struct_iter-Follows v (path ++ name ∷ [])) (walk_fields-Follows fs path)

  scan-nil : (s : S) → scan zero [] s ≡ (s, go_on)
  unfolding scan
  scan-nil s = refl

  walk_struct_iter-eq-scan :
      (v : Value) (path : List Str) (s : S)
      → walk_struct_iter cb v path s ≡ scan zero (entries v path) s
  walk_struct_iter-eq-scan v path s = sym (
      ap (λ es. scan zero es s) (sym (append-nil (entries v path)))
      ∙ walk_struct_iter-Follows v path [] s
      ∙ ap (λ (f : S → S × Signal). next cb (walk_struct_iter cb v path s) f) (fun_ext scan-nil)
      ∙ next-go_on cb (walk_struct_iter cb v path s) (walk_struct_iter-ne-skip_branch cb v path s))

-- Whatever the callback says, walking a struct, or a pointer to one, is one scan of the list of
-- all values that can be reached over exported fields and pointers, but for the struct itself, in
-- depth-first order and with the path of field names that leads to each: a branch that is skipped
-- passes over the values below, the first other call that does not return nil ends the scan, and
-- its error is the walk's, or nil if it is the one that stops the iteration.
pub walk_struct-eq-scan :
    {S : Type 0} (cb : Callback S) (fs : Fields) (s : S)
    → (walk_struct cb (fields fs) s ≡ some (finish cb (scan cb zero (entries (fields fs) []) s)))
      × (walk_struct cb (pointer (fields fs)) s
          ≡ some (finish cb (scan cb zero (entries (fields fs) []) s)))
unfolding walk_struct
walk_struct-eq-scan cb fs s =
    let e = ap (λ r. some (finish cb r)) (walk_struct_iter-eq-scan cb (fields fs) [] s) in (e, e)
