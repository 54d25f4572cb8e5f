-- ===== src/Crypto/Container/Shared/Access.antt =====
-- What one access does to what a goroutine knows.
use mathlib.Core.Path.{fun_ext}
use gpgfs.Base.{
  ℕ, ◌≡◌, ◌⊎◌, inl, inr, refl, sym, ap, ◌∙◌, true, false, Option, none, some, List, [], ◌∷◌, ok,
  ◌==◌, ==_iff, Option-cases, Bool-cases,
}
use gpgfs.Base.Int.{ℤ}
use gpgfs.Crypto.Container.{Bytes, Payload, lookup, insert, erase, entries, assign, delete, is_some}
use gpgfs.Crypto.Container.Access.{lookup-insert}
use gpgfs.Crypto.Container.Calls.{
  Object, op_refresh, op_get, op_set, op_del, op_clean, op_data, Mapping, nothing, value, found,
  copied, view, holds, update,
}
use gpgfs.Crypto.Container.Calls.Refines.{
  IsWhole, view-lookup, written, written-IsWhole, written-insert, written-erase, absent, emptied,
  emptied-IsWhole, emptied-view,
}
use gpgfs.Crypto.Container.Shared.{
  Body, begin, refreshing, deleting, copying, Pc, inside, leaving, is_read, keys, copy_entry,
  access,
}
use gpgfs.Crypto.Container.Shared.Abstract.{Abstract, Sees, IsIn, IsCopied, At, op_of, current}

-- An access is made, keeps the container whole and changes what the goroutine knows as it should,
-- inside the same call; that of a reader changes nothing.
abbrev pub IsMade : Body → Object → Abstract → Type 0
IsMade b o a =
    (p : Pc) × (o' : Object) × (access b o ≡ ok (p, o'))
    × IsWhole o'
    × At p a o'
    × (current p ≡ some (op_of b))
    × (is_read (op_of b) ≡ true → o' ≡ o)

keys-IsIn : (j : ℕ) (m : Payload) → (lookup j m ≡ none) ⊎ IsIn j (keys m)
unfolding lookup
keys-IsIn j [] = inl refl
keys-IsIn j ((k, v) ∷ m) = elim (Bool-cases (k == j)) [
  | inl e ↦ inr (inl (sym ((==_iff k j).0 e)))
  | inr e ↦ elim (keys-IsIn j m) [ inl n ↦ inl (rw e n) | inr i ↦ inr (inr i) ]
]

IsCopied-start : (p : Payload) (m : Mapping) → ((j : ℕ) → lookup j p ≡ m j) → IsCopied (keys p) [] m
unfolding lookup
IsCopied-start p m e j = elim (keys-IsIn j p) [ inl n ↦ inl (sym n ∙ e j) | inr i ↦ inr (refl, i) ]

IsCopied-end : (made : Payload) (m : Mapping) → IsCopied [] made m → (j : ℕ) → lookup j made ≡ m j
IsCopied-end made m c j = elim (c j) [ inl e ↦ e | inr (n, i) ↦ absurd i ]

IsCopied-none :
    (k j : ℕ) (rest : List ℕ) (made : Payload) (m : Mapping)
    → m k ≡ none
    → (lookup j made ≡ m j) ⊎ ((lookup j made ≡ none) × IsIn j (k ∷ rest))
    → (lookup j made ≡ m j) ⊎ ((lookup j made ≡ none) × IsIn j rest)
IsCopied-none k j rest made m e (inl f) = inl f
IsCopied-none k j rest made m e (inr (n, inl q)) = inl (n ∙ sym e ∙ ap m (sym q))
IsCopied-none k j rest made m e (inr (n, inr i)) = inr (n, i)

IsCopied-some :
    (k j : ℕ) (v : Bytes) (rest : List ℕ) (made : Payload) (m : Mapping)
    → m k ≡ some v
    → (lookup j made ≡ m j) ⊎ ((lookup j made ≡ none) × IsIn j (k ∷ rest))
    → (lookup j (insert k v made) ≡ m j) ⊎ ((lookup j (insert k v made) ≡ none) × IsIn j rest)
IsCopied-some k j v rest made m e c = elim (Bool-cases (k == j)) [
  | inl q ↦ inl (lookup-insert k j v made ∙ rw q (sym e ∙ ap m ((==_iff k j).0 q)))
  | inr q ↦
      let same : lookup j (insert k v made) ≡ lookup j made =
        lookup-insert k j v made ∙ rw q refl in
      elim c [
        | inl f ↦ inl (same ∙ f)
        | inr (n, inl i) ↦ absurd (let r : (k == j) ≡ true = (==_iff k j).1 (sym i) in cc)
        | inr (n, inr i) ↦ inr (same ∙ n, i)
      ]
]

-- One round of the loop keeps what is so of the copy.
IsCopied-step :
    (k : ℕ) (rest : List ℕ) (made : Payload) (m : Mapping) (o : Option Bytes)
    → o ≡ m k
    → IsCopied (k ∷ rest) made m
    → IsCopied rest (copy_entry k o made) m
IsCopied-step k rest made m none e c j = IsCopied-none k j rest made m (sym e) (c j)
IsCopied-step k rest made m (some v) e c j = IsCopied-some k j v rest made m (sym e) (c j)

module _ (o : Object) (h : IsWhole o) (a : Abstract) where
  refresh-IsMade : (after before : ℤ) → Sees o a → IsMade (begin (op_refresh after before)) o a
  unfolding access view
  refresh-IsMade after before (m, x, y) = (
    inside (refreshing after before),
    record o { container = record o.container { valid_after = after } },
    refl,
    record {
      address = h.address;
      ready = record { locks = h.ready.locks; payload = h.ready.payload };
      known = h.known;
    },
    (m, refl),
    refl,
    λ e. cc,
  )

  refreshing-IsMade :
      (after before : ℤ)
      → At (inside (refreshing after before)) a o
      → IsMade (refreshing after before) o a
  unfolding access view
  refreshing-IsMade after before (m, x) = (
    leaving (op_refresh after before) nothing,
    record o { container = record o.container { valid_before = before } },
    refl,
    record {
      address = h.address;
      ready = record { locks = h.ready.locks; payload = h.ready.payload };
      known = h.known;
    },
    (refl, (m, x, refl)),
    refl,
    λ e. cc,
  )

  get-IsMade : (key : ℕ) → Sees o a → IsMade (begin (op_get key)) o a
  unfolding access view
  get-IsMade key (m, x, y) = (
    leaving (op_get key) (value (view o key)),
    o,
    refl,
    h,
    (ap (λ (f : Mapping). value (f key)) m, (m, x, y)),
    refl,
    λ e. refl,
  )

  set-IsMade : (key : ℕ) (v : Bytes) → Sees o a → IsMade (begin (op_set key v)) o a
  unfolding access assign written
  set-IsMade key v (m, x, y) =
      let p = insert key v (o.store.maps h.address) in
      (
        leaving (op_set key v) nothing,
        written o h p,
        rw h.ready.payload refl,
        written-IsWhole o h p,
        (refl, (written-insert o h key v ∙ ap (update key (some v)) m, x, y)),
        refl,
        λ e. cc,
      )

  clean-IsMade : Sees o a → IsMade (begin op_clean) o a
  unfolding access emptied
  clean-IsMade (m, x, y) = (
    leaving op_clean nothing,
    emptied o h,
    refl,
    emptied-IsWhole o h,
    (refl, (emptied-view o h, x, y)),
    refl,
    λ e. cc,
  )

  del-IsMade : (key : ℕ) → Sees o a → IsMade (begin (op_del key)) o a
  unfolding access view is_some
  del-IsMade key (m, x, y) = elim (Option-cases (view o key)) [
    | inl e ↦ (
      leaving (op_del key) (found false),
      o,
      rw e refl,
      h,
      (
        ap (λ x. found (holds x)) (sym e ∙ ap (λ (f : Mapping). f key) m),
        (
          fun_ext (λ j. absent o h key j (sym (view-lookup o h.address key h.ready) ∙ e))
              ∙ ap (update key none) m,
          x,
          y,
        ),
      ),
      refl,
      λ c. cc,
    )
    | inr (v, e) ↦ (
      inside (deleting key),
      o,
      rw e refl,
      h,
      ((m, x, y), ap holds (sym (ap (λ (f : Mapping). f key) m) ∙ e)),
      refl,
      λ c. cc,
    )
  ]

  deleting-IsMade : (key : ℕ) → At (inside (deleting key)) a o → IsMade (deleting key) o a
  unfolding access delete written
  deleting-IsMade key ((m, x, y), there) =
      let p = erase key (o.store.maps h.address) in
      (
        leaving (op_del key) (found true),
        written o h p,
        rw h.ready.payload refl,
        written-IsWhole o h p,
        (ap found (sym there), (written-erase o h key ∙ ap (update key none) m, x, y)),
        refl,
        λ e. cc,
      )

  data-IsMade : Sees o a → IsMade (begin op_data) o a
  unfolding access view
  data-IsMade (m, x, y) = (
    inside (copying (keys (entries o.store o.container.payload)) []),
    o,
    refl,
    h,
    ((m, x, y), IsCopied-start _ a.mapping (λ j. ap (λ (f : Mapping). f j) m)),
    refl,
    λ e. refl,
  )

  copying-IsMade :
      (rest : List ℕ) (made : Payload)
      → At (inside (copying rest made)) a o
      → IsMade (copying rest made) o a
  unfolding access view
  copying-IsMade [] made ((m, x, y), c) = (
    leaving op_data (copied (λ key. lookup key made)),
    o,
    refl,
    h,
    (ap copied (fun_ext (IsCopied-end made a.mapping c)), (m, x, y)),
    refl,
    λ e. refl,
  )
  copying-IsMade (k ∷ rest) made ((m, x, y), c) = (
    inside (copying rest (copy_entry k (view o k) made)),
    o,
    refl,
    h,
    ((m, x, y), IsCopied-step k rest made a.mapping (view o k) (ap (λ (f : Mapping). f k) m) c),
    refl,
    λ e. refl,
  )

  pub access-IsMade : (b : Body) → At (inside b) a o → IsMade b o a
  access-IsMade (begin (op_refresh after before)) c = refresh-IsMade after before c
  access-IsMade (begin (op_get key)) c = get-IsMade key c
  access-IsMade (begin (op_set key v)) c = set-IsMade key v c
  access-IsMade (begin (op_del key)) c = del-IsMade key c
  access-IsMade (begin op_clean) c = clean-IsMade c
  access-IsMade (begin op_data) c = data-IsMade c
  access-IsMade (refreshing after before) c = refreshing-IsMade after before c
  access-IsMade (deleting key) c = deleting-IsMade key c
  access-IsMade (copying rest made) c = copying-IsMade rest made c
