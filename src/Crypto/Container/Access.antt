-- ===== src/Crypto/Container/Access.antt =====
-- Reading and writing a container, and what it shares with other maps.
use gpgfs.Base.{
  ℕ, suc, ◌<◌, String, ◌≡◌, ◌≢◌, ◌↔◌, refl, Bool, true, false, [], ◌∷◌, none, some, ok, panic, ◌==◌,
  if◌then◌else◌, arith, inl, inr, Option-cases, ◌∙◌, sym, Option,
}
use gpgfs.Base.Int.{ℤ}
use gpgfs.Crypto.Container.{
  Bytes, Payload, lookup, insert, erase, copy_into, Store, write, Container, acquire, entries,
  refresh, get, assign, set, delete, is_some, del, clean, payload_data, new,
}

pub lookup-insert :
    (key j : ℕ) (value : Bytes) (m : Payload)
    → lookup j (insert key value m) ≡ (if key == j then some value else lookup j m)
unfolding lookup insert
lookup-insert key j value [] = refl
lookup-insert key j value ((name, old) ∷ rest) = ground (arith, lookup-insert key j value rest)

pub lookup-erase :
    (key j : ℕ) (m : Payload) → lookup j (erase key m) ≡ (if key == j then none else lookup j m)
unfolding lookup erase
lookup-erase key j [] = ground arith
lookup-erase key j ((name, old) ∷ rest) = ground (arith, lookup-erase key j rest)

-- A copy holds what the map holds.
pub lookup-copy_into : (j : ℕ) (m : Payload) → lookup j (copy_into m []) ≡ lookup j m
unfolding lookup copy_into
lookup-copy_into j [] = refl
lookup-copy_into j ((k, v) ∷ m) =
    rw (lookup-insert k j v (copy_into m [])) (ground (arith, lookup-copy_into j m))

pub write_self : (r : ℕ) (m : Payload) (st : Store) → (write r m st).maps r ≡ m
unfolding write
write_self r m st = ground arith

pub write_ne : (r q : ℕ) (m : Payload) (st : Store) → q ≢ r → (write r m st).maps q ≡ st.maps q
unfolding write
write_ne r q m st h = ground arith

-- A container with a mutex and the payload map at `r`.
pub record IsReady (s : Container) (r : ℕ) : Type 0 where
  pub locks : s.lock ≡ true
  pub payload : s.payload ≡ some r

module _ (s : Container) (r : ℕ) (ready : IsReady s r) where
  pub get_lem : (st : Store) (j : ℕ) → get s st j ≡ ok (lookup j (st.maps r))
  unfolding get acquire
  get_lem st j = rw (ready.locks, ready.payload) refl

  pub set_lem :
      (st : Store) (k : ℕ) (v : Bytes) → set s st k v ≡ ok (write r (insert k v (st.maps r)) st)
  unfolding set acquire assign
  set_lem st k v = rw (ready.locks, ready.payload) refl

  -- `Set` writes no map but the container's.
  set-elsewhere :
      (st st' : Store) (k q : ℕ) (v : Bytes)
      → set s st k v ≡ ok st'
      → q ≢ r
      → st'.maps q ≡ st.maps q
  set-elsewhere st st' k q v e ne =
      let same : st' ≡ write r (insert k v (st.maps r)) st = cc (set_lem st k v) in
      rw same (write_ne r q (insert k v (st.maps r)) st ne)

module _ (s : Container) (r : ℕ) (ready : IsReady s r) (st : Store) where
  -- For a container with its mutex and a map, `Set` returns, and afterwards `Get` finds the value
  -- at the key and the old one elsewhere.
  pub get-set :
      (k j : ℕ) (v : Bytes)
      → (st' : Store) × (set s st k v ≡ ok st')
        × (get s st' j ≡ (if k == j then ok (some v) else get s st j))
  get-set k j v = (
    write r (insert k v (st.maps r)) st,
    set_lem s r ready st k v,
    get_lem s r ready _ j
        ∙ rw
            (
              write_self r (insert k v (st.maps r)) st,
              lookup-insert k j v (st.maps r),
              get_lem s r ready st j,
            )
            (ground arith),
  )

  pub del_absent : (k : ℕ) → lookup k (st.maps r) ≡ none → del s st k ≡ ok (false, st)
  unfolding del acquire entries is_some
  del_absent k e = rw (ready.locks, ready.payload, e) refl

  pub del_present :
      (k : ℕ) (v : Bytes)
      → lookup k (st.maps r) ≡ some v
      → del s st k ≡ ok (true, write r (erase k (st.maps r)) st)
  unfolding del acquire entries is_some delete
  del_present k v e = rw (ready.locks, ready.payload, e) refl

  -- For a container with its mutex and a map, `Del` returns whether `Get` would find the key, and
  -- afterwards `Get` finds nothing at the key and the old value elsewhere.
  pub get-del :
      (k j : ℕ)
      → (found : Bool) × (st' : Store) × (del s st k ≡ ok (found, st'))
        × ((get s st k ≡ ok none) ↔ (found ≡ false))
        × (get s st' j ≡ (if k == j then ok none else get s st j))
  get-del k j = elim (Option-cases (lookup k (st.maps r))) [
    | inl e ↦ (
      false,
      st,
      del_absent k e,
      rw (get_lem s r ready st k, e) ((λ _. refl), (λ _. refl)),
      rw (get_lem s r ready st j) (ground (arith, e)),
    )
    | inr (v, e) ↦ (
      true,
      write r (erase k (st.maps r)) st,
      del_present k v e,
      rw (get_lem s r ready st k, e) ((λ h. absurd (cc)), (λ h. absurd (cc))),
      get_lem s r ready _ j
          ∙ rw
              (
                write_self r (erase k (st.maps r)) st,
                lookup-erase k j (st.maps r),
                get_lem s r ready st j,
              )
              (ground arith),
    )
  ]

pub new-IsReady :
    (after ttl : ℤ) (payload : Option ℕ) (st : Store) → IsReady (new after ttl payload st).0 st.next
unfolding new
new-IsReady after ttl payload st = record { locks = refl; payload = refl }

-- A new container holds what the map that it is made from holds.
pub get-new :
    (after ttl : ℤ) (r : ℕ) (st : Store) (j : ℕ)
    → let (s, st') = new after ttl (some r) st in get s st' j ≡ ok (lookup j (st.maps r))
unfolding new entries
get-new after ttl r st j =
    let (s, st') = new after ttl (some r) st in
    get_lem s st.next (new-IsReady after ttl (some r) st) st' j
    ∙ rw (write_self st.next (copy_into (st.maps r) []) st, lookup-copy_into j (st.maps r)) refl

-- The map of a container that is made from a map is its own: a `Set` on the container changes no
-- map that was there before it, and so not the one that it is made from.
pub new_isolated :
    (after ttl : ℤ) (r : ℕ) (st st2 : Store) (k q : ℕ) (v : Bytes)
    → (let (s, st') = new after ttl (some r) st in set s st' k v ≡ ok st2)
    → q < st.next
    → st2.maps q ≡ st.maps q
unfolding new entries
new_isolated after ttl r st st2 k q v e lt =
    let (s, st') = new after ttl (some r) st in
    set-elsewhere s st.next (new-IsReady after ttl (some r) st) st' st2 k q v e (omega arith)
    ∙ write_ne st.next q (copy_into (st.maps r) []) st (omega arith)

pub payload_data_lem :
    (s : Container) (r : ℕ) (st : Store)
    → IsReady s r
    → payload_data s st
      ≡ ok (st.next, record (write st.next (copy_into (st.maps r) []) st) { next = suc st.next })
unfolding payload_data acquire entries
payload_data_lem s r st ready = rw (ready.locks, ready.payload) refl

payload_data_copy :
    (s : Container) (r q : ℕ) (st st1 : Store)
    → IsReady s r
    → payload_data s st ≡ ok (q, st1)
    → (q ≡ st.next) × (st1.maps q ≡ copy_into (st.maps r) [])
payload_data_copy s r q st st1 ready e =
    let m = copy_into (st.maps r) [] in
    let e' = sym (payload_data_lem s r st ready) ∙ e in
    let same : q ≡ st.next = cc in
    let same' : st1 ≡ record (write st.next m st) { next = suc st.next } = cc in
    (same, rw (same, same') (write_self st.next m st))

-- For a container with its mutex and a map, the map that `Data` returns is a copy: after a `Set`
-- on the container it still has the entries that the container had.
pub lookup-payload_data :
    (s : Container) (r q : ℕ) (st st1 st2 : Store) (k j : ℕ) (v : Bytes)
    → IsReady s r
    → r < st.next
    → payload_data s st ≡ ok (q, st1)
    → set s st1 k v ≡ ok st2
    → lookup j (st2.maps q) ≡ lookup j (st.maps r)
lookup-payload_data s r q st st1 st2 k j v ready old e e' =
    let (same, copied) = payload_data_copy s r q st st1 ready e in
    rw
      (
        set-elsewhere s r ready st1 st2 k q v e' (omega arith),
        copied,
        lookup-copy_into j (st.maps r),
      )
      refl

-- Every operation of a container whose mutex is nil panics, as one does that was filled in by
-- `Unmarshal` from its zero value.
pub unlocked_panics :
    (s : Container) (st : Store) (k : ℕ) (v : Bytes) (after before : ℤ)
    → s.lock ≡ false
    → let nil : String = "invalid memory address or nil pointer dereference" in
      (refresh s after before ≡ panic nil)
      × (get s st k ≡ panic nil)
      × (set s st k v ≡ panic nil)
      × (del s st k ≡ panic nil)
      × (clean s st ≡ panic nil)
      × (payload_data s st ≡ panic nil)
unfolding refresh get set del clean payload_data acquire
unlocked_panics s st k v after before h = ground arith
