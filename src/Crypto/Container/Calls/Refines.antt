-- ===== src/Crypto/Container/Calls/Refines.antt =====
-- A container answers as a mapping does.
use mathlib.Core.Path.{fun_ext}
use gpgfs.Base.{
  ℕ, suc, ◌<◌, ◌≡◌, refl, none, some, List, [], ◌∷◌, ok, ◌==◌, if◌then◌else◌, arith, inl, inr,
  Option-cases, ◌∙◌, sym, ap,
}
use gpgfs.Base.Int.{ℤ}
use gpgfs.Crypto.Container.{
  Bytes, Payload, lookup, insert, erase, copy_into, write, alloc, Container, acquire, entries,
  refresh, clean,
}
use gpgfs.Crypto.Container.Access.{
  IsReady, get_lem, set_lem, lookup-insert, lookup-erase, lookup-copy_into, write_self, write_ne,
  payload_data_lem, del_absent, del_present,
}
use gpgfs.Crypto.Container.Calls

-- The container has its mutex and a map of the store.
pub record IsWhole (o : Calls.Object) : Type 0 where
  pub address : ℕ
  pub ready : IsReady o.container address
  pub known : address < o.store.next

pub view-lookup :
    (o : Calls.Object) (r j : ℕ)
    → IsReady o.container r
    → Calls.view o j ≡ lookup j (o.store.maps r)
unfolding Calls.view entries
view-lookup o r j ready = rw ready.payload refl

-- One call keeps the container whole, answers as the mapping does, and changes what is seen as the
-- call changes the mapping.
pub IsFaithful : Calls.Op → Calls.Object → Type 0
IsFaithful op o =
    (o' : Calls.Object) × (Calls.perform op o ≡ ok (Calls.answer op (Calls.view o), o'))
    × IsWhole o'
    × (Calls.view o' ≡ Calls.effect op (Calls.view o))

module _ (o : Calls.Object) (h : IsWhole o) where
  same_view :
      (s : Container)
      → s.payload ≡ o.container.payload
      → Calls.view (record o { container = s }) ≡ Calls.view o
  unfolding Calls.view
  same_view s e = fun_ext (λ j. rw e refl)

  refresh-IsFaithful : (after before : ℤ) → IsFaithful (Calls.op_refresh after before) o
  unfolding IsFaithful Calls.perform refresh acquire
  refresh-IsFaithful after before =
      let s : Container = record o.container { valid_after = after; valid_before = before } in
      (
        record o { container = s },
        rw h.ready.locks refl,
        record {
          address = h.address;
          ready = record { locks = h.ready.locks; payload = h.ready.payload };
          known = h.known;
        },
        same_view s refl,
      )

  get-IsFaithful : (key : ℕ) → IsFaithful (Calls.op_get key) o
  unfolding IsFaithful Calls.perform
  get-IsFaithful key = (
    o,
    rw (get_lem o.container h.address h.ready o.store key, view-lookup o h.address key h.ready)
        refl,
    h,
    refl,
  )

  -- The map of the container is replaced in the store.
  unfoldable pub written : Payload → Calls.Object
  written m = record o { store = write h.address m o.store }

  pub written-IsWhole : (m : Payload) → IsWhole (written m)
  unfolding written write
  written-IsWhole m = record { address = h.address; ready = h.ready; known = h.known }

  pub written-view : (m : Payload) (j : ℕ) → Calls.view (written m) j ≡ lookup j m
  unfolding written
  written-view m j =
      view-lookup (written m) h.address j h.ready ∙ ap (lookup j) (write_self h.address m o.store)

  pub written-insert :
      (key : ℕ) (v : Bytes)
      → Calls.view (written (insert key v (o.store.maps h.address)))
        ≡ Calls.update key (some v) (Calls.view o)
  written-insert key v = fun_ext (λ j.
      written-view (insert key v (o.store.maps h.address)) j
      ∙ lookup-insert key j v (o.store.maps h.address)
      ∙ ap (λ x. if key == j then some v else x) (sym (view-lookup o h.address j h.ready)))

  pub written-erase :
      (key : ℕ)
      → Calls.view (written (erase key (o.store.maps h.address)))
        ≡ Calls.update key none (Calls.view o)
  written-erase key = fun_ext (λ j.
      written-view (erase key (o.store.maps h.address)) j
      ∙ lookup-erase key j (o.store.maps h.address)
      ∙ ap (λ x. if key == j then none else x) (sym (view-lookup o h.address j h.ready)))

  set-IsFaithful : (key : ℕ) (v : Bytes) → IsFaithful (Calls.op_set key v) o
  unfolding IsFaithful Calls.perform written
  set-IsFaithful key v =
      let m = insert key v (o.store.maps h.address) in
      (
        written m,
        rw (set_lem o.container h.address h.ready o.store key v) refl,
        written-IsWhole m,
        written-insert key v,
      )

  pub absent :
      (key j : ℕ)
      → lookup key (o.store.maps h.address) ≡ none
      → Calls.view o j ≡ Calls.update key none (Calls.view o) j
  absent key j e = ground (arith, e, view-lookup o h.address j h.ready)

  del-IsFaithful : (key : ℕ) → IsFaithful (Calls.op_del key) o
  unfolding IsFaithful Calls.perform written
  del-IsFaithful key = elim (Option-cases (lookup key (o.store.maps h.address))) [
    | inl e ↦ (
      o,
      rw
          (
            del_absent o.container h.address h.ready o.store key e,
            view-lookup o h.address key h.ready,
            e,
          )
          refl,
      h,
      fun_ext (λ j. absent key j e),
    )
    | inr (v, e) ↦
        let m = erase key (o.store.maps h.address) in
        (
          written m,
          rw
              (
                del_present o.container h.address h.ready o.store key v e,
                view-lookup o h.address key h.ready,
                e,
              )
              refl,
          written-IsWhole m,
          written-erase key,
        )
  ]

  -- The container with a new map.
  unfoldable pub emptied : Calls.Object
  unfolding alloc
  emptied = record {
    container = record o.container { payload = some (alloc [] o.store).0 };
    store = (alloc [] o.store).1;
  }

  emptied-IsReady : IsReady emptied.container o.store.next
  unfolding emptied
  emptied-IsReady = record { locks = h.ready.locks; payload = refl }

  pub emptied-IsWhole : IsWhole emptied
  unfolding emptied
  emptied-IsWhole = record { address = o.store.next; ready = emptied-IsReady; known = omega arith }

  pub emptied-view : Calls.view emptied ≡ (λ j. none)
  unfolding emptied
  emptied-view = fun_ext (λ j.
      view-lookup emptied o.store.next j emptied-IsReady
      ∙ rw (write_self o.store.next [] o.store) (unfold lookup in refl))

  clean-IsFaithful : IsFaithful Calls.op_clean o
  unfolding IsFaithful Calls.perform clean acquire emptied
  clean-IsFaithful = (emptied, rw h.ready.locks refl, emptied-IsWhole, emptied-view)

  data-IsFaithful : IsFaithful Calls.op_data o
  unfolding IsFaithful Calls.perform
  data-IsFaithful =
      let m = copy_into (o.store.maps h.address) [] in
      let st = record (write o.store.next m o.store) { next = suc o.store.next } in
      let o' : Calls.Object = record o { store = st } in
      let kept : st.maps h.address ≡ o.store.maps h.address =
        write_ne o.store.next h.address m o.store (omega (arith, h.known)) in
      (
        o',
        rw (payload_data_lem o.container h.address o.store h.ready) (
            ap (λ (f : Calls.Mapping). ok (Calls.copied f, o'))
              (fun_ext (λ j.
                ap (lookup j) (write_self o.store.next m o.store)
                ∙ lookup-copy_into j (o.store.maps h.address)
                ∙ sym (view-lookup o h.address j h.ready)))),
        record { address = h.address; ready = h.ready; known = omega (arith, h.known) },
        fun_ext (λ j.
            view-lookup o' h.address j h.ready
            ∙ ap (lookup j) kept
            ∙ sym (view-lookup o h.address j h.ready)),
      )

pub perform-IsFaithful : (op : Calls.Op) (o : Calls.Object) → IsWhole o → IsFaithful op o
perform-IsFaithful (Calls.op_refresh after before) o h = refresh-IsFaithful o h after before
perform-IsFaithful (Calls.op_get key) o h = get-IsFaithful o h key
perform-IsFaithful (Calls.op_set key v) o h = set-IsFaithful o h key v
perform-IsFaithful (Calls.op_del key) o h = del-IsFaithful o h key
perform-IsFaithful Calls.op_clean o h = clean-IsFaithful o h
perform-IsFaithful Calls.op_data o h = data-IsFaithful o h

run_step :
    (op : Calls.Op) (ops : List Calls.Op) (o o1 o2 : Calls.Object) (a : Calls.Answer)
    (answers : List Calls.Answer)
    → Calls.perform op o ≡ ok (a, o1)
    → Calls.run ops o1 ≡ ok (answers, o2)
    → Calls.run (op ∷ ops) o ≡ ok (a ∷ answers, o2)
unfolding Calls.run
run_step op ops o o1 o2 a answers e f = rw (e, Calls.run, f) refl

-- Any sequence of calls of a container with its mutex and a map returns, answers what the mapping
-- of its keys to its values answers to the same calls, and ends in a container with its mutex and
-- a map whose mapping is that in which these calls end.
pub run_refines :
    (ops : List Calls.Op) (o : Calls.Object)
    → IsWhole o
    → (o' : Calls.Object) × (Calls.run ops o ≡ ok ((Calls.replay ops (Calls.view o)).0, o'))
      × IsWhole o'
      × (Calls.view o' ≡ (Calls.replay ops (Calls.view o)).1)
unfolding Calls.run Calls.replay IsFaithful
run_refines [] o h = (o, refl, h, refl)
run_refines (op ∷ ops) o h =
    let (o1, made, h1, seen) = perform-IsFaithful op o h in
    let (o2, ran, h2, seen') = run_refines ops o1 h1 in
    let here = Calls.answer op (Calls.view o) in
    (
      o2,
      run_step op ops o o1 o2 here _ made ran
          ∙ ap (λ m. ok (here ∷ (Calls.replay ops m).0, o2)) seen,
      h2,
      seen' ∙ ap (λ m. (Calls.replay ops m).1) seen,
    )
