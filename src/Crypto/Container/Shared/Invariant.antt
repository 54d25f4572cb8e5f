-- ===== src/Crypto/Container/Shared/Invariant.antt =====
-- What is so of a shared container however the goroutines interleave.
use gpgfs.Base.{
  ok-injective, ℕ, ◌≡◌, ◌≢◌, inl, inr, refl, sym, ap, ◌∙◌, subst, Bool, true, false, Option, none,
  some, ok, ◌==◌, ==_iff, Bool-cases, Option-cases,
}
use gpgfs.Crypto.Container.Calls.{
  Object, Op, op_refresh, op_get, op_set, op_del, op_clean, op_data, Answer, answer,
}
use gpgfs.Crypto.Container.Calls.Refines.{IsWhole}
use gpgfs.Crypto.Container.Shared.{
  Body, begin, Pc, idle, called, inside, leaving, is_read, access, System, put,
}
use gpgfs.Crypto.Container.Shared.Abstract.{Abstract, act, Sees, At, op_of, current}
use gpgfs.Crypto.Container.Shared.Access.{access-IsMade}

some-ne-none : (op : Op) → some op ≢ none
some-ne-none op e = cc

put-all :
    {A : Type 0} (P : ℕ → A → Type 0) (i : ℕ) (x : A) (f : ℕ → A)
    → P i x
    → ((j : ℕ) → i ≢ j → P j (f j))
    → (j : ℕ) → P j (put i x f j)
put-all P i x f here others j = elim (Bool-cases (i == j)) [
  | inl e ↦ rw e (subst (λ k. P k x) ((==_iff i j).0 e) here)
  | inr e ↦ rw e (others j (λ q. let r : (i == j) ≡ true = (==_iff i j).1 q in cc))
]

put-both :
    {A B : Type 0} (P : ℕ → A → B → Type 0) (i : ℕ) (x : A) (y : B) (f : ℕ → A) (g : ℕ → B)
    → P i x y
    → ((j : ℕ) → i ≢ j → P j (f j) (g j))
    → (j : ℕ) → P j (put i x f j) (put i y g j)
put-both P i x y f g here others j = elim (Bool-cases (i == j)) [
  | inl e ↦ rw e (subst (λ k. P k x y) ((==_iff i j).0 e) here)
  | inr e ↦ rw e (others j (λ q. let r : (i == j) ≡ true = (==_iff i j).1 q in cc))
]

-- Inside a call that writes, the mutex is the goroutine's; inside one that reads, it has it too.
abbrev pub Writes : Option ℕ → ℕ → Pc → Type 0
Writes writer i p = (op : Op) → current p ≡ some op → is_read op ≡ false → writer ≡ some i

abbrev pub Reads : Bool → Pc → Type 0
Reads held p = (op : Op) → current p ≡ some op → is_read op ≡ true → held ≡ true

-- Nobody else has the mutex.
abbrev pub Holds : Option ℕ → ℕ → Pc → Type 0
Holds writer i p = writer ≡ some i → current p ≢ none

abbrev pub Shares : Bool → Pc → Type 0
Shares held p = held ≡ true → current p ≢ none

-- Who writes has the mutex alone, who reads has it with other readers, nobody sees more than a whole
-- call of a writer, and each goroutine knows what it has to know.
pub record IsOrdered (a : Abstract) (s : System) : Type 0 where
  pub whole : IsWhole s.object
  pub writing : (i : ℕ) → Writes s.mutex.writer i (s.pc i)
  pub reading : (i : ℕ) → Reads (s.mutex.reader i) (s.pc i)
  pub alone : (i j : ℕ) → s.mutex.writer ≡ some i → s.mutex.reader j ≡ false
  pub steady : s.mutex.writer ≡ none → Sees s.object a
  pub held : (i : ℕ) → Holds s.mutex.writer i (s.pc i)
  pub sharing : (i : ℕ) → Shares (s.mutex.reader i) (s.pc i)
  pub each : (i : ℕ) → At (s.pc i) a s.object

At-outside : (p : Pc) (a : Abstract) (o : Object) → current p ≡ none → At p a o
At-outside idle a o e = tt
At-outside (called op) a o e = tt
At-outside (inside b) a o e = absurd (cc)
At-outside (leaving op x) a o e = absurd (cc)

act-read : (op : Op) (a : Abstract) → is_read op ≡ true → act op a ≡ a
act-read (op_refresh after before) a e = absurd (cc)
act-read (op_get key) a e = refl
act-read (op_set key v) a e = absurd (cc)
act-read (op_del key) a e = absurd (cc)
act-read op_clean a e = absurd (cc)
act-read op_data a e = refl

module _ (a : Abstract) (s : System) (h : IsOrdered a s) where
  -- While one goroutine writes, all others are outside.
  others_outside : (i j : ℕ) → s.mutex.writer ≡ some i → i ≢ j → current (s.pc j) ≡ none
  others_outside i j w ne = elim (Option-cases (current (s.pc j))) [
    | inl e ↦ e
    | inr (op, e) ↦ elim (Bool-cases (is_read op)) [
      | inl r ↦ let busy = h.reading j op e r in let free = h.alone i j w in absurd (cc)
      | inr r ↦ let same = h.writing j op e r in let q : i ≡ j = cc in absurd (ne q)
    ]
  ]

  pub call-IsOrdered :
      (i : ℕ) (op : Op) → s.pc i ≡ idle → IsOrdered a (record s { pc = put i (called op) s.pc })
  call-IsOrdered i op e = record {
    whole = h.whole;
    writing =
        put-all (Writes s.mutex.writer) i (called op) s.pc (λ o c r. absurd (cc))
          (λ j ne. h.writing j);
    reading =
        put-all (λ j. Reads (s.mutex.reader j)) i (called op) s.pc (λ o c r. absurd (cc))
          (λ j ne. h.reading j);
    alone = h.alone;
    steady = h.steady;
    held =
        put-all (Holds s.mutex.writer) i (called op) s.pc (λ x c. h.held i x (ap current e))
          (λ j ne. h.held j);
    sharing =
        put-all (λ j. Shares (s.mutex.reader j)) i (called op) s.pc
          (λ x c. h.sharing i x (ap current e)) (λ j ne. h.sharing j);
    each = put-all (λ j p. At p a s.object) i (called op) s.pc tt (λ j ne. h.each j);
  }

  pub announce-IsOrdered :
      (i : ℕ) → IsOrdered a (record s { mutex = record s.mutex { pending = some i } })
  announce-IsOrdered i = record {
    whole = h.whole;
    writing = h.writing;
    reading = h.reading;
    alone = h.alone;
    steady = h.steady;
    held = h.held;
    sharing = h.sharing;
    each = h.each;
  }

  pub lock-IsOrdered :
      (i : ℕ) (op : Op)
      → is_read op ≡ false
      → s.mutex.writer ≡ none
      → ((j : ℕ) → s.mutex.reader j ≡ false)
      → IsOrdered a (record s {
        mutex = record s.mutex { writer = some i; pending = none };
        pc = put i (inside (begin op)) s.pc;
      })
  lock-IsOrdered i op w free unread = record {
    whole = h.whole;
    writing =
        put-all (Writes (some i)) i (inside (begin op)) s.pc (λ o c r. refl)
          (λ j ne o c r. let busy = h.writing j o c r in absurd (cc));
    reading =
        put-all (λ j. Reads (s.mutex.reader j)) i (inside (begin op)) s.pc
          (λ o c r. let q : op ≡ o = cc in absurd (cc)) (λ j ne. h.reading j);
    alone = λ k j e. unread j;
    steady = λ e. absurd (cc);
    held =
        put-all (Holds (some i)) i (inside (begin op)) s.pc (λ x c. cc)
          (λ j ne x. let q : i ≡ j = cc in absurd (ne q));
    sharing =
        put-all (λ j. Shares (s.mutex.reader j)) i (inside (begin op)) s.pc (λ x c. cc)
          (λ j ne. h.sharing j);
    each =
        put-all (λ j p. At p a s.object) i (inside (begin op)) s.pc (h.steady free)
          (λ j ne. h.each j);
  }

  pub r_lock-IsOrdered :
      (i : ℕ) (op : Op)
      → is_read op ≡ true
      → s.mutex.writer ≡ none
      → IsOrdered a (record s {
        mutex = record s.mutex { reader = put i true s.mutex.reader };
        pc = put i (inside (begin op)) s.pc;
      })
  r_lock-IsOrdered i op r free = record {
    whole = h.whole;
    writing =
        put-all (Writes s.mutex.writer) i (inside (begin op)) s.pc
          (λ o c w. let q : op ≡ o = cc in absurd (cc)) (λ j ne. h.writing j);
    reading =
        put-both (λ j x. Reads x) i true (inside (begin op)) s.mutex.reader s.pc (λ o c w. refl)
          (λ j ne. h.reading j);
    alone = λ k j e. absurd (cc);
    steady = h.steady;
    held = put-all (Holds s.mutex.writer) i (inside (begin op)) s.pc (λ x c. cc) (λ j ne. h.held j);
    sharing =
        put-both (λ j x. Shares x) i true (inside (begin op)) s.mutex.reader s.pc (λ x c. cc)
          (λ j ne. h.sharing j);
    each =
        put-all (λ j p. At p a s.object) i (inside (begin op)) s.pc (h.steady free)
          (λ j ne. h.each j);
  }

  -- What an access of a goroutine leaves for the others.
  others :
      (i : ℕ) (op : Op) (o : Object)
      → current (s.pc i) ≡ some op
      → (is_read op ≡ true → o ≡ s.object)
      → (j : ℕ) → i ≢ j
      → At (s.pc j) a o
  others i op o c kept j ne = elim (Bool-cases (is_read op)) [
    | inl r ↦ subst (At (s.pc j) a) (sym (kept r)) (h.each j)
    | inr w ↦ At-outside (s.pc j) a o (others_outside i j (h.writing i op c w) ne)
  ]

  steady_after :
      (i : ℕ) (op : Op) (o : Object)
      → current (s.pc i) ≡ some op
      → (is_read op ≡ true → o ≡ s.object)
      → s.mutex.writer ≡ none
      → Sees o a
  steady_after i op o c kept free = elim (Bool-cases (is_read op)) [
    | inl r ↦ subst (λ x. Sees x a) (sym (kept r)) (h.steady free)
    | inr w ↦ let busy = h.writing i op c w in absurd (cc)
  ]

  pub go-IsOrdered :
      (i : ℕ) (b : Body) (p : Pc) (o : Object)
      → s.pc i ≡ inside b
      → access b s.object ≡ ok (p, o)
      → IsOrdered a (record s { object = o; pc = put i p s.pc })
  go-IsOrdered i b p o e made =
      let (p', o', e', whole', at', now', kept') =
        access-IsMade s.object h.whole a b (subst (λ x. At x a s.object) e (h.each i)) in
      let same : (p', o') ≡ (p, o) = ok-injective (sym e' ∙ made) in
      let c : current (s.pc i) ≡ some (op_of b) = ap current e in
      let now : current p ≡ some (op_of b) = subst (λ r. current r.0 ≡ some (op_of b)) same now' in
      let kept : is_read (op_of b) ≡ true → o ≡ s.object =
        subst (λ r. is_read (op_of b) ≡ true → r.1 ≡ s.object) same kept' in
      let still : current p ≢ none = λ d. some-ne-none (op_of b) (sym now ∙ d) in
      record {
        whole = subst (λ r. IsWhole r.1) same whole';
        writing =
            put-all (Writes s.mutex.writer) i p s.pc (λ op d w. h.writing i op (c ∙ sym now ∙ d) w)
              (λ j ne. h.writing j);
        reading =
            put-all (λ j. Reads (s.mutex.reader j)) i p s.pc
              (λ op d w. h.reading i op (c ∙ sym now ∙ d) w) (λ j ne. h.reading j);
        alone = h.alone;
        steady = steady_after i (op_of b) o c kept;
        held = put-all (Holds s.mutex.writer) i p s.pc (λ x d. still d) (λ j ne. h.held j);
        sharing =
            put-all (λ j. Shares (s.mutex.reader j)) i p s.pc (λ x d. still d)
              (λ j ne. h.sharing j);
        each =
            put-all (λ j x. At x a o) i p s.pc (subst (λ r. At r.0 a r.1) same at')
              (others i (op_of b) o c kept);
      }

  pub unlock-IsOrdered :
      (i : ℕ) (op : Op) (x : Answer)
      → s.pc i ≡ leaving op x
      → is_read op ≡ false
      → (x ≡ answer op a.mapping)
        × IsOrdered
            (act op a)
            (record s { mutex = record s.mutex { writer = none }; pc = put i idle s.pc })
  unlock-IsOrdered i op x e w =
      let c : current (s.pc i) ≡ some op = ap current e in
      let mine = h.writing i op c w in
      let (answered, sees) = subst (λ p. At p a s.object) e (h.each i) in
      (
        answered,
        record {
          whole = h.whole;
          writing =
              put-all (Writes none) i idle s.pc (λ o d r. absurd (cc))
                (λ j ne o d r. let out = others_outside i j mine ne in absurd (cc));
          reading =
              put-all (λ j. Reads (s.mutex.reader j)) i idle s.pc (λ o d r. absurd (cc))
                (λ j ne. h.reading j);
          alone = λ k j r. absurd (cc);
          steady = λ r. sees;
          held = λ j x. absurd (cc);
          sharing =
              put-all (λ j. Shares (s.mutex.reader j)) i idle s.pc
                (λ x d. let free = h.alone i i mine in absurd (cc)) (λ j ne. h.sharing j);
          each =
              put-all (λ j p. At p (act op a) s.object) i idle s.pc tt
                (λ j ne. At-outside (s.pc j) (act op a) s.object (others_outside i j mine ne));
        },
      )

  pub r_unlock-IsOrdered :
      (i : ℕ) (op : Op) (x : Answer)
      → s.pc i ≡ leaving op x
      → is_read op ≡ true
      → (x ≡ answer op a.mapping)
        × IsOrdered (act op a) (record s {
          mutex = record s.mutex { reader = put i false s.mutex.reader };
          pc = put i idle s.pc;
        })
  r_unlock-IsOrdered i op x e r =
      let same : a ≡ act op a = sym (act-read op a r) in
      let (answered, _) = subst (λ p. At p a s.object) e (h.each i) in
      let reader = put i false s.mutex.reader in
      (
        answered,
        subst
            (λ b.
              IsOrdered b
                (record s { mutex = record s.mutex { reader = reader }; pc = put i idle s.pc }))
            same
            (record {
              whole = h.whole;
              writing =
                  put-all (Writes s.mutex.writer) i idle s.pc (λ o d w. absurd (cc))
                    (λ j ne. h.writing j);
              reading =
                  put-both (λ j x. Reads x) i false idle s.mutex.reader s.pc (λ o d w. absurd (cc))
                    (λ j ne. h.reading j);
              alone = λ k j w.
                  put-all (λ j x. x ≡ false) i false s.mutex.reader refl (λ j ne. h.alone k j w) j;
              steady = h.steady;
              held =
                  put-all (Holds s.mutex.writer) i idle s.pc
                    (λ x d.
                      let free = h.alone i i x in
                      let busy = h.reading i op (ap current e) r in absurd (cc))
                    (λ j ne. h.held j);
              sharing =
                  put-both (λ j x. Shares x) i false idle s.mutex.reader s.pc (λ x d. cc)
                    (λ j ne. h.sharing j);
              each = put-all (λ j p. At p a s.object) i idle s.pc tt (λ j ne. h.each j);
            }),
      )
