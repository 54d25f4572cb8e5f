-- ===== src/Crypto/Container/Shared/Progress.antt =====
-- A call of a shared container that has the mutex ends, and one that waits gets it.
use gpgfs.Base.{
  ℕ, ◌≡◌, ◌≢◌, ◌⊎◌, inl, inr, refl, sym, ◌∙◌, subst, true, false, none, some, List, [], ◌∷◌, ok,
  ◌==◌, ==_iff, ==_refl, Bool-cases, Option-cases,
}
use gpgfs.Crypto.Container.{Payload, insert, lookup, acquire, entries, assign, is_some}
use gpgfs.Crypto.Container.Calls.{
  Object, Op, op_refresh, op_get, op_set, op_del, op_clean, op_data, Answer, nothing, found,
}
use gpgfs.Crypto.Container.Calls.Refines.{IsWhole, written}
use gpgfs.Crypto.Container.Shared.{
  Body, begin, refreshing, deleting, copying, Pc, idle, called, inside, leaving, is_read, access,
  Return, System, put, Step, announce, lock, r_lock, go, unlock, r_unlock, Steps, start, later,
  IsQuiet,
}
use gpgfs.Crypto.Container.Shared.Abstract.{op_of, current, seen}
use gpgfs.Crypto.Container.Shared.Invariant.{IsOrdered}
use gpgfs.Crypto.Container.Shared.Linear.{after, Steps-IsOrdered, IsQuiet-IsOrdered}

before : {s t u : System} {rs : List Return} → Step s [] t → Steps t rs u → Steps s rs u
before e start = later start e
before e (later run f) = later (before e run) f

put_self : {A : Type 0} (i : ℕ) (x : A) (f : ℕ → A) → put i x f i ≡ x
put_self i x f = rw (==_refl i) refl

put-ne : {A : Type 0} (i j : ℕ) (x : A) (f : ℕ → A) → i ≢ j → put i x f j ≡ f j
put-ne i j x f ne = elim (Bool-cases (i == j)) [
  | inl e ↦ absurd (ne ((==_iff i j).0 e))
  | inr e ↦ rw e refl
]

-- A run in which the goroutine ends its call and no other moves.
pub record Finishes (i : ℕ) (op : Op) (t : System) : Type 0 where
  pub last : System
  pub answer : Answer
  pub run : Steps t (record { caller = i; op = op; answer = answer } ∷ []) last
  pub ended : last.pc i ≡ idle
  pub others : (j : ℕ) → i ≢ j → last.pc j ≡ t.pc j

leaving-Finishes :
    (i : ℕ) (op : Op) (x : Answer) (t : System) → t.pc i ≡ leaving op x → Finishes i op t
leaving-Finishes i op x t e = elim (Bool-cases (is_read op)) [
  | inl r ↦ record {
    last = record t {
      mutex = record t.mutex { reader = put i false t.mutex.reader };
      pc = put i idle t.pc;
    };
    answer = x;
    run = later start (r_unlock i op x e r);
    ended = put_self i idle t.pc;
    others = λ j ne. put-ne i j idle t.pc ne;
  }
  | inr w ↦ record {
    last = record t { mutex = record t.mutex { writer = none }; pc = put i idle t.pc };
    answer = x;
    run = later start (unlock i op x e w);
    ended = put_self i idle t.pc;
    others = λ j ne. put-ne i j idle t.pc ne;
  }
]

module _ (i : ℕ) (op : Op) where
  go-Finishes :
      (t : System) (b : Body) (p : Pc) (o : Object)
      → t.pc i ≡ inside b
      → access b t.object ≡ ok (p, o)
      → ((u : System) → u.pc i ≡ p → Finishes i op u)
      → Finishes i op t
  go-Finishes t b p o e made next =
      let u = record t { object = o; pc = put i p t.pc } in
      let f = next u (put_self i p t.pc) in
      record {
        last = f.last;
        answer = f.answer;
        run = before (go i b p o e made) f.run;
        ended = f.ended;
        others = λ j ne. f.others j ne ∙ put-ne i j p t.pc ne;
      }

copying-Finishes :
    (i : ℕ) (rest : List ℕ) (made : Payload) (t : System)
    → t.pc i ≡ inside (copying rest made)
    → Finishes i op_data t
unfolding access
copying-Finishes i [] made t e =
    go-Finishes i op_data t (copying [] made) _ _ e refl (leaving-Finishes i op_data _)
copying-Finishes i (k ∷ rest) made t e =
    go-Finishes i op_data t (copying (k ∷ rest) made) _ _ e refl (copying-Finishes i rest _)

inside-Finishes :
    (i : ℕ) (b : Body) (t : System) → IsWhole t.object → t.pc i ≡ inside b → Finishes i (op_of b) t
unfolding access assign written
inside-Finishes i (begin (op_refresh x y)) t h e =
    go-Finishes i (op_refresh x y) t (begin (op_refresh x y)) _ _ e refl (λ u f.
      go-Finishes i (op_refresh x y) u (refreshing x y) _ _ f refl
        (leaving-Finishes i (op_refresh x y) _))
inside-Finishes i (begin (op_get key)) t h e =
    go-Finishes i (op_get key) t (begin (op_get key)) _ _ e refl (leaving-Finishes i (op_get key) _)
inside-Finishes i (begin (op_set key v)) t h e =
    go-Finishes i (op_set key v) t (begin (op_set key v)) (leaving (op_set key v) nothing)
      (written t.object h (insert key v (t.object.store.maps h.address))) e
      (rw h.ready.payload refl) (leaving-Finishes i (op_set key v) _)
inside-Finishes i (begin (op_del key)) t h e =
    elim (Bool-cases (is_some (lookup key (entries t.object.store t.object.container.payload)))) [
      | inl there ↦
          go-Finishes i (op_del key) t (begin (op_del key)) (inside (deleting key)) t.object e
            (rw there refl)
            (λ u f.
              go-Finishes i (op_del key) u (deleting key) _ _ f refl
                (leaving-Finishes i (op_del key) _))
      | inr not_there ↦
          go-Finishes i (op_del key) t (begin (op_del key)) (leaving (op_del key) (found false))
            t.object e (rw not_there refl) (leaving-Finishes i (op_del key) _)
    ]
inside-Finishes i (begin op_clean) t h e =
    go-Finishes i op_clean t (begin op_clean) _ _ e refl (leaving-Finishes i op_clean _)
inside-Finishes i (begin op_data) t h e =
    go-Finishes i op_data t (begin op_data) _ _ e refl (copying-Finishes i _ _)
inside-Finishes i (refreshing x y) t h e =
    go-Finishes i (op_refresh x y) t (refreshing x y) _ _ e refl
      (leaving-Finishes i (op_refresh x y) _)
inside-Finishes i (deleting key) t h e =
    go-Finishes i (op_del key) t (deleting key) _ _ e refl (leaving-Finishes i (op_del key) _)
inside-Finishes i (copying rest made) t h e = copying-Finishes i rest made t e

current-Finishes :
    (i : ℕ) (op : Op) (p : Pc) (t : System)
    → IsWhole t.object
    → t.pc i ≡ p
    → current p ≡ some op
    → Finishes i op t
current-Finishes i op idle t h e c = absurd (cc)
current-Finishes i op (called x) t h e c = absurd (cc)
current-Finishes i op (inside b) t h e c =
    let same : op_of b ≡ op = cc in subst (λ x. Finishes i x t) same (inside-Finishes i b t h e)
current-Finishes i op (leaving x a) t h e c =
    let same : x ≡ op = cc in subst (λ y. Finishes i y t) same (leaving-Finishes i x a t e)

-- Steps of the goroutine alone lead into its call.
record IsBegun (i : ℕ) (op : Op) (t : System) : Type 0 where
  next : System
  steps : (u : System) (rs : List Return) → Steps next rs u → Steps t rs u
  there : next.pc i ≡ inside (begin op)
  same : next.object ≡ t.object
  kept : (j : ℕ) → i ≢ j → next.pc j ≡ t.pc j

-- The step by which a goroutine that has announced itself takes the mutex.
lock_step :
    (i : ℕ) (op : Op) (t : System)
    → t.pc i ≡ called op
    → is_read op ≡ false
    → acquire t.object.container ≡ ok tt
    → t.mutex.writer ≡ none
    → t.mutex.pending ≡ some i
    → ((j : ℕ) → t.mutex.reader j ≡ false)
    → IsBegun i op t
lock_step i op t e w made free mine unread = record {
  next = record t {
    mutex = record t.mutex { writer = some i; pending = none };
    pc = put i (inside (begin op)) t.pc;
  };
  steps = λ u rs run. before (lock i op e w made free mine unread) run;
  there = put_self i (inside (begin op)) t.pc;
  same = refl;
  kept = λ j ne. put-ne i j (inside (begin op)) t.pc ne;
}

-- No other goroutine has begun to take the mutex alone: none has, or the goroutine itself, to write.
abbrev pub IsNext : ℕ → Op → System → Type 0
IsNext i op t = (t.mutex.pending ≡ none) ⊎ ((t.mutex.pending ≡ some i) × (is_read op ≡ false))

-- The steps by which a goroutine that waits takes the mutex.
begin_steps :
    (i : ℕ) (op : Op) (t : System)
    → t.pc i ≡ called op
    → acquire t.object.container ≡ ok tt
    → t.mutex.writer ≡ none
    → ((j : ℕ) → t.mutex.reader j ≡ false)
    → IsNext i op t
    → IsBegun i op t
begin_steps i op t e made free unread (inr (mine, w)) = lock_step i op t e w made free mine unread
begin_steps i op t e made free unread (inl unclaimed) = elim (Bool-cases (is_read op)) [
  | inl r ↦ record {
    next = record t {
      mutex = record t.mutex { reader = put i true t.mutex.reader };
      pc = put i (inside (begin op)) t.pc;
    };
    steps = λ u rs run. before (r_lock i op e r made free unclaimed) run;
    there = put_self i (inside (begin op)) t.pc;
    same = refl;
    kept = λ j ne. put-ne i j (inside (begin op)) t.pc ne;
  }
  | inr w ↦
      let u = record t { mutex = record t.mutex { pending = some i } } in
      let b = lock_step i op u e w made free refl unread in
      record {
        next = b.next;
        steps = λ v rs run. before (announce i op e w made free unclaimed) (b.steps v rs run);
        there = b.there;
        same = b.same;
        kept = b.kept;
      }
]

module _ (s t : System) (rs : List Return) (whole : IsWhole s.object) (quiet : IsQuiet s)
    (run : Steps s rs t) (i : ℕ) (op : Op) where
  ordered : IsOrdered (after rs (seen s.object)) t
  ordered = (Steps-IsOrdered (seen s.object) run (IsQuiet-IsOrdered s whole quiet)).1

  -- A goroutine that has the mutex of a shared container needs no other one to end its call: it
  -- neither waits nor panics before it has given the mutex back. At first the container has its
  -- mutex and a map, and nobody is in a call.
  pub shared-Finishes : current (t.pc i) ≡ some op → Finishes i op t
  shared-Finishes c = current-Finishes i op (t.pc i) t ordered.whole refl c

  -- A goroutine that waits for the mutex of a shared container takes it and ends its call, with no
  -- step of another one, as soon as all others are outside of their calls or wait too, and nobody has
  -- begun to take the mutex alone, or the goroutine has itself, to write. At first the container has
  -- its mutex and a map, and nobody is in a call.
  pub shared_waits :
      t.pc i ≡ called op → ((j : ℕ) → current (t.pc j) ≡ none) → IsNext i op t → Finishes i op t
  unfolding acquire
  shared_waits e outside first =
      let free : t.mutex.writer ≡ none = elim (Option-cases t.mutex.writer) [
        | inl f ↦ f
        | inr (j, w) ↦ absurd (ordered.held j w (outside j))
      ] in
      let unread : (j : ℕ) → t.mutex.reader j ≡ false = λ j. elim (Bool-cases (t.mutex.reader j)) [
        | inl r ↦ absurd (ordered.sharing j r (outside j))
        | inr f ↦ f
      ] in
      let b = begin_steps i op t e (rw ordered.whole.ready.locks refl) free unread first in
      let f =
        inside-Finishes i (begin op) b.next (subst IsWhole (sym b.same) ordered.whole) b.there in
      record {
        last = f.last;
        answer = f.answer;
        run = b.steps f.last _ f.run;
        ended = f.ended;
        others = λ j ne. f.others j ne ∙ b.kept j ne;
      }
