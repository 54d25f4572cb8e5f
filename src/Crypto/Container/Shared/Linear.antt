-- ===== src/Crypto/Container/Shared/Linear.antt =====
-- The calls that have returned are a sequence of whole calls of a mapping.
use gpgfs.Base.{◌≡◌, refl, sym, ap, ◌∙◌, none, List, [], ◌∷◌, ◌++◌}
use gpgfs.Base.Int.{ℤ}
use gpgfs.Crypto.Container.Calls.{
  Object, Op, op_refresh, op_get, op_set, op_del, op_clean, op_data, answer, effect, view, replay,
}
use gpgfs.Crypto.Container.Calls.Refines.{IsWhole}
use gpgfs.Crypto.Container.Shared.{
  Return, System, Step, call, announce, lock, r_lock, go, unlock, r_unlock, Steps, start, later,
  IsQuiet, answers_of, ops_of,
}
use gpgfs.Crypto.Container.Shared.Abstract.{Abstract, seen, act, current}
use gpgfs.Crypto.Container.Shared.Invariant.{
  IsOrdered, call-IsOrdered, announce-IsOrdered, lock-IsOrdered, r_lock-IsOrdered, go-IsOrdered,
  unlock-IsOrdered, r_unlock-IsOrdered,
}

-- Each call answers what the calls before it have led to.
pub Answers : List Return → Abstract → Type 0
Answers [] a = Unit {0}
Answers (r ∷ rs) a = (r.answer ≡ answer r.op a.mapping) × Answers rs (act r.op a)

pub after : List Return → Abstract → Abstract
after [] a = a
after (r ∷ rs) a = after rs (act r.op a)

Answers-append :
    (rs qs : List Return) (a : Abstract)
    → Answers rs a
    → Answers qs (after rs a)
    → Answers (rs ++ qs) a
unfolding Answers after
Answers-append [] qs a x y = y
Answers-append (r ∷ rs) qs a (e, x) y = (e, Answers-append rs qs (act r.op a) x y)

after-append : (rs qs : List Return) (a : Abstract) → after (rs ++ qs) a ≡ after qs (after rs a)
unfolding after
after-append [] qs a = refl
after-append (r ∷ rs) qs a = after-append rs qs (act r.op a)

Step-IsOrdered :
    {s t : System} {rs : List Return} (a : Abstract)
    → Step s rs t
    → IsOrdered a s
    → Answers rs a × IsOrdered (after rs a) t
unfolding Answers after
Step-IsOrdered {s} a (call i op e) h = (tt, call-IsOrdered a s h i op e)
Step-IsOrdered {s} a (announce i op e w made free first) h = (tt, announce-IsOrdered a s h i)
Step-IsOrdered {s} a (lock i op e w made free mine unread) h =
    (tt, lock-IsOrdered a s h i op w free unread)
Step-IsOrdered {s} a (r_lock i op e r made free unclaimed) h =
    (tt, r_lock-IsOrdered a s h i op r free)
Step-IsOrdered {s} a (go i b p o e made) h = (tt, go-IsOrdered a s h i b p o e made)
Step-IsOrdered {s} a (unlock i op x e w) h =
    let (q, k) = unlock-IsOrdered a s h i op x e w in ((q, tt), k)
Step-IsOrdered {s} a (r_unlock i op x e r) h =
    let (q, k) = r_unlock-IsOrdered a s h i op x e r in ((q, tt), k)

pub Steps-IsOrdered :
    {s t : System} {rs : List Return} (a : Abstract)
    → Steps s rs t
    → IsOrdered a s
    → Answers rs a × IsOrdered (after rs a) t
unfolding Answers after
Steps-IsOrdered a start h = (tt, h)
Steps-IsOrdered a (later {t} {u} {done} {more} run e) h =
    let (x, k) = Steps-IsOrdered a run h in
    let (y, l) = Step-IsOrdered (after done a) e k in
    (Answers-append done more a x y, rw (after-append done more a) l)

-- A container that is whole, with nobody in a call, is ordered by what it is.
pub IsQuiet-IsOrdered : (s : System) → IsWhole s.object → IsQuiet s → IsOrdered (seen s.object) s
IsQuiet-IsOrdered s whole q = record {
  whole = whole;
  writing = λ i op e w. let out = sym (ap current (q.resting i)) ∙ e in absurd (cc);
  reading = λ i op e r. let out = sym (ap current (q.resting i)) ∙ e in absurd (cc);
  alone = λ i j e. q.unread j;
  steady = λ e. (refl, refl, refl);
  held = λ i e. let free = q.unwritten in absurd (cc);
  sharing = λ i e. let free = q.unread i in absurd (cc);
  each = λ i. rw (q.resting i) tt;
}

act-mapping : (op : Op) (a : Abstract) → (act op a).mapping ≡ effect op a.mapping
act-mapping (op_refresh x y) a = refl
act-mapping (op_get key) a = refl
act-mapping (op_set key v) a = refl
act-mapping (op_del key) a = refl
act-mapping op_clean a = refl
act-mapping op_data a = refl

Answers-replay :
    (rs : List Return) (a : Abstract)
    → Answers rs a
    → (answers_of rs ≡ (replay (ops_of rs) a.mapping).0)
      × ((after rs a).mapping ≡ (replay (ops_of rs) a.mapping).1)
unfolding Answers after replay
Answers-replay [] a x = (refl, refl)
Answers-replay (r ∷ rs) a (e, x) =
    let (answers, m) = Answers-replay rs (act r.op a) x in
    let q = ap (replay (ops_of rs)) (act-mapping r.op a) in
    (rw (e, answers, q) refl, m ∙ ap (λ p. p.1) q)

-- From when to when the last `Refresh` makes the container valid.
abbrev refreshed : Op → ℤ × ℤ → ℤ × ℤ
refreshed (op_refresh x y) w = (x, y)
refreshed (op_get key) w = w
refreshed (op_set key v) w = w
refreshed (op_del key) w = w
refreshed op_clean w = w
refreshed op_data w = w

pub period : List Op → ℤ × ℤ → ℤ × ℤ
period [] w = w
period (op ∷ ops) w = period ops (refreshed op w)

abbrev pub period_of : Object → ℤ × ℤ
period_of o = (o.container.valid_after, o.container.valid_before)

act-refreshed :
    (op : Op) (a : Abstract)
    → ((act op a).valid_after, (act op a).valid_before)
      ≡ refreshed op (a.valid_after, a.valid_before)
act-refreshed (op_refresh x y) a = refl
act-refreshed (op_get key) a = refl
act-refreshed (op_set key v) a = refl
act-refreshed (op_del key) a = refl
act-refreshed op_clean a = refl
act-refreshed op_data a = refl

after-period :
    (rs : List Return) (a : Abstract)
    → ((after rs a).valid_after, (after rs a).valid_before)
      ≡ period (ops_of rs) (a.valid_after, a.valid_before)
unfolding after period
after-period [] a = refl
after-period (r ∷ rs) a =
    after-period rs (act r.op a) ∙ ap (period (ops_of rs)) (act-refreshed r.op a)

module _ (s t : System) (rs : List Return) (whole : IsWhole s.object) (quiet : IsQuiet s)
    (run : Steps s rs t) where
  -- However the accesses of goroutines that share a container interleave, the calls that have
  -- returned have answered what a mapping of keys to values answers to the same calls, one after
  -- the other in the order in which they gave the mutex back. At first the container has its mutex
  -- and a map, and nobody is in a call.
  pub shared_linearizes : answers_of rs ≡ (replay (ops_of rs) (view s.object)).0
  shared_linearizes =
      (Answers-replay rs (seen s.object)
        (Steps-IsOrdered (seen s.object) run (IsQuiet-IsOrdered s whole quiet)).0).0

  -- Whenever nobody writes, a shared container holds what the calls that have returned lead to, and
  -- is valid from when to when the last `Refresh` of them says, both ends from one call. At first
  -- the container has its mutex and a map, and nobody is in a call.
  pub shared_settles :
      t.mutex.writer ≡ none
      → (view t.object ≡ (replay (ops_of rs) (view s.object)).1)
        × (period_of t.object ≡ period (ops_of rs) (period_of s.object))
  shared_settles free =
      let (answers, ordered) =
        Steps-IsOrdered (seen s.object) run (IsQuiet-IsOrdered s whole quiet) in
      let (m, x, y) = ordered.steady free in
      (
        m ∙ (Answers-replay rs (seen s.object) answers).1,
        (λ i. (x i, y i)) ∙ after-period rs (seen s.object),
      )
