-- ===== src/Cli/Profile/Written.antt =====
-- When the profiles are written and the trace is stopped.
use gpgfs.Base.{
  ℕ, ◌≡◌, ◌≢◌, refl, Bool, true, false, none, some, Result, ok, >>=-eq-ok, >>-eq-ok, subst,
}
use gpgfs.Base.Int.{ℤ, pos}
use gpgfs.Std.Strings.{codes}
use gpgfs.Cli.Profile.{
  flagged, Profilers, Stage, waiting, completed, State, write_profile, write_trace, start_profilers,
  has_deadline, Step, timer, profile_completed, profile_failed, profile_exits, trace_stopped,
  trace_exits, ended_otherwise, Steps, start, then,
}

-- The context goes on, and nothing is completed.
IsIdle : State → Type 0
IsIdle s = (s.ended ≡ false) × (s.profile ≢ completed) × (s.trace ≢ completed)

Step-IsIdle : {s t : State} → Step (pos 0) s t → IsIdle s → IsIdle t
unfolding IsIdle has_deadline
Step-IsIdle (timer x e) h = absurd cc
Step-IsIdle (profile_completed x e p) (idle, np, nt) = absurd cc
Step-IsIdle (profile_failed x e p) (idle, np, nt) = absurd cc
Step-IsIdle (profile_exits x p) (idle, np, nt) = absurd (np p)
Step-IsIdle (trace_stopped x e p) (idle, np, nt) = absurd cc
Step-IsIdle (trace_exits x p) (idle, np, nt) = absurd (nt p)
Step-IsIdle (ended_otherwise code x) h = h

Steps-IsIdle : {s t : State} → Steps (pos 0) s t → IsIdle s → IsIdle t
Steps-IsIdle start h = h
Steps-IsIdle (then c e) h = Step-IsIdle e (Steps-IsIdle c h)

write_profile-waits : (P : Profilers) (p : Stage) → write_profile P ≡ ok p → p ≡ waiting
unfolding write_profile
write_profile-waits P p h =
    let (_, h1) = >>-eq-ok (P.create (codes "cpu.prof")) _ h in
    let (_, h2) = >>-eq-ok (P.create (codes "heap.prof")) _ h1 in
    let (_, h3) = >>-eq-ok P.start_cpu_profile (ok waiting) h2 in cc

write_trace-waits : (P : Profilers) (p : Stage) → write_trace P ≡ ok p → p ≡ waiting
unfolding write_trace
write_trace-waits P p h =
    let (_, h1) = >>-eq-ok (P.create (codes "trace.prof")) _ h in
    let (_, h2) = >>-eq-ok P.start_trace (ok waiting) h1 in cc

-- A goroutine that was not started, or that waits.
flagged-unwritten :
    (b : Bool) (r : Result Stage) (p : Stage)
    → ((q : Stage) → r ≡ ok q → q ≡ waiting)
    → flagged b r ≡ ok p
    → p ≢ completed
flagged-unwritten true r p h e w = let q = h p e in absurd cc
flagged-unwritten false r p h e w = absurd cc

started-IsIdle :
    (P : Profilers) (profile trace : Bool) (s : State)
    → start_profilers P profile trace ≡ ok s
    → IsIdle s
unfolding IsIdle start_profilers
started-IsIdle P profile trace s h =
    let (p, hp, h1) = >>=-eq-ok (flagged profile (write_profile P)) _ h in
    let (t, ht, h2) = >>=-eq-ok (flagged trace (write_trace P)) _ h1 in
    let made : record { ended = false; profile = p; trace = t; exit = none } ≡ s = cc in
    let np = flagged-unwritten profile (write_profile P) p (write_profile-waits P) hp in
    let nt = flagged-unwritten trace (write_trace P) t (write_trace-waits P) ht in
    subst IsIdle made (refl, np, nt)

-- Without the flag `duration`, the context never ends: whatever happens until the process exits,
-- the profiles are not written, and the trace is not stopped.
pub unlimited-completes_nothing :
    (P : Profilers) (profile trace : Bool) (s t : State)
    → start_profilers P profile trace ≡ ok s
    → Steps (pos 0) s t
    → (t.profile ≢ completed) × (t.trace ≢ completed)
unfolding IsIdle
unlimited-completes_nothing P profile trace s t started c =
    let (_, np, nt) = Steps-IsIdle c (started-IsIdle P profile trace s started) in (np, nt)

exited-stuck : (d : ℤ) (c : ℕ) (t u : State) → t.exit ≡ some c → Step d t u → ⊥
exited-stuck d c t _ e (timer x _) = absurd cc
exited-stuck d c t _ e (profile_completed x _ _) = absurd cc
exited-stuck d c t _ e (profile_failed x _ _) = absurd cc
exited-stuck d c t _ e (profile_exits x _) = absurd cc
exited-stuck d c t _ e (trace_stopped x _ _) = absurd cc
exited-stuck d c t _ e (trace_exits x _) = absurd cc
exited-stuck d c t _ e (ended_otherwise code x) = absurd cc

abbrev both : State
both = record { ended = false; profile = waiting; trace = waiting; exit = none }

abbrev profile_only : State
profile_only = record { ended = true; profile = completed; trace = waiting; exit = some 0 }

both-exits : (d : ℤ) → has_deadline d ≡ true → Steps d both profile_only
both-exits d deadline =
    then (then (then start (timer refl deadline)) (profile_completed refl refl refl))
      (profile_exits refl refl)

-- With a deadline and both flags, the process may exit with 0 and the profiles before the trace is
-- stopped, which then never is.
pub profile_first :
    (P : Profilers) (d : ℤ) (s : State)
    → start_profilers P true true ≡ ok s
    → has_deadline d ≡ true
    → (t : State) × Steps d s t
      × (t.exit ≡ some 0)
      × (t.profile ≡ completed)
      × (t.trace ≡ waiting)
      × ((u : State) → Step d t u → ⊥)
unfolding start_profilers
profile_first P d s h deadline =
    let (p, hp, h1) = >>=-eq-ok (write_profile P) _ h in
    let (t, ht, h2) = >>=-eq-ok (write_trace P) _ h1 in
    let ep = write_profile-waits P p hp in
    let et = write_trace-waits P t ht in
    let made : both ≡ s = cc in
    (
      profile_only,
      subst (λ x. Steps d x profile_only) made (both-exits d deadline),
      refl,
      refl,
      refl,
      λ u step. exited-stuck d 0 profile_only u refl step,
    )
