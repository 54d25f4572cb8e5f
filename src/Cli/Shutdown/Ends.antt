-- ===== src/Cli/Shutdown/Ends.antt =====
-- With which code the process exits.
use gpgfs.Base.{subst, ℕ, zero, suc, ◌≡◌, ◌≢◌, refl, ◌⊎◌, inl, inr, true, false, none, some}
use gpgfs.Cli.Shutdown.{
  Event, context_done, component, stop_signal, user_signal, config_update, looping, waiting, exited,
  State, handle, Step, received, finalized, finished, timed_out, expired, profiled, unprofiled,
  Steps, start, then,
}

-- As long as `done` is open, the components run, and the process has not exited with 0, if there is
-- no goroutine of a profiler.
IsHeld : State → Type 0
IsHeld s = (s.profiling ≡ false) × ((s.done ≡ true) ⊎ ((s.running ≢ 0) × (s.phase ≢ exited 0)))

handle-IsHeld : (e : Event) (s : State) → IsHeld s → IsHeld (handle e s)
unfolding IsHeld handle
handle-IsHeld context_done s (f, inl d) = (f, inl d)
handle-IsHeld context_done s (f, inr (r, p)) = (f, inr (r, λ h. cc))
handle-IsHeld (component none) s h = h
handle-IsHeld (component (some e)) s (f, inl d) = (f, inl d)
handle-IsHeld (component (some e)) s (f, inr (r, p)) = (f, inr (r, λ h. cc))
handle-IsHeld stop_signal s (f, h) = (f, inl refl)
handle-IsHeld user_signal s h = h
handle-IsHeld config_update s h = h

Step-IsHeld : {s t : State} → Step s t → IsHeld s → IsHeld t
unfolding IsHeld
Step-IsHeld (expired a) h = h
Step-IsHeld {s} (received e p y) h = handle-IsHeld e s h
Step-IsHeld (finalized a d r) (f, h) = (f, inl d)
Step-IsHeld (finished p r) (f, inl d) = (f, inl d)
Step-IsHeld (finished p r) (f, inr (ne, q)) = absurd (ne r)
Step-IsHeld (timed_out p) (f, inl d) = (f, inl d)
Step-IsHeld (timed_out p) (f, inr (r, q)) = (f, inr (r, λ h. cc))
Step-IsHeld (profiled a e p) (f, h) = absurd (cc)
Step-IsHeld (unprofiled a e p) (f, h) = absurd (cc)

Steps-IsHeld : {s t : State} → Steps s t → IsHeld s → IsHeld t
Steps-IsHeld start h = h
Steps-IsHeld (then c e) h = Step-IsHeld e (Steps-IsHeld c h)

-- A process without profilers that is in the loop while components are running exits with 0 only after `done` was
-- closed, so after a signal that stops it.
pub exit_closes :
    {s t : State}
    → s.profiling ≡ false
    → s.running ≢ 0
    → s.phase ≡ looping
    → Steps s t
    → t.phase ≡ exited 0
    → t.done ≡ true
unfolding IsHeld
exit_closes {s} {t} f r p c x = elim (Steps-IsHeld c (f, inr (r, λ h. cc))).1 [
  | inl d ↦ d
  | inr (r', q) ↦ absurd (q x)
]

-- Behind the loop nothing closes `done`.
IsStuck : State → Type 0
IsStuck s =
    (s.profiling ≡ false)
    × (s.done ≡ false)
    × (s.running ≢ 0)
    × ((s.phase ≡ waiting) ⊎ (s.phase ≡ exited 1))

Step-IsStuck : {s t : State} → Step s t → IsStuck s → IsStuck t
unfolding IsStuck
Step-IsStuck (expired a) h = h
Step-IsStuck (received e p y) (f, d, r, inl q) = absurd (cc)
Step-IsStuck (received e p y) (f, d, r, inr q) = absurd (cc)
Step-IsStuck (finalized a x y) (f, d, r, q) = absurd (cc)
Step-IsStuck (finished p x) (f, d, r, q) = absurd (r x)
Step-IsStuck (timed_out p) (f, d, r, q) = (f, d, r, inr refl)
Step-IsStuck (profiled a e p) (f, d, r, q) = absurd (cc)
Step-IsStuck (unprofiled a e p) (f, d, r, q) = absurd (cc)

Steps-IsStuck : {s t : State} → Steps s t → IsStuck s → IsStuck t
Steps-IsStuck start h = h
Steps-IsStuck (then c e) h = Step-IsStuck e (Steps-IsStuck c h)

-- When the context ends while components are running and `done` is open, in a process without the
-- goroutines of `--profile` and `--trace`, the components are never finalized: the process waits, or
-- has exited by the timer of the grace time with the code 1.
pub context_done-stuck :
    (s : State) {t : State}
    → s.profiling ≡ false
    → s.done ≡ false
    → s.running ≢ 0
    → Steps (handle context_done s) t
    → (t.running ≢ 0) × ((t.phase ≡ waiting) ⊎ (t.phase ≡ exited 1))
unfolding IsStuck handle
context_done-stuck s f d r c = let (_, _, r', q) = Steps-IsStuck c (f, d, r, inl refl) in (r', q)

before : {s t u : State} → Step s t → Steps t u → Steps s u
before e start = then start e
before e (then c f) = then (before e c) f

drain :
    (n : ℕ) (s : State)
    → s.phase ≡ waiting
    → s.done ≡ true
    → s.running ≡ n
    → Steps s (record s { phase = exited 0; running = 0 })
drain zero s p d r =
    subst (λ n. Steps s (record s { phase = exited 0; running = n })) r (then start (finished p r))
drain (suc n) s p d r =
    before (finalized (λ code e. cc) d r) (drain n (record s { running = n }) p d refl)

-- A stop signal in the loop lets every component finish, however many there are: a run leads to
-- the exit with 0 with none of them left.
pub stop_signal-exits :
    (s : State)
    → s.phase ≡ looping
    → Steps s (record s { phase = exited 0; done = true; running = 0 })
unfolding handle
stop_signal-exits s p =
    before (received stop_signal p tt) (drain s.running (handle stop_signal s) refl refl refl)
