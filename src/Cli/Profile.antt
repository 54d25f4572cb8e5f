-- ===== src/Cli/Profile.antt =====
-- cli/pprof.go: the profiling goroutines, with the context that `Before` of cli/cli.go provides and
-- the flags that start them. The runtime's profilers and the files are parameters.
pub mod Written
use gpgfs.Base.{
  ℕ, zero, suc, ◌≡◌, Bool, true, false, Option, none, some, Result, ok, ◌>>=◌, ◌>>◌, if◌then◌else◌,
}
use gpgfs.Base.Int.{ℤ, pos, negsuc}
use gpgfs.Std.Strings.{Str, codes}

-- `os.Create`, `pprof.StartCPUProfile` and `trace.Start`.
pub record Profilers : Type 0 where
  pub create : Str → Result (Unit {0})
  pub start_cpu_profile : Result (Unit {0})
  pub start_trace : Result (Unit {0})

-- A goroutine that waits for the end of the context, and one that has completed its output then: it
-- has written the profiles, or it has stopped the trace. A trace is written in part while it runs,
-- by the runtime, and ended by `trace.Stop`.
pub data Stage : Type 0 where
  off : Stage
  waiting : Stage
  completed : Stage

-- Whether the context has ended, the goroutines of `writeProfile` and `writeTrace`, and the code
-- with which the process has exited.
pub record State : Type 0 where
  pub ended : Bool
  pub profile : Stage
  pub trace : Stage
  pub exit : Option ℕ

-- `if ctx.Bool(flag) { err = c.Invoke(f) }`
abbrev pub flagged : Bool → Result Stage → Result Stage
flagged true f = f
flagged false f = ok off

module _ (P : Profilers) where
  unfoldable pub write_profile : Result Stage
  write_profile =
      P.create (codes "cpu.prof")
      >> (P.create (codes "heap.prof") >> (P.start_cpu_profile >> ok waiting))

  unfoldable pub write_trace : Result Stage
  write_trace = P.create (codes "trace.prof") >> (P.start_trace >> ok waiting)

  -- The end of `Before`, with the flags `profile` and `trace`.
  unfoldable pub start_profilers : Bool → Bool → Result State
  unfolding write_profile write_trace
  start_profilers profile trace = flagged profile write_profile >>= λ p.
      flagged trace write_trace >>= λ t.
      ok (record { ended = false; profile = p; trace = t; exit = none })

-- Whether the context of the flag `duration` ever ends: `context.Background()` does not.
unfoldable pub has_deadline : ℤ → Bool
has_deadline (pos zero) = false
has_deadline (pos (suc n)) = true
has_deadline (negsuc n) = true

-- A step of the timer of the context, of one of the goroutines, or the end of the process for
-- another reason. A process that has exited takes no step.
pub data Step (duration : ℤ) (s : State) : State → Type 0 where
  timer : s.exit ≡ none → has_deadline duration ≡ true → Step duration s (record s { ended = true })
  profile_completed :
      s.exit ≡ none
      → s.ended ≡ true
      → s.profile ≡ waiting
      → Step duration s (record s { profile = completed })
  profile_failed :
      s.exit ≡ none
      → s.ended ≡ true
      → s.profile ≡ waiting
      → Step duration s (record s { exit = some 1 })
  profile_exits :
      s.exit ≡ none → s.profile ≡ completed → Step duration s (record s { exit = some 0 })
  trace_stopped :
      s.exit ≡ none
      → s.ended ≡ true
      → s.trace ≡ waiting
      → Step duration s (record s { trace = completed })
  trace_exits : s.exit ≡ none → s.trace ≡ completed → Step duration s (record s { exit = some 0 })
  ended_otherwise : (code : ℕ) → s.exit ≡ none → Step duration s (record s { exit = some code })

pub data Steps (duration : ℤ) (s : State) : State → Type 0 where
  start : Steps duration s s
  then : {t u : State} → Steps duration s t → Step duration t u → Steps duration s u
