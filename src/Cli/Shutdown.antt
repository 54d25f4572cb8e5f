-- ===== src/Cli/Shutdown.antt =====
-- cli/cli.go: the event loop of MountAction and what follows it, with the goroutines of the
-- components that wait for `done`, and those of cli/pprof.go that wait for the end of the context.
pub mod Ends
use gpgfs.Base.{ℕ, zero, suc, ◌≡◌, ◌≢◌, Bool, true, false, Option, none, some, Error}

-- What the select statement receives: the end of the context, what a component sends over the
-- channel of errors, the signals that stop the program, those that do not, and a configuration.
pub data Event : Type 0 where
  context_done : Event
  component : Option Error → Event
  stop_signal : Event
  user_signal : Event
  config_update : Event

-- The loop; the error that the action returns; `running.Wait()`; the process has exited.
pub data Phase : Type 0 where
  looping : Phase
  returned : Error → Phase
  waiting : Phase
  exited : ℕ → Phase

-- `done` is that the channel is closed, `running` the number in the wait group, `ended` that the
-- context has ended, and `profiling` that a goroutine of `--profile` or `--trace` waits for that.
pub record State : Type 0 where
  pub phase : Phase
  pub done : Bool
  pub running : ℕ
  pub ended : Bool
  pub profiling : Bool

-- One round of the loop.
unfoldable pub handle : Event → State → State
handle context_done s = record s { phase = waiting }
handle (component none) s = s
handle (component (some e)) s = record s { phase = returned e }
handle stop_signal s = record s { phase = waiting; done = true }
handle user_signal s = s
handle config_update s = s

-- What the select statement can receive: the end of the context once it has ended.
abbrev pub IsReady : Event → State → Type 0
IsReady context_done s = s.ended ≡ true
IsReady (component x) s = Unit
IsReady stop_signal s = Unit
IsReady user_signal s = Unit
IsReady config_update s = Unit

-- The process has not exited.
abbrev pub IsAlive : State → Type 0
IsAlive s = (code : ℕ) → s.phase ≢ exited code

-- A step of the timer of the context, of the loop, of a component that sees `done` closed and leaves the wait group, of
-- `running.Wait()` once the group is empty, of the timer of the grace time, and of a goroutine that
-- has written a profile, or has failed to, after the end of the context.
pub data Step (s : State) : State → Type 0 where
  expired : IsAlive s → Step s (record s { ended = true })
  received : (e : Event) → s.phase ≡ looping → IsReady e s → Step s (handle e s)
  finalized :
      {n : ℕ} → IsAlive s → s.done ≡ true → s.running ≡ suc n → Step s (record s { running = n })
  finished : s.phase ≡ waiting → s.running ≡ 0 → Step s (record s { phase = exited 0 })
  timed_out : s.phase ≡ waiting → Step s (record s { phase = exited 1 })
  profiled :
      IsAlive s → s.ended ≡ true → s.profiling ≡ true → Step s (record s { phase = exited 0 })
  unprofiled :
      IsAlive s → s.ended ≡ true → s.profiling ≡ true → Step s (record s { phase = exited 1 })

pub data Steps (s : State) : State → Type 0 where
  start : Steps s s
  then : {t u : State} → Steps s t → Step t u → Steps s u
