-- ===== src/Tests/Shutdown.antt =====
-- A semaphore, and a process with one component.
use gpgfs.Base.{◌≡◌, ◌≢◌, ◌⊎◌, refl, true, false, leb, if◌then◌else◌, arith}
use gpgfs.Base.Int.{pos, negsuc}
use gpgfs.Sync.Semaphore.{Semaphore, post, try_wait, made, panics, blocked, new_semaphore}
use gpgfs.Sync.Semaphore.Counts.{
  Calls, start, posted, taken, IsBalanced, Calls-IsBalanced, new_semaphore_lem,
}
use gpgfs.Cli.Shutdown
use gpgfs.Cli.Shutdown.{
  State, looping, waiting, exited, handle, stop_signal, context_done, component, Steps, received,
  finalized, finished, timed_out,
}
use gpgfs.Cli.Shutdown.Ends.{context_done-stuck}

abbrev one_of_two : Semaphore
one_of_two = record { limit = 2; tokens = 1 }

abbrev both_tokens : Semaphore
both_tokens = record { limit = 2; tokens = 2 }

two-Calls : Calls one_of_two 1 1 one_of_two
unfolding post try_wait
two-Calls = taken (posted start refl) refl

Calls-IsBalanced_example : IsBalanced one_of_two 1 1 one_of_two
Calls-IsBalanced_example = Calls-IsBalanced (omega arith) two-Calls

new_semaphore_lem_example :
    (new_semaphore 3 (pos 1) (pos 2) ≡ (if leb 1 2 then made one_of_two else blocked))
    × (new_semaphore 3 (negsuc 1) (pos 2) ≡ blocked)
    × (new_semaphore 3 (pos 1) (negsuc 2) ≡ panics "makechan: size out of range")
new_semaphore_lem_example = new_semaphore_lem 3 2 1 (omega arith)

-- The context of the process has ended.
abbrev process : State
process = record { phase = looping; done = false; running = 1; ended = true; profiling = false }

abbrev timed : State
timed = record process { phase = exited 1 }

late : Steps (handle context_done process) timed
unfolding handle
late = Shutdown.then Shutdown.start (timed_out refl)

context_done-stuck_example :
    (timed.running ≢ 0) × ((timed.phase ≡ waiting) ⊎ (timed.phase ≡ exited 1))
context_done-stuck_example = context_done-stuck process refl refl (λ e. ground arith) late
