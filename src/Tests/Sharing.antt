-- ===== src/Tests/Sharing.antt =====
-- Two goroutines that share a container: one copies it, and the other one reads and returns while
-- the copy is made.
use gpgfs.Base.{inl, ℕ, ◌≡◌, refl, true, false, none, some, List, [], ◌∷◌, arith}
use gpgfs.Crypto.Container.{acquire}
use gpgfs.Crypto.Container.Calls.{Object, op_get, op_data, value, view, replay}
use gpgfs.Crypto.Container.Calls.Refines.{IsWhole}
use gpgfs.Crypto.Container.Shared.{
  idle, called, inside, leaving, begin, copying, System, Return, put, Steps, start, later, call,
  r_lock, go, access, r_unlock, IsQuiet, answers_of, ops_of,
}
use gpgfs.Crypto.Container.Shared.Abstract.{current}
use gpgfs.Crypto.Container.Shared.Linear.{period, period_of, shared_linearizes, shared_settles}
use gpgfs.Crypto.Container.Shared.Progress.{Finishes, shared_waits}
use gpgfs.Tests.Crypto.{container, store, container-IsReady}

abbrev object : Object
object = record { container = container; store = store }

object-IsWhole : IsWhole object
object-IsWhole = record { address = 0; ready = container-IsReady; known = omega arith }

abbrev quiet : System
quiet = record {
  mutex = record { writer = none; reader = λ i. false; pending = none };
  object = object;
  pc = λ i. idle;
}

quiet-IsQuiet : IsQuiet quiet
quiet-IsQuiet = record { resting = λ i. refl; unwritten = refl; unread = λ i. refl }

-- Goroutine 0 has called `Data`.
abbrev asked : System
asked = record quiet { pc = put 0 (called op_data) quiet.pc }

asks : Steps quiet [] asked
asks = later start (call 0 op_data refl)

abbrev entered : System
entered = record asked {
  mutex = record asked.mutex { reader = put 0 true asked.mutex.reader };
  pc = put 0 (inside (begin op_data)) asked.pc;
}

abbrev both : System
both = record entered { pc = put 1 (called (op_get 1)) entered.pc }

abbrev reading : System
reading = record both {
  mutex = record both.mutex { reader = put 1 true both.mutex.reader };
  pc = put 1 (inside (begin (op_get 1))) both.pc;
}

abbrev copies : System
copies = record reading { pc = put 0 (inside (copying (1 ∷ []) [])) reading.pc }

abbrev read : System
read = record copies { pc = put 1 (leaving (op_get 1) (value (some (2 ∷ [])))) copies.pc }

abbrev given_back : System
given_back = record read {
  mutex = record read.mutex { reader = put 1 false read.mutex.reader };
  pc = put 1 idle read.pc;
}

abbrev returns : List Return
returns = record { caller = 1; op = op_get 1; answer = value (some (2 ∷ [])) } ∷ []

runs : Steps quiet returns given_back
unfolding acquire access
runs =
    later
      (later
        (later
          (later
            (later (later asks (r_lock 0 op_data refl refl refl refl refl))
              (call 1 (op_get 1) refl))
            (r_lock 1 (op_get 1) refl refl refl refl refl))
          (go 0 (begin op_data) (inside (copying (1 ∷ []) [])) object refl refl))
        (go 1 (begin (op_get 1)) (leaving (op_get 1) (value (some (2 ∷ [])))) object refl refl))
      (r_unlock 1 (op_get 1) (value (some (2 ∷ []))) refl refl)

shared_linearizes_example : answers_of returns ≡ (replay (ops_of returns) (view object)).0
shared_linearizes_example =
    shared_linearizes quiet given_back returns object-IsWhole quiet-IsQuiet runs

shared_settles_example :
    (view object ≡ (replay (ops_of returns) (view object)).1)
    × (period_of object ≡ period (ops_of returns) (period_of object))
shared_settles_example =
    shared_settles quiet given_back returns object-IsWhole quiet-IsQuiet runs refl

nobody_inside : (j : ℕ) → current (asked.pc j) ≡ none
nobody_inside j = ground arith

shared_waits_example : Finishes 0 op_data asked
shared_waits_example =
    shared_waits quiet asked [] object-IsWhole quiet-IsQuiet asks 0 op_data refl nobody_inside
      (inl refl)
