-- ===== src/Tests/Traces.antt =====
-- Sequences of calls of a container, of a walk that skips a branch, and of updates.
use gpgfs.Base.{
  ◌≤◌, ◌≡◌, refl, true, false, none, some, List, [], ◌∷◌, ◌++◌, ok, length, arith, zero,
}
use gpgfs.Std.Strings.{Str, codes}
use gpgfs.Crypto.Container.Calls.{
  Object, Op, op_get, op_set, op_del, op_data, op_clean, view, run, replay,
}
use gpgfs.Crypto.Container.Calls.Refines.{IsWhole, run_refines}
use gpgfs.Reflect.Walk.{
  leaf, pointer, fields, Fields, end, field, skip_branch, Callback, finish, walk_struct,
}
use gpgfs.Reflect.Walk.Scan.{scan, entries, walk_struct-eq-scan}
use gpgfs.Bus.{
  ConfigUpdate, History, quiet, Steps, log_update, start, then, log_sent, taken, waiting,
  Steps-ordered,
}
use gpgfs.Tests.Crypto.{container, store, container-IsReady}

abbrev object : Object
object = record { container = container; store = store }

object-IsWhole : IsWhole object
object-IsWhole = record { address = 0; ready = container-IsReady; known = omega arith }

abbrev ops : List Op
ops = op_set 4 (8 ∷ []) ∷ op_del 1 ∷ op_get 1 ∷ op_data ∷ op_clean ∷ op_get 4 ∷ []

run_refines_example :
    (o : Object) × (run ops object ≡ ok ((replay ops (view object)).0, o))
    × IsWhole o
    × (view o ≡ (replay ops (view object)).1)
run_refines_example = run_refines ops object object-IsWhole

-- The callback notes the paths and never goes below.
abbrev skipping : Callback (List (List Str))
skipping v path seen = (path ∷ seen, skip_branch)

abbrev nested : Fields
nested =
    field (codes "Log") true (pointer (fields (field (codes "Level") true (leaf 0) end)))
      (field (codes "lock") false (leaf 1) end)

walk_struct-eq-scan_example :
    (walk_struct skipping (fields nested) []
      ≡ some (finish skipping (scan skipping zero (entries (fields nested) []) [])))
    × (walk_struct skipping (pointer (fields nested)) []
        ≡ some (finish skipping (scan skipping zero (entries (fields nested) []) [])))
walk_struct-eq-scan_example = walk_struct-eq-scan skipping nested []

abbrev update : ConfigUpdate Str
update = record { subsystem = codes "log"; config = codes "debug" }

abbrev received : History Str
received = record { sent = update ∷ []; received = update ∷ []; channel = none }

steps : Steps quiet received
unfolding log_update
steps = then (then start (log_sent (codes "debug") (some update) refl)) (taken update none refl)

Steps-ordered_example :
    (received.sent ≡ received.received ++ waiting received.channel)
    × (length (waiting received.channel) ≤ 1)
Steps-ordered_example = Steps-ordered received steps
