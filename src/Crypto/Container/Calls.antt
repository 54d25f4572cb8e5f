-- ===== src/Crypto/Container/Calls.antt =====
-- pkg/crypto/container: sequences of calls of one container, and what a map of keys to values
-- would answer.
pub mod Refines
use gpgfs.Base.{
  ℕ, Bool, true, false, Option, none, some, List, [], ◌∷◌, Result, ok, ◌>>=◌, ◌==◌, if◌then◌else◌,
}
use gpgfs.Base.Int.{ℤ}
use gpgfs.Crypto.Container.{
  Bytes, Store, Container, lookup, entries, refresh, get, set, del, clean, payload_data,
}

-- A container and the store of the maps.
pub record Object : Type 0 where
  pub container : Container
  pub store : Store

pub data Op : Type 0 where
  op_refresh : ℤ → ℤ → Op
  op_get : ℕ → Op
  op_set : ℕ → Bytes → Op
  op_del : ℕ → Op
  op_clean : Op
  op_data : Op

-- A map of keys to values: what a container is from outside.
abbrev pub Mapping : Type 0
Mapping = ℕ → Option Bytes

-- What a call returns; of the map that `Data` returns, what it holds then.
pub data Answer : Type 0 where
  nothing : Answer
  value : Option Bytes → Answer
  found : Bool → Answer
  copied : Mapping → Answer

unfoldable pub view : Object → Mapping
view o key = lookup key (entries o.store o.container.payload)

unfoldable pub perform : Op → Object → Result (Answer × Object)
unfolding refresh get set del clean payload_data
perform (op_refresh after before) o = do
  s ← refresh o.container after before
  ok (nothing, record o { container = s })
perform (op_get key) o = do v ← get o.container o.store key; ok (value v, o)
perform (op_set key v) o = do
  st ← set o.container o.store key v
  ok (nothing, record o { store = st })
perform (op_del key) o = do
  (b, st) ← del o.container o.store key
  ok (found b, record o { store = st })
perform op_clean o = do
  (s, st) ← clean o.container o.store
  ok (nothing, record { container = s; store = st })
perform op_data o = do
  (q, st) ← payload_data o.container o.store
  ok (copied (λ key. lookup key (st.maps q)), record o { store = st })

unfoldable pub run : List Op → Object → Result (List Answer × Object)
unfolding perform
run [] o = ok ([], o)
run (op ∷ ops) o = do (a, o1) ← perform op o; (answers, o2) ← run ops o1; ok (a ∷ answers, o2)

-- The same calls of a mapping.
abbrev pub holds : Option Bytes → Bool
holds none = false
holds (some v) = true

abbrev pub update : ℕ → Option Bytes → Mapping → Mapping
update key v m j = if key == j then v else m j

abbrev pub answer : Op → Mapping → Answer
answer (op_refresh after before) m = nothing
answer (op_get key) m = value (m key)
answer (op_set key v) m = nothing
answer (op_del key) m = found (holds (m key))
answer op_clean m = nothing
answer op_data m = copied m

abbrev pub effect : Op → Mapping → Mapping
effect (op_refresh after before) m = m
effect (op_get key) m = m
effect (op_set key v) m = update key (some v) m
effect (op_del key) m = update key none m
effect op_clean m = λ j. none
effect op_data m = m

unfoldable pub replay : List Op → Mapping → List Answer × Mapping
replay [] m = ([], m)
replay (op ∷ ops) m = let (answers, m') = replay ops (effect op m) in (answer op m ∷ answers, m')
