-- ===== src/Crypto/Container/Shared.antt =====
-- pkg/crypto/container: a container that goroutines share. Each call waits for the mutex, makes its
-- accesses one at a time, and gives the mutex back; the steps of different goroutines interleave.
pub mod Abstract
pub mod Access
pub mod Invariant
pub mod Linear
pub mod Progress
use gpgfs.Base.{
  ℕ, ◌≡◌, Bool, true, false, Option, none, some, List, [], ◌∷◌, ◌++◌, Result, ok, map, ◌>>=◌, ◌==◌,
  if◌then◌else◌,
}
use gpgfs.Base.Int.{ℤ}
use gpgfs.Crypto.Container.{
  Bytes, Payload, lookup, insert, alloc, acquire, entries, assign, delete, is_some,
}
use gpgfs.Crypto.Container.Calls.{
  Object, Op, op_refresh, op_get, op_set, op_del, op_clean, op_data, Answer, nothing, value, found,
  copied,
}

-- Where a call stands between its two calls of the mutex: before its first access, between the two
-- assignments of `Refresh`, in the branch of `Del` that has found the key, and in the loop of `Data`,
-- with the keys that are left and the map that is made, which no one else has yet.
pub data Body : Type 0 where
  begin : Op → Body
  refreshing : ℤ → ℤ → Body
  deleting : ℕ → Body
  copying : List ℕ → Payload → Body

-- Where a goroutine stands: outside of all calls, waiting for the mutex, inside, and before the
-- deferred unlock.
pub data Pc : Type 0 where
  idle : Pc
  called : Op → Pc
  inside : Body → Pc
  leaving : Op → Answer → Pc

abbrev pub keys : Payload → List ℕ
keys [] = []
keys ((k, v) ∷ m) = k ∷ keys m

abbrev copy_entry : ℕ → Option Bytes → Payload → Payload
copy_entry k none made = made
copy_entry k (some v) made = insert k v made

-- The next access of a call.
unfoldable pub access : Body → Object → Result (Pc × Object)
unfolding lookup insert alloc entries assign delete is_some
access (begin (op_refresh after before)) o = ok (
  inside (refreshing after before),
  record o { container = record o.container { valid_after = after } },
)
access (refreshing after before) o = ok (
  leaving (op_refresh after before) nothing,
  record o { container = record o.container { valid_before = before } },
)
access (begin (op_get key)) o =
    ok (leaving (op_get key) (value (lookup key (entries o.store o.container.payload))), o)
access (begin (op_set key v)) o = do
  st ← assign o.container.payload o.store key v
  ok (leaving (op_set key v) nothing, record o { store = st })
access (begin (op_del key)) o =
    if is_some (lookup key (entries o.store o.container.payload))
    then ok (inside (deleting key), o)
    else ok (leaving (op_del key) (found false), o)
access (deleting key) o =
    ok (
      leaving (op_del key) (found true),
      record o { store = delete o.container.payload o.store key },
    )
access (begin op_clean) o =
    let made = alloc [] o.store in
    ok (
      leaving op_clean nothing,
      record { container = record o.container { payload = some made.0 }; store = made.1 },
    )
access (begin op_data) o = ok (inside (copying (keys (entries o.store o.container.payload)) []), o)
access (copying (k ∷ rest) made) o =
    ok (
      inside (copying rest (copy_entry k (lookup k (entries o.store o.container.payload)) made)),
      o,
    )
access (copying [] made) o = ok (leaving op_data (copied (λ key. lookup key made)), o)

-- `Get` and `Data` take the mutex by `RLock`, the other calls by `Lock`.
abbrev pub is_read : Op → Bool
is_read (op_get key) = true
is_read op_data = true
is_read (op_refresh after before) = false
is_read (op_set key v) = false
is_read (op_del key) = false
is_read op_clean = false

-- sync.RWMutex: the goroutine that holds it alone, those that hold it together, and the one whose
-- call of `Lock` has begun and waits for the readers: "a blocked Lock call excludes new readers from
-- acquiring the lock".
pub record Mutex : Type 0 where
  pub writer : Option ℕ
  pub reader : ℕ → Bool
  pub pending : Option ℕ

-- A call that has returned: by which goroutine, and what it has answered.
pub record Return : Type 0 where
  pub caller : ℕ
  pub op : Op
  pub answer : Answer

pub record System : Type 0 where
  pub mutex : Mutex
  pub object : Object
  pub pc : ℕ → Pc

abbrev pub put {ℓ} : {A : Type ℓ} → ℕ → A → (ℕ → A) → ℕ → A
put i a f j = if i == j then a else f j

-- A step of the goroutine `i`, and the calls that have returned by it.
pub data Step (s : System) : List Return → System → Type 0 where
  call : (i : ℕ) (op : Op) → s.pc i ≡ idle → Step s [] (record s { pc = put i (called op) s.pc })
  announce :
      (i : ℕ) (op : Op)
      → s.pc i ≡ called op
      → is_read op ≡ false
      → acquire s.object.container ≡ ok tt
      → s.mutex.writer ≡ none
      → s.mutex.pending ≡ none
      → Step s [] (record s { mutex = record s.mutex { pending = some i } })
  lock :
      (i : ℕ) (op : Op)
      → s.pc i ≡ called op
      → is_read op ≡ false
      → acquire s.object.container ≡ ok tt
      → s.mutex.writer ≡ none
      → s.mutex.pending ≡ some i
      → ((j : ℕ) → s.mutex.reader j ≡ false)
      → Step s [] (record s {
        mutex = record s.mutex { writer = some i; pending = none };
        pc = put i (inside (begin op)) s.pc;
      })
  r_lock :
      (i : ℕ) (op : Op)
      → s.pc i ≡ called op
      → is_read op ≡ true
      → acquire s.object.container ≡ ok tt
      → s.mutex.writer ≡ none
      → s.mutex.pending ≡ none
      → Step s [] (record s {
        mutex = record s.mutex { reader = put i true s.mutex.reader };
        pc = put i (inside (begin op)) s.pc;
      })
  go :
      (i : ℕ) (b : Body) (p : Pc) (o : Object)
      → s.pc i ≡ inside b
      → access b s.object ≡ ok (p, o)
      → Step s [] (record s { object = o; pc = put i p s.pc })
  unlock :
      (i : ℕ) (op : Op) (a : Answer)
      → s.pc i ≡ leaving op a
      → is_read op ≡ false
      → Step s
          (record { caller = i; op = op; answer = a } ∷ [])
          (record s { mutex = record s.mutex { writer = none }; pc = put i idle s.pc })
  r_unlock :
      (i : ℕ) (op : Op) (a : Answer)
      → s.pc i ≡ leaving op a
      → is_read op ≡ true
      → Step s (record { caller = i; op = op; answer = a } ∷ []) (record s {
        mutex = record s.mutex { reader = put i false s.mutex.reader };
        pc = put i idle s.pc;
      })

-- A run, with the calls that have returned, in the order in which they gave the mutex back.
pub data Steps (s : System) : List Return → System → Type 0 where
  start : Steps s [] s
  later :
      {t u : System} {done more : List Return}
      → Steps s done t
      → Step t more u
      → Steps s (done ++ more) u

-- Nobody is in a call, and the mutex is free.
pub record IsQuiet (s : System) : Type 0 where
  pub resting : (i : ℕ) → s.pc i ≡ idle
  pub unwritten : s.mutex.writer ≡ none
  pub unread : (i : ℕ) → s.mutex.reader i ≡ false

abbrev pub ops_of : List Return → List Op
ops_of rs = map (λ (r : Return). r.op) rs

abbrev pub answers_of : List Return → List Answer
answers_of rs = map (λ (r : Return). r.answer) rs
