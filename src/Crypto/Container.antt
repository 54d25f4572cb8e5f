-- ===== src/Crypto/Container.antt =====
-- pkg/crypto/container: the container, its payload and its validity. Payloads are Go maps, which
-- are shared by reference, so they stand in a store.
pub mod Access
pub mod Validity
pub mod Codec
pub mod Calls
pub mod Shared
use gpgfs.Base.{
  ℕ, suc, ◌<◌, ◌≡◌, Bool, true, false, List, [], ◌∷◌, Option, none, some, Result, ok, panic, ◌>>=◌,
  ◌>>◌, ◌==◌, if◌then◌else◌,
}
use gpgfs.Base.Int.{ℤ, ◌+ℤ◌, leb_ℤ}

abbrev pub Bytes : Type 0
Bytes = List ℕ

-- The entries of a map, in some order; the first entry of a key is the one that counts.
abbrev pub Payload : Type 0
Payload = List (ℕ × Bytes)

unfoldable pub lookup : ℕ → Payload → Option Bytes
lookup key [] = none
lookup key ((name, value) ∷ rest) = if name == key then some value else lookup key rest

-- `m[key] = value`
unfoldable pub insert : ℕ → Bytes → Payload → Payload
insert key value [] = (key, value) ∷ []
insert key value ((name, old) ∷ rest) =
    let inserted = insert key value rest in
    if name == key then (key, value) ∷ rest else (name, old) ∷ inserted

-- `delete(m, key)`
unfoldable pub erase : ℕ → Payload → Payload
erase key [] = []
erase key ((name, old) ∷ rest) =
    let erased = erase key rest in if name == key then erased else (name, old) ∷ erased

-- `for k, v := range m { p[k] = v }`, the entries taken from the last to the first.
unfoldable pub copy_into : Payload → Payload → Payload
unfolding insert
copy_into [] p = p
copy_into ((k, v) ∷ m) p = insert k v (copy_into m p)

-- The maps that have been made, by address.
pub record Store : Type 0 where
  pub maps : ℕ → Payload
  pub next : ℕ

unfoldable pub write : ℕ → Payload → Store → Store
write r m st = record st { maps = λ q. if q == r then m else st.maps q }

-- `make(Payload)`, filled with these entries.
unfoldable pub alloc : Payload → Store → ℕ × Store
unfolding write
alloc m st = (st.next, record (write st.next m st) { next = suc st.next })

-- `Version`
abbrev pub current_version : ℕ
current_version = 0

-- Times are points on the line of integers. `lock` says that the pointer to the mutex is not nil;
-- a nil payload is `none`.
pub record Container : Type 0 where
  pub lock : Bool
  pub version : ℕ
  pub valid_after : ℤ
  pub valid_before : ℤ
  pub payload : Option ℕ

-- `s.lock.Lock()`; the deferred unlock follows on every way out.
unfoldable pub acquire : Container → Result (Unit {0})
acquire s = if s.lock then ok tt else panic "invalid memory address or nil pointer dereference"

-- Reading a nil map finds nothing.
unfoldable pub entries : Store → Option ℕ → Payload
entries st none = []
entries st (some r) = st.maps r

-- `Refresh`
unfoldable pub refresh : Container → ℤ → ℤ → Result Container
unfolding acquire
refresh s valid_after valid_before = do
  acquire s
  ok (record s { valid_after = valid_after; valid_before = valid_before })

-- `Get`
unfoldable pub get : Container → Store → ℕ → Result (Option Bytes)
unfolding acquire entries lookup
get s st key = do acquire s; ok (lookup key (entries st s.payload))

assign : Option ℕ → Store → ℕ → Bytes → Result Store
assign none st key value = panic "assignment to entry in nil map"
assign (some r) st key value = ok (write r (insert key value (st.maps r)) st)

-- `Set`
unfoldable pub set : Container → Store → ℕ → Bytes → Result Store
unfolding acquire assign write insert
set s st key value = do acquire s; assign s.payload st key value

delete : Option ℕ → Store → ℕ → Store
delete none st key = st
delete (some r) st key = write r (erase key (st.maps r)) st

is_some : Option Bytes → Bool
is_some none = false
is_some (some v) = true

-- `Del`: whether the key was there, and the store afterwards.
unfoldable pub del : Container → Store → ℕ → Result (Bool × Store)
unfolding acquire entries lookup is_some delete write erase
del s st key = do
  acquire s
  let found = is_some (lookup key (entries st s.payload))
  ok (if found then (found, delete s.payload st key) else (found, st))

-- `Clean`: a new map takes the place of the old one.
unfoldable pub clean : Container → Store → Result (Container × Store)
unfolding acquire alloc
clean s st = do acquire s; let made = alloc [] st; ok (record s { payload = some made.0 }, made.1)

-- `Data`: a copy of the payload, in a map of its own.
unfoldable pub payload_data : Container → Store → Result (ℕ × Store)
unfolding acquire entries alloc copy_into
payload_data s st = do acquire s; ok (alloc (copy_into (entries st s.payload) []) st)

-- `New`: the container's map is a copy of the argument's, which may be nil.
unfoldable pub new : ℤ → ℤ → Option ℕ → Store → Container × Store
unfolding entries alloc copy_into
new valid_after ttl payload st =
    let made = alloc (copy_into (entries st payload) []) st in
    (
      record {
        lock = true;
        version = current_version;
        valid_after = valid_after;
        valid_before = valid_after +ℤ ttl;
        payload = some made.0;
      },
      made.1,
    )
