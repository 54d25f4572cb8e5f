-- ===== src/Tests/Requests.antt =====
-- A request whose handler fails or panics.
use gpgfs.Base.{
  ℕ, ◌-◌, ◌≡◌, refl, true, false, none, some, [], ◌∷◌, ◌++◌, new, if◌then◌else◌, Bool, ltb, Error,
}
use gpgfs.Base.Int.{pos}
use gpgfs.Std.Strings.{Str, codes}
use gpgfs.Server.Size.{Request, approx_request_size}
use gpgfs.Server.{
  ServerError, server_error, other_error, with_value, info, error, Line, request, recovered,
  Observation, Exchange, returned, panicking, Handler, Echo, chain, bytes_in, observation, serve,
}
use gpgfs.Server.Requests.{
  IsKept, IsEcho, serve-counted, serve-server_error, serve-panic, serve-refused,
}

abbrev send : ℕ → Exchange → Exchange
send code x = record x { status = if x.committed then x.status else code; committed = true }

-- The bytes below 128 alone.
abbrev ascii : Str → Bool
ascii [] = true
ascii (b ∷ bs) = if ltb b 128 then ascii bs else false

abbrev odd_label : Error
odd_label = new "label value %q is not valid UTF-8" []

abbrev echo : Echo
echo = record {
  status_text = λ code. codes "error";
  errorf = λ v. new "%v" (v ∷ []);
  content_length = λ r. [];
  json = λ code message x. send code x;
  default_handler = send;
  labels = λ method path. if ascii path then none else some odd_label;
}

send-IsKept : (code : ℕ) (x : Exchange) → IsKept (send code x) x
send-IsKept code x = record { counted = refl; lines = refl; requests = refl; current = refl }

echo-IsEcho : IsEcho echo
echo-IsEcho = record {
  json = λ c m x. send-IsKept c x;
  json_status = λ c m x h. rw h refl;
  default_handler = send-IsKept;
}

abbrev root : Request
root = record {
  path = some (codes "/");
  method = codes "GET";
  proto = codes "HTTP/1.1";
  header = [];
  host = codes "localhost";
  content_length = pos 0;
}

abbrev fresh : Exchange
fresh = record {
  status = 200;
  size = 0;
  committed = false;
  requests = λ a. root;
  current = 0;
  now = 7;
  lines = [];
  counted = [];
}

-- The handlers take two nanoseconds.
abbrev late : Exchange
late = record fresh { now = 9 }

abbrev not_found : ServerError
not_found = record { code = 404; text = codes "no such thing"; cause = none }

abbrev failing : Handler
failing x = (record x { now = 9 }, returned (some (server_error not_found)))

abbrev crashing : Handler
crashing x = (record x { now = 9 }, panicking (with_value (codes "oops")))

serve-counted_example :
    (z : Exchange) × (o : Observation) × (serve echo crashing fresh ≡ some z)
    × (z.counted ≡ [] ++ o ∷ [])
    × (o.request_size ≡ approx_request_size root)
    × (o.path ≡ codes "/")
    × (o.method ≡ codes "GET")
serve-counted_example =
    serve-counted echo crashing fresh late echo-IsEcho (panicking (with_value (codes "oops")))
      (codes "/") refl refl refl

serve-server_error_example :
    (z : Exchange) × (serve echo failing fresh ≡ some z)
    × (z.status ≡ 404)
    × (z.counted ≡ [] ++ observation fresh late (codes "/") ∷ [])
    × ((observation fresh late (codes "/")).status ≡ 200)
    × (z.lines
        ≡ [] ++ request error 200 (9 - 7) (bytes_in echo root) 0 (some (chain echo not_found)) ∷ [])
serve-server_error_example =
    serve-server_error echo failing fresh late echo-IsEcho not_found (codes "/") refl refl refl refl

serve-panic_example :
    (z : Exchange) × (o : Observation) × (l : Line) × (serve echo crashing fresh ≡ some z)
    × (z.status ≡ 500)
    × (z.counted ≡ [] ++ o ∷ [])
    × (o.status ≡ 500)
    × (z.lines ≡ ([] ++ recovered (other_error (echo.errorf (codes "oops"))) ∷ []) ++ l ∷ [])
    × (took : ℕ) × (read : Str) × (sent : ℕ) × (l ≡ request info 500 took read sent none)
serve-panic_example =
    serve-panic echo crashing fresh late echo-IsEcho (codes "oops") (codes "/") refl refl refl refl

-- `GET /%ff`, whose path is no UTF-8.
abbrev odd : Exchange
odd = record fresh { requests = λ a. record root { path = some (47 ∷ 255 ∷ []) } }

serve-refused_example : serve echo failing odd ≡ none
serve-refused_example =
    serve-refused echo failing odd (record odd { now = 9 }) echo-IsEcho
      (returned (some (server_error not_found))) (47 ∷ 255 ∷ []) odd_label refl refl refl
