-- ===== src/Server.antt =====
-- pkg/server: the errors of handlers, the error handler, and the middleware that `New` puts around
-- every handler: the logger, the telemetry and the recovery, in this order.
pub mod Requests
pub mod Logger
pub mod Size
pub mod Metrics
pub mod Cors
pub mod Http
pub mod Swagger
pub mod New
use gpgfs.Base.{
  wrap, new, ℕ, ◌-◌, Bool, true, false, Option, none, some, List, [], ◌∷◌, ◌++◌, Error,
  if◌then◌else◌,
}
use gpgfs.Base.Int.{ℤ}
use gpgfs.Std.Strings.{Str, codes, same}
use gpgfs.Server.Size.{Request, approx_request_size}

-- `errors.Error` of pkg/server/errors, without its `Meta`.
pub record ServerError : Type 0 where
  pub code : ℕ
  pub text : Str
  pub cause : Option Error

unfoldable pub new_error : ℕ → Str → Option Error → ServerError
new_error code text cause = record { code = code; text = text; cause = cause }

-- An error that a handler returns: one of echo, of this program, or any other.
pub data Failure : Type 0 where
  http_error : ℕ → Failure
  server_error : ServerError → Failure
  other_error : Error → Failure

-- What a panic carries: an error, or any other value.
pub data Panicked : Type 0 where
  with_error : Failure → Panicked
  with_value : Str → Panicked

pub data Level : Type 0 where
  info error : Level

-- A line of the log of requests: the level, the status, how long the request took, the sizes that
-- came in and went out, and the error; or that of a recovered panic.
pub data Line : Type 0 where
  request : Level → ℕ → ℕ → Str → ℕ → Option Failure → Line
  recovered : Failure → Line

-- What the four metrics of the telemetry are given for a request, with the status, the method and
-- the path as labels: the counter is raised, and the others observe a value each.
pub record Observation : Type 0 where
  pub status : ℕ
  pub method : Str
  pub path : Str
  pub elapsed : ℕ
  pub request_size : ℤ
  pub response_size : ℕ

-- A request in progress: the status and the size of its response and whether it was sent, the
-- requests by address, of which one is that of the context, the nanoseconds of the clock, the log,
-- and what the telemetry was given.
pub record Exchange : Type 0 where
  pub status : ℕ
  pub size : ℕ
  pub committed : Bool
  pub requests : ℕ → Request
  pub current : ℕ
  pub now : ℕ
  pub lines : List Line
  pub counted : List Observation

pub data Outcome : Type 0 where
  returned : Option Failure → Outcome
  panicking : Panicked → Outcome

abbrev pub Handler : Type 0
Handler = Exchange → Exchange × Outcome

-- `http.StatusText`, `fmt.Errorf`, the header `Content-Length` of a request, and the framework:
-- `c.JSON`, and its own error handler. `labels` is what prometheus says of a method and a path as the
-- values of labels, beside a status, which it always takes.
pub record Echo : Type 0 where
  pub status_text : ℕ → Str
  pub errorf : Str → Error
  pub content_length : Request → Str
  pub json : ℕ → Str → Exchange → Exchange
  pub default_handler : ℕ → Exchange → Exchange
  pub labels : Str → Str → Option Error

-- `(*Error).Error`
unfoldable pub error_text : Echo → ServerError → Str
unfolding same
error_text E e = if same e.text [] then E.status_text e.code else e.text

-- `(*Error).Chain`
unfoldable pub chain : Echo → ServerError → Failure
unfolding error_text
chain E e = elim e.cause [
  | none ↦ server_error e
  | some inner ↦ other_error (wrap "%s" (error_text E e ∷ []) inner)
]

module _ (E : Echo) where
  -- `DefaultHTTPErrorHandler`
  unfoldable pub error_handler : Failure → Exchange → Exchange
  unfolding error_text
  error_handler (http_error code) x = E.default_handler code x
  error_handler (server_error e) x = E.json e.code (error_text E e) x
  error_handler (other_error e) x = E.json 500 (E.status_text 500) x

  -- The error of a recovered panic.
  unfoldable pub panic_error : Panicked → Failure
  panic_error (with_error e) = e
  panic_error (with_value v) = other_error (E.errorf v)

  -- How the deferred function of `NewRecover` ends a call; it leaves the result nil.
  recover_from : Exchange × Outcome → Exchange × Outcome
  unfolding panic_error error_handler
  recover_from (x, returned e) = (x, returned e)
  recover_from (x, panicking p) = (
    error_handler (panic_error p) (record x { lines = x.lines ++ recovered (panic_error p) ∷ [] }),
    returned none,
  )

  -- The middleware of `NewRecover`.
  unfoldable pub recover : Handler → Handler
  unfolding recover_from
  recover next x = recover_from (next x)

-- What is given to the metrics, for the exchange before and after the handler, and the path of the
-- request that was the context's before.
unfoldable pub observation : Exchange → Exchange → Str → Observation
observation x y path = record {
  status = y.status;
  method = (y.requests y.current).method;
  path = path;
  elapsed = y.now - x.now;
  request_size = approx_request_size (x.requests x.current);
  response_size = y.size;
}

module _ (E : Echo) where
  -- `WithLabelValues` panics on values that it does not take, with the first metric.
  observe : Exchange → Exchange → Option Failure → Option Str → Exchange × Outcome
  unfolding observation
  observe x y e none = (
    y,
    panicking
        (with_error (other_error (new "invalid memory address or nil pointer dereference" []))),
  )
  observe x y e (some path) = elim (E.labels (y.requests y.current).method path) [
    | none ↦ (record y { counted = y.counted ++ observation x y path ∷ [] }, returned e)
    | some refusal ↦ (y, panicking (with_error (other_error refusal)))
  ]

  -- The metrics are given their values when the handler has returned.
  count : Exchange → Exchange × Outcome → Exchange × Outcome
  unfolding observe
  count x (y, returned e) = observe x y e (y.requests x.current).path
  count x (y, panicking p) = (y, panicking p)

  -- The middleware of `NewTelemetry`.
  unfoldable pub telemetry : Handler → Handler
  unfolding count
  telemetry next x = count x (next x)

unfoldable pub level_of : Option Failure → Level
level_of none = info
level_of (some e) = error

module _ (E : Echo) where
  -- The error of the line: that of the server with what has caused it.
  unfoldable pub logged : Option Failure → Option Failure
  unfolding chain
  logged none = none
  logged (some (server_error e)) = some (chain E e)
  logged (some (http_error code)) = some (http_error code)
  logged (some (other_error e)) = some (other_error e)

  unfoldable pub bytes_in : Request → Str
  unfolding same
  bytes_in r = if same (E.content_length r) [] then codes "0" else E.content_length r

  -- The line is written when the handler has returned.
  log_request : Exchange → Exchange × Outcome → Exchange × Outcome
  unfolding level_of logged bytes_in
  log_request x (y, returned e) =
      let line =
        request (level_of e) y.status (y.now - x.now) (bytes_in (y.requests x.current)) y.size
          (logged e) in
      (record y { lines = y.lines ++ line ∷ [] }, returned e)
  log_request x (y, panicking p) = (y, panicking p)

  -- The middleware of `NewLogger`.
  unfoldable pub logger : Handler → Handler
  unfolding log_request
  logger next x = log_request x (next x)

module _ (E : Echo) where
  -- The framework hands an error that comes out of the middleware to the error handler; `none` is
  -- a panic that nobody recovers.
  answered : Exchange × Outcome → Option Exchange
  unfolding error_handler
  answered (x, returned none) = some x
  answered (x, returned (some e)) = some (error_handler E e x)
  answered (x, panicking p) = none

  -- A request to a server that `New` has made.
  unfoldable pub serve : Handler → Exchange → Option Exchange
  unfolding answered logger telemetry recover
  serve h x = answered (logger E (telemetry E (recover E h)) x)
