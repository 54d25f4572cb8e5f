-- ===== src/Server/New.antt =====
-- pkg/server/server.go: the server that `New` makes.
use gpgfs.Base.{
  ok-injective, >>=-eq-ok, ap, sym, ◌≡◌, Bool, true, Option, List, [], ◌∷◌, Result, ok, ◌>>=◌,
}
use gpgfs.Std.Strings.{Str}
use gpgfs.Server.{Exchange, Handler, Echo, answered, logger, telemetry, recover, serve}
use gpgfs.Server.Metrics.{Registry, new_telemetry}

-- What `New` puts around the handlers, the outermost first; the identifier of a request, which the
-- framework makes, the logger, the telemetry of a subsystem and the recovery.
pub data Middleware : Type 0 where
  request_id : Middleware
  new_logger : Middleware
  telemetry_of : Str → Middleware
  new_recover : Middleware

-- How the framework's server is set up. Its error handler is `DefaultHTTPErrorHandler`.
pub record SetUp : Type 0 where
  pub hide_banner : Bool
  pub middleware : List Middleware

-- `New`; the registrations of `NewTelemetry` may panic.
unfoldable pub new : (G : Registry) → Str → G.State → Result (SetUp × G.State)
unfolding new_telemetry
new G name s = new_telemetry G name s >>= λ t. ok (
  record {
    hide_banner = true;
    middleware = request_id ∷ new_logger ∷ telemetry_of name ∷ new_recover ∷ [];
  },
  t,
)

module _ (E : Echo) where
  around_one : Middleware → Handler → Handler
  around_one request_id h = h
  around_one new_logger h = logger E h
  around_one (telemetry_of name) h = telemetry E h
  around_one new_recover h = recover E h

  -- The framework calls the middleware of a server from the outside in.
  around : List Middleware → Handler → Handler
  around [] h = h
  around (w ∷ ws) h = around_one w (around ws h)

  pub serve_by : SetUp → Handler → Exchange → Option Exchange
  serve_by u h x = answered E (around u.middleware h x)

  -- `serve` is how a server answers that `New` has made.
  pub new-serve :
      (G : Registry) (name : Str) (s t : G.State) (u : SetUp) (h : Handler) (x : Exchange)
      → new G name s ≡ ok (u, t)
      → serve_by u h x ≡ serve E h x
  unfolding serve_by around around_one serve answered new
  new-serve G name s t u h x e =
      let (after, _, done) = >>=-eq-ok (new_telemetry G name s) _ e in
      let made : request_id ∷ new_logger ∷ telemetry_of name ∷ new_recover ∷ [] ≡ u.middleware =
        ap (λ p. p.0.middleware) (ok-injective done) in
      ap (λ ws. answered E (around ws h x)) (sym made)
