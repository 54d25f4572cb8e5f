-- ===== src/Telemetry.antt =====
-- pkg/telemetry/server.go: the server of the telemetry, and its provider in cli/cli.go. The framework,
-- prometheus and the network are parameters.
pub mod Loaded
pub mod Ended
pub mod Counted
pub mod Registry
pub mod Total
use gpgfs.Base.{
  wrap, ℕ, suc, Bool, true, false, if◌then◌else◌, Option, none, some, Result, ok, err, panic, ◌>>=◌,
  List, [], ◌∷◌, Error,
}
use gpgfs.Std.Strings.{Str, codes}
use gpgfs.Config.Sections.{TelemetryConfig, Config}
use gpgfs.Server.Metrics
use gpgfs.Server.New
use gpgfs.Server.New.{SetUp}
use gpgfs.Server.Http.{HttpServer, http_timeout_option, new_http}

-- `metrics` is prometheus' registry, and `metric_handler` promhttp's handler, instrumented, on it.
-- `set_up` is the framework's server that is set up so, whose log lines carry the address;
-- `body_limit` is the framework's middleware; `get` adds a route to a server. `serve_http` is the
-- call of a handler on a writer and a request.
pub record Framework : Type 1 where
  pub metrics : Metrics.Registry
  pub Echo : Type 0
  pub Listener : Type 0
  pub HttpHandler : Type 0
  pub Context : Type 0
  pub listener_addr : Listener → Str
  pub listen : Str → Result Listener
  pub set_up : Str → SetUp → Echo
  pub metric_handler : metrics.State → Result (HttpHandler × metrics.State)
  pub use_listener : Option Listener → Echo → Echo
  pub body_limit : Str → Echo → Echo
  pub get : Str → HttpHandler → Echo → Echo
  pub start_server : Echo → HttpServer → Result (Unit {0})
  pub is_server_closed : Error → Bool
  pub close : Echo → Result (Unit {0})
  pub shutdown : Echo → Result (Unit {0})
  pub serve_http : HttpHandler → Context → Context

module _ (F : Framework) where
  pub record Server : Type 0 where
    pub config : TelemetryConfig
    pub log_listener : Str
    pub srv : F.Echo
    pub handler : F.HttpHandler

  -- The address that the lines of the log carry.
  unfoldable pub listener_text : TelemetryConfig → Option F.Listener → Str
  listener_text c none = c.addr
  listener_text c (some lr) = F.listener_addr lr

  -- `New`. The registrations on the registry may panic.
  unfoldable pub new :
      TelemetryConfig → F.metrics.State → Option F.Listener → Result (Server × F.metrics.State)
  unfolding listener_text New.new
  new c r lr = F.metric_handler r >>= λ (h, r1).
      New.new F.metrics (codes "telemetry") r1 >>= λ (u, r2). ok (
        record {
          config = c;
          log_listener = listener_text c lr;
          srv =
              F.get c.path h
                (F.body_limit (codes "0") (F.use_listener lr (F.set_up (listener_text c lr) u)));
          handler = h;
        },
        r2,
      )

  -- A server that was shut down has no error.
  unfoldable pub ended_serving : Result (Unit {0}) → Result (Unit {0})
  ended_serving (ok u) = ok u
  ended_serving (err e) = if F.is_server_closed e then ok tt else err e
  ended_serving (panic m) = panic m

  -- `ListenAndServe`; the timeouts are behind a pointer.
  unfoldable pub listen_and_serve : Server → Result (Unit {0})
  unfolding ended_serving http_timeout_option new_http
  listen_and_serve s = elim (s.config.timeout) [
    | none ↦ panic "invalid memory address or nil pointer dereference"
    | some t ↦
        ended_serving (F.start_server s.srv (new_http s.config.addr (http_timeout_option t ∷ [])))
  ]

  unfoldable pub handle : Server → F.Context → F.Context
  handle s ctx = F.serve_http s.handler ctx

  unfoldable pub close : Server → Result (Unit {0})
  close s = F.close s.srv

  unfoldable pub shutdown : Server → Result (Unit {0})
  shutdown s = F.shutdown s.srv

  -- The goroutine `start`: what it sends over the channel of errors.
  unfoldable pub start : Server → Result (Option Error)
  unfolding listen_and_serve
  start s = elim (listen_and_serve s) [
    | ok u ↦ ok none
    | err e ↦ ok (some (wrap "failed while listen and serve telemetry server" [] e))
    | panic m ↦ panic m
  ]

  -- The goroutine `finalize` once `done` is closed, before it leaves the wait group.
  unfoldable pub finalize : Server → Result (Unit {0})
  unfolding shutdown
  finalize s = elim (shutdown s) [
    | ok u ↦ ok u
    | err e ↦ panic "telemetry shutdown failed"
    | panic m ↦ panic m
  ]

  -- `net.Listen`, `New` and `running.Add(1)`, before the two goroutines begin.
  pub started : TelemetryConfig → F.metrics.State → ℕ → Result (Option Server × F.metrics.State × ℕ)
  unfolding new
  started t r running =
      F.listen t.addr >>= λ lr. new t r (some lr) >>= λ (s, after). ok (some s, after, suc running)

  pub provide_section :
      Option TelemetryConfig → F.metrics.State → ℕ → Result (Option Server × F.metrics.State × ℕ)
  unfolding started
  provide_section none r running = panic "invalid memory address or nil pointer dereference"
  provide_section (some t) r running =
      if t.enable then started t r running else ok (none, r, running)

  -- The provider: the server, if it is enabled, with the registry and the number in the wait group.
  unfoldable pub provide_telemetry :
      Config → F.metrics.State → ℕ → Result (Option Server × F.metrics.State × ℕ)
  unfolding provide_section
  provide_telemetry c r running = provide_section c.telemetry r running
