-- ===== src/Telemetry/Loaded.antt =====
-- The telemetry of a loaded configuration.
use gpgfs.Base.{
  ok-injective, Bool, false, if◌then◌else◌, ℕ, suc, ◌≡◌, ◌≢◌, refl, sym, ap, ◌∙◌, true, Option,
  none, some, ok, >>=-eq-ok, List, [],
}
use gpgfs.Std.Strings.{Str, codes}
use gpgfs.Config.Sections.{TelemetryConfig, TimeoutConfig, Config}
use gpgfs.Config.Tree.Complete.{IsPositive, complete_sections}
use gpgfs.Config.Load.{Revip, IsRevip, load}
use gpgfs.Config.Load.Valid.{load-valid}
use gpgfs.Log.{Zerolog, Process}
use gpgfs.Server.New
use gpgfs.Server.Http.{http_timeout_option, new_http}
use gpgfs.Telemetry.{
  started, provide_section, Framework, Server, new, listen_and_serve, ended_serving,
  provide_telemetry,
}

module _ (F : Framework) where
  listen_and_serve-some :
      (s : Server F) (t : TimeoutConfig)
      → s.config.timeout ≡ some t
      → listen_and_serve F s
        ≡ ended_serving F (
            F.start_server s.srv
              (record { addr = s.config.addr; read_timeout = t.read; write_timeout = t.write }))
  unfolding listen_and_serve new_http http_timeout_option
  listen_and_serve-some s t e = rw (listen_and_serve, e) refl

  new-config :
      (c : TelemetryConfig) (r after : F.metrics.State) (lr : Option F.Listener) (s : Server F)
      → new F c r lr ≡ ok (s, after)
      → s.config ≡ c
  unfolding new
  new-config c r after lr s h =
      let ((handler, r1), _, h1) = >>=-eq-ok (F.metric_handler r) _ h in
      let ((e, r2), _, h2) = >>=-eq-ok (New.new F.metrics (codes "telemetry") r1) _ h1 in
      let made = ok-injective h2 in ap (λ p. p.0.config) (sym made)

  pub started-config :
      (t : TelemetryConfig) (r after : F.metrics.State) (running more : ℕ) (s : Server F)
      → started F t r running ≡ ok (some s, after, more)
      → (s.config ≡ t) × (more ≡ suc running)
  unfolding started
  started-config t r after running more s h =
      let (lr, _, h1) = >>=-eq-ok (F.listen t.addr) _ h in
      let ((s', r'), made, h2) = >>=-eq-ok (new F t r (some lr)) _ h1 in
      let same = ok-injective h2 in
      let q : s' ≡ s = cc in (ap (λ x. x.config) (sym q) ∙ new-config t r r' (some lr) s' made, cc)

  if-ok :
      (b : Bool) (t : TelemetryConfig) (r after : F.metrics.State) (running more : ℕ) (s : Server F)
      → (if b then started F t r running else ok (none, r, running)) ≡ ok (some s, after, more)
      → (b ≡ true) × (started F t r running ≡ ok (some s, after, more))
  if-ok true t r after running more s h = (refl, h)
  if-ok false t r after running more s h =
      let e : none ≡ some s = ap (λ p. p.0) (ok-injective h) in absurd cc

  pub provide_section-some :
      (o : Option TelemetryConfig) (r after : F.metrics.State) (running more : ℕ) (s : Server F)
      → provide_section F o r running ≡ ok (some s, after, more)
      → (o ≡ some s.config) × (s.config.enable ≡ true) × (more ≡ suc running)
  unfolding provide_section
  provide_section-some none r after running more s h = absurd cc
  provide_section-some (some t) r after running more s h =
      let (on, begun) = if-ok t.enable t r after running more s h in
      let (e, count) = started-config t r after running more s begun in
      (ap (λ x. some x) (sym e), ap (λ x. x.enable) e ∙ on, count)

  -- A telemetry server is only made for a loaded configuration that enables it, and is counted in
  -- the wait group. It is started with the address of that configuration, which is not empty, and with
  -- the two timeouts of that configuration, which are positive, each in its place. revip loads as it
  -- documents.
  pub provide_telemetry-serves :
      (R : Revip) (Z : Zerolog) (process : Process) (paths : List Str) (c : Config)
      (r after : F.metrics.State) (running more : ℕ) (s : Server F)
      → IsRevip R
      → load R Z process paths [] ≡ ok c
      → provide_telemetry F c r running ≡ ok (some s, after, more)
      → (t : TelemetryConfig) × (o : TimeoutConfig) × (c.telemetry ≡ some t)
        × (t.timeout ≡ some o)
        × (listen_and_serve F s
            ≡ ended_serving F (
                F.start_server s.srv
                  (record { addr = t.addr; read_timeout = o.read; write_timeout = o.write })))
        × (t.addr ≢ [])
        × IsPositive o.read
        × IsPositive o.write
        × (s.config ≡ t)
        × (s.config.enable ≡ true)
        × (more ≡ suc running)
  unfolding provide_telemetry
  provide_telemetry-serves R Z process paths c r after running more s L loaded made =
      let (whole, key, _, _, _) = load-valid R L Z process paths c loaded in
      let (log, (t, e, (addr, path, o, timeouts, (read, write))), fuse) =
        complete_sections c whole in
      let (given, on, count) = provide_section-some c.telemetry r after running more s made in
      let q : t ≡ s.config = cc in
      let o_timeout : s.config.timeout ≡ some o = ap (λ x. x.timeout) (sym q) ∙ timeouts in
      (
        s.config,
        o,
        given,
        o_timeout,
        listen_and_serve-some s o o_timeout,
        λ empty. addr (ap (λ x. x.addr) q ∙ empty),
        read,
        write,
        refl,
        on,
        count,
      )
