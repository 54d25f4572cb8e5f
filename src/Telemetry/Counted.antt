-- ===== src/Telemetry/Counted.antt =====
-- How the provider of the telemetry counts in the wait group.
use gpgfs.Base.{
  ok-injective, Bool, true, false, if◌then◌else◌, ℕ, ◌≡◌, ◌≢◌, sym, ap, Option, none, some, ok,
  >>=-eq-ok,
}
use gpgfs.Config.Sections.{TelemetryConfig, Config}
use gpgfs.Telemetry.{Framework, Server, new, started, provide_section, provide_telemetry}
use gpgfs.Telemetry.Loaded.{provide_section-some}

module _ (F : Framework) where
  started-ne-none :
      (t : TelemetryConfig) (r after : F.metrics.State) (running more : ℕ)
      → started F t r running ≢ ok (none, after, more)
  unfolding started
  started-ne-none t r after running more h =
      let (lr, _, h1) = >>=-eq-ok (F.listen t.addr) _ h in
      let ((s, r'), made, h2) = >>=-eq-ok (new F t r (some lr)) _ h1 in
      let e : some s ≡ none = ap (λ p. p.0) (ok-injective h2) in absurd cc

  if-none :
      (b : Bool) (t : TelemetryConfig) (r after : F.metrics.State) (running more : ℕ)
      → (if b then started F t r running else ok (none, r, running)) ≡ ok (none, after, more)
      → more ≡ running
  if-none true t r after running more h = absurd (started-ne-none t r after running more h)
  if-none false t r after running more h = sym (ap (λ p. p.2) (ok-injective h))

  provide_section-none :
      (o : Option TelemetryConfig) (r after : F.metrics.State) (running more : ℕ)
      → provide_section F o r running ≡ ok (none, after, more)
      → more ≡ running
  unfolding provide_section
  provide_section-none none r after running more h = absurd cc
  provide_section-none (some t) r after running more h = if-none t.enable t r after running more h

  -- How many components a telemetry server is.
  abbrev pub components : Option (Server F) → ℕ
  components none = 0
  components (some s) = 1

  pub provide_telemetry-counts :
      (c : Config) (r after : F.metrics.State) (more : ℕ) (t : Option (Server F))
      → provide_telemetry F c r 0 ≡ ok (t, after, more)
      → more ≡ components t
  unfolding provide_telemetry
  provide_telemetry-counts c r after more none h = provide_section-none c.telemetry r after 0 more h
  provide_telemetry-counts c r after more (some s) h =
      let (_, _, e) = provide_section-some F c.telemetry r after 0 more s h in e
