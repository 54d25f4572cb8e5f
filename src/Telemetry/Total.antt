-- ===== src/Telemetry/Total.antt =====
-- The provider of the telemetry, on the registry that the program begins with, never panics.
use gpgfs.Base.{
  >>=-of_ok, subst, Bool, true, false, ℕ, suc, ◌≡◌, ◌≢◌, refl, sym, ◌∙◌, All, Option, none, some,
  Result, ok, err, panic, Error, String, List, [], ◌∷◌, ◌++◌, if◌then◌else◌,
}
use gpgfs.Std.Strings.{Str, codes, has_prefix}
use gpgfs.Config.Sections.{TelemetryConfig, Config}
use gpgfs.Config.Tree.Complete.{complete_sections}
use gpgfs.Config.Load.{Revip, IsRevip, load}
use gpgfs.Config.Load.Valid.{load-valid}
use gpgfs.Log.{Zerolog, Process}
use gpgfs.Server.Metrics.{IsRegistry}
use gpgfs.Server.Metrics.Names.{metric_name}
use gpgfs.Server.Metrics.Once.{IsFree, new_telemetry-once}
use gpgfs.Server.New
use gpgfs.Telemetry.{Framework, Server, new, started, provide_section, provide_telemetry}
use gpgfs.Telemetry.Loaded.{started-config}
use gpgfs.Telemetry.Registry.{go_build_info, init}
use gpgfs.Telemetry.Registry.Fresh.{
  IsDistinct, IsForeign, init-free, names-IsForeign, foreign-apart,
}

-- The names that `promhttp.InstrumentMetricHandler` registers.
abbrev pub scrapes : Str
scrapes = codes "promhttp_metric_handler_requests_total"

abbrev pub scrapes_in_flight : Str
scrapes_in_flight = codes "promhttp_metric_handler_requests_in_flight"

-- `InstrumentMetricHandler` registers two metrics, and no others; `net.Listen` ends with a listener
-- or an error.
pub record IsFramework (F : Framework) (L : IsRegistry F.metrics) : Type 0 where
  pub metric_handler-ok :
      (r : F.metrics.State)
      → (L.Registered scrapes r → ⊥)
      → (L.Registered scrapes_in_flight r → ⊥)
      → (h : F.HttpHandler) × (t : F.metrics.State) × (F.metric_handler r ≡ ok (h, t))
        × ((m : Str) → m ≢ scrapes → m ≢ scrapes_in_flight → L.Registered m t → L.Registered m r)
  pub listen-returns : (addr : Str) (m : String) → F.listen addr ≢ panic m

module _ (F : Framework) where
  -- How the provider ends for a section: without a server where it is switched off, with the error of
  -- `net.Listen`, or with one server more.
  pub data Ends (t : TelemetryConfig) (r : F.metrics.State) (running : ℕ)
      : Result (Option (Server F) × F.metrics.State × ℕ) → Type 0 where
    off : t.enable ≡ false → Ends t r running (ok (none, r, running))
    refused : (e : Error) → t.enable ≡ true → F.listen t.addr ≡ err e → Ends t r running (err e)
    serving :
        (lr : F.Listener) (s : Server F) (after : F.metrics.State)
        → t.enable ≡ true
        → F.listen t.addr ≡ ok lr
        → s.config ≡ t
        → Ends t r running (ok (some s, after, suc running))

flip-apart : (n : Str) (ns : List Str) → All (λ m. m ≢ n) ns → All (λ m. n ≢ m) ns
flip-apart n [] h = tt
flip-apart n (m ∷ ms) (ne, h) = ((λ e. ne (sym e)), flip-apart n ms h)

scrapes-IsForeign : IsForeign (scrapes ∷ scrapes_in_flight ∷ [])
unfolding has_prefix
scrapes-IsForeign = (refl, (refl, tt))

module _ (F : Framework) (L : IsRegistry F.metrics) (H : IsFramework F L) where
  -- On a registry with room for its names, a server can be made.
  new-ok :
      (t : TelemetryConfig) (r : F.metrics.State) (lr : Option F.Listener)
      → (L.Registered scrapes r → ⊥)
      → (L.Registered scrapes_in_flight r → ⊥)
      → IsFree F.metrics L (codes "telemetry") r
      → (s : Server F) × (after : F.metrics.State) × (new F t r lr ≡ ok (s, after))
  unfolding new New.new
  new-ok t r lr a b free =
      let (h, r1, e1, only) = H.metric_handler-ok r a b in
      let free1 : IsFree F.metrics L (codes "telemetry") r1 = λ m k.
        let (x, (y, z)) =
          foreign-apart m (codes "telemetry") (scrapes ∷ scrapes_in_flight ∷ [])
            scrapes-IsForeign in
        free m (only (metric_name m (codes "telemetry")) x y k) in
      let (r2, e2, _, _, _) = new_telemetry-once F.metrics L (codes "telemetry") r1 free1 in
      (_, r2, >>=-of_ok _ e1 ∙ >>=-of_ok _ (>>=-of_ok _ e2))

  started-Ends :
      (t : TelemetryConfig) (r : F.metrics.State) (running : ℕ) (x : Result F.Listener)
      → F.listen t.addr ≡ x
      → t.enable ≡ true
      → ((lr : Option F.Listener)
          → (s : Server F) × (after : F.metrics.State) × (new F t r lr ≡ ok (s, after)))
      → Ends F t r running (started F t r running)
  unfolding started
  started-Ends t r running (ok lr) e on made =
      let (s, after, m) = made (some lr) in
      let all : started F t r running ≡ ok (some s, after, suc running) =
        >>=-of_ok _ e ∙ >>=-of_ok _ m in
      let (same, _) = started-config F t r after running (suc running) s all in
      subst (Ends F t r running) (sym all) (serving lr s after on e same)
  started-Ends t r running (err x) e on made = rw e (refused x on e)
  started-Ends t r running (panic x) e on made = absurd (H.listen-returns t.addr x e)

  branch-Ends :
      (t : TelemetryConfig) (r : F.metrics.State) (running : ℕ) (b : Bool)
      → t.enable ≡ b
      → ((lr : Option F.Listener)
          → (s : Server F) × (after : F.metrics.State) × (new F t r lr ≡ ok (s, after)))
      → Ends F t r running (if b then started F t r running else ok (none, r, running))
  branch-Ends t r running true on made = started-Ends t r running (F.listen t.addr) refl on made
  branch-Ends t r running false gone made = off gone

  -- On the registry that the program begins with, the telemetry of a loaded configuration never
  -- panics: its provider returns no server where the telemetry is switched off, the error of
  -- `net.Listen` where the address cannot be listened to, and otherwise a server of the section, one
  -- more in the wait group. The names that prometheus and promhttp take are distinct and do not begin
  -- with `gpgfs_`, and revip, prometheus, promhttp and the network behave as documented.
  pub provide_telemetry_total :
      (R : Revip) (Z : Zerolog) (process : Process) (paths : List Str) (c : Config)
      (process_names go_names : List Str) (empty : F.metrics.State) (running : ℕ)
      → IsRevip R
      → load R Z process paths [] ≡ ok c
      → ((n : Str) → L.Registered n empty → ⊥)
      → IsDistinct (scrapes ∷ scrapes_in_flight ∷ process_names ++ (go_names ++ go_build_info ∷ []))
      → IsForeign process_names
      → IsForeign go_names
      → (r : F.metrics.State) × (init F.metrics process_names go_names empty ≡ ok r)
        × (t : TelemetryConfig) × (c.telemetry ≡ some t)
        × Ends F t r running (provide_telemetry F c r running)
  unfolding provide_telemetry provide_section
  provide_telemetry_total R Z process paths c ps gs empty running rev loaded nothing
        ((q, apart), (apart', distinct)) f_p f_g =
      let names = ps ++ (gs ++ go_build_info ∷ []) in
      let (r, e, free) = init-free F.metrics L ps gs empty nothing distinct in
      let (whole, _, _, _, _) = load-valid R rev Z process paths c loaded in
      let (_, (t, given, _), _) = complete_sections c whole in
      let room : IsFree F.metrics L (codes "telemetry") r = λ m.
        free (metric_name m (codes "telemetry"))
          (foreign-apart m (codes "telemetry") names (names-IsForeign ps gs f_p f_g)) in
      let made : (lr : Option F.Listener)
          → (s : Server F) × (after : F.metrics.State) × (new F t r lr ≡ ok (s, after)) =
        λ lr.
          new-ok t r lr (free scrapes (flip-apart scrapes names apart))
            (free scrapes_in_flight (flip-apart scrapes_in_flight names apart')) room in
      (
        r,
        e,
        t,
        given,
        subst (λ o. Ends F t r running (provide_section F o r running)) (sym given)
            (branch-Ends t r running t.enable refl made),
      )
