-- ===== src/Telemetry/Ended.antt =====
-- What the end of the telemetry server does to the event loop of the mount action.
use gpgfs.Base.{
  List, [], ℕ, ◌≡◌, refl, ap, ◌∙◌, Bool, true, false, Bool-cases, inl, inr, if◌then◌else◌, Option,
  none, some, Error, wrap, ok, err,
}
use gpgfs.Std.Strings.{Str}
use gpgfs.Config.Sections.{Config}
use gpgfs.Config.Load.{Revip, IsRevip, load}
use gpgfs.Log.{Zerolog, Process}
use gpgfs.Server.Http.{HttpServer}
use gpgfs.Telemetry.{Framework, Server, start, listen_and_serve, ended_serving, provide_telemetry}
use gpgfs.Telemetry.Loaded.{provide_telemetry-serves}
use gpgfs.Cli.Shutdown.{State, component, returned, handle}

module _ (F : Framework) where
  start-err :
      (s : Server F) (e : Error)
      → listen_and_serve F s ≡ ended_serving F (err e)
      → (m : Option Error) × (start F s ≡ ok m)
        × (m ≡ (
            if F.is_server_closed e
            then none
            else some (wrap "failed while listen and serve telemetry server" [] e)))
  unfolding start ended_serving
  start-err s e h = elim (Bool-cases (F.is_server_closed e)) [
    | inl closed ↦ (none, rw (start, h, closed) refl, rw closed refl)
    | inr failed ↦ (
      some (wrap "failed while listen and serve telemetry server" [] e),
      rw (start, h, failed) refl,
      rw failed refl,
    )
  ]

  handle-component :
      (b : Bool) (e : Error) (st : State)
      → handle (component (if b then none else some e)) st
        ≡ (if b then st else record st { phase = returned e })
  unfolding handle
  handle-component true e st = refl
  handle-component false e st = refl

  -- The telemetry server of a loaded configuration, where the framework's server ends with an
  -- error, sends one value. The event loop that receives it goes on as it was if the server was
  -- shut down, and otherwise returns the error, with its context, to the caller of the action.
  -- revip loads as it documents.
  pub telemetry-ends :
      (R : Revip) (Z : Zerolog) (process : Process) (paths : List Str) (c : Config)
      (r after : F.metrics.State) (running more : ℕ) (s : Server F) (e : Error) (st : State)
      → IsRevip R
      → load R Z process paths [] ≡ ok c
      → provide_telemetry F c r running ≡ ok (some s, after, more)
      → ((h : HttpServer) → F.start_server s.srv h ≡ err e)
      → (m : Option Error) × (start F s ≡ ok m)
        × (handle (component m) st ≡ (
            if F.is_server_closed e then st else record st {
              phase = returned (wrap "failed while listen and serve telemetry server" [] e);
            }))
  telemetry-ends R Z process paths c r after running more s e st L loaded made fails =
      let (t, o, _, _, serving, _, _, _, _, _, _) =
        provide_telemetry-serves F R Z process paths c r after running more s L loaded made in
      let (m, sent, what) = start-err s e (serving ∙ ap (ended_serving F) (fails _)) in
      (
        m,
        sent,
        ap (λ x. handle (component x) st) what
            ∙ handle-component (F.is_server_closed e)
                (wrap "failed while listen and serve telemetry server" [] e) st,
      )
