-- ===== src/Tests/Http.antt =====
-- The telemetry of a loaded configuration, a logger that keeps its lines, and a registry of names.
use gpgfs.Base.{
  length, arith, ◌+◌, ◌<◌, ◌^◌, Result, Error, foreign, err, wrap, Option, false, ◌*◌, All, ◌≡◌,
  ◌≢◌, refl, sym, inl, inr, Bool, true, some, List, [], ◌∷◌, ◌++◌, ok, panic, String, if◌then◌else◌,
  suc, Bool-cases,
}
use gpgfs.Base.Int.{pos, negsuc}
use mathlib.Core.List.Perm
use mathlib.Core.Quot.{sound}
use gpgfs.Server.Size.{
  Request, as_map, request_text, approx_request_size, approx_request_size-as_map,
}
use gpgfs.Std.Strings.{Str, codes, same}
use gpgfs.Std.Strings.Laws.{same_iff}
use gpgfs.Server.Logger.{LogLevel, Events, Method, Call, plain, json, calls}
use gpgfs.Server.Logger.Lines.{IsEvents, Returns, calls-lines, texts}
use gpgfs.Server.Metrics.{Registry, IsRegistry}
use gpgfs.Config.Sections.{second, TelemetryConfig, TimeoutConfig}
use gpgfs.Config.Tree.{fill}
use gpgfs.Config.Tree.Complete.{IsPositive}
use gpgfs.Telemetry.{Framework, Server, listen_and_serve, ended_serving, provide_telemetry}
use gpgfs.Telemetry.{start as begin}
use gpgfs.Telemetry.Ended.{telemetry-ends}
use gpgfs.Cli.Shutdown.{State, looping, returned, component, handle}
use gpgfs.Telemetry.Loaded.{provide_telemetry-serves}
use gpgfs.Tests.Loading.{keys, keys-IsRevip, levels, process, paths, loaded, loads}

-- Events are their levels, and every level is enabled.
abbrev kept : Events
kept = record {
  Event = LogLevel;
  Value = Str;
  Sink = List (LogLevel × Str);
  event = λ l. l;
  interface_field = λ name v e. e;
  msg = λ text l s. ok (s ++ (l, text) ∷ []);
  sprint = λ v. v;
  sprintf = λ f v. f;
  get_level = λ s. LogLevel.debug;
  level_string = λ l. [];
  str_field = λ name v e. e;
  uint8_field = λ name v e. e;
}

kept-IsEvents : IsEvents kept (λ l. true)
kept-IsEvents = record {
  lines = λ s. s;
  msg-line = λ l text s f p. (s ++ (l, text) ∷ [], refl, refl);
}

abbrev two_calls : List (Call Str)
two_calls = plain Method.warn (codes "w") ∷ json Method.fatal (codes "j") ∷ []

returning : All Returns two_calls
returning = ((λ e. cc, λ e. cc), (tt, tt))

calls-lines_example :
    (t : List (LogLevel × Str)) × (calls kept two_calls [] ≡ ok t)
    × (kept-IsEvents.lines t ≡ kept-IsEvents.lines [] ++ texts kept (λ l. true) two_calls)
calls-lines_example = calls-lines kept (λ l. true) kept-IsEvents two_calls [] returning

abbrev accept : Str × List Str
accept = (codes "Accept", codes "text/html" ∷ codes "*/*" ∷ [])

abbrev origin : Str × List Str
origin = (codes "Origin", codes "null" ∷ [])

abbrev get_request : Request
get_request = record {
  path = some (codes "/metrics");
  method = codes "GET";
  proto = codes "HTTP/1.1";
  header = accept ∷ origin ∷ [];
  host = codes "localhost";
  content_length = pos 5;
}

same_map : as_map (accept ∷ origin ∷ []) ≡ as_map (origin ∷ accept ∷ [])
same_map = sound (Perm.swap origin accept [])

short : length (request_text get_request) + 5 < 2 ^ 63
unfolding request_text
short = omega arith

approx_request_size-as_map_example :
    (approx_request_size
        (record get_request { header = origin ∷ accept ∷ []; content_length = pos 5 })
      ≡ pos (length (request_text get_request) + 5))
    × (approx_request_size
          (record get_request { header = origin ∷ accept ∷ []; content_length = negsuc 0 })
        ≡ pos (length (request_text get_request)))
approx_request_size-as_map_example =
    approx_request_size-as_map get_request (origin ∷ accept ∷ []) 5 same_map short

-- The names that are taken.
abbrev taken : String
taken = "duplicate metrics collector registration attempted"

abbrev pub has : List Str → Str → Bool
has [] n = false
has (m ∷ ms) n = if same m n then true else has ms n

abbrev pub names : Registry
names = record {
  State = List Str;
  must_register = λ n s. if has s n then panic taken else ok (n ∷ s);
}

other_name : (m n : Str) (s : List Str) → m ≢ n → has (n ∷ s) m ≡ true → has s m ≡ true
other_name m n s ne h = elim (Bool-cases (same n m)) [
  | inl e ↦ absurd (ne (sym ((same_iff n m).0 e)))
  | inr e ↦ rw e at h
]

kept_name : (m n : Str) (s : List Str) → has s m ≡ true → has (n ∷ s) m ≡ true
kept_name m n s h = elim (Bool-cases (same n m)) [ inl e ↦ rw e refl | inr e ↦ rw e h ]

pub names-IsRegistry : IsRegistry names
names-IsRegistry = record {
  Registered = λ n s. has s n ≡ true;
  must_register-free = λ n s free. elim (Bool-cases (has s n)) [
    | inl e ↦ absurd (free e)
    | inr e ↦ (
      n ∷ s,
      rw e refl,
      rw ((same_iff n n).1 refl) refl,
      λ m h. kept_name m n s h,
      λ m ne h. other_name m n s ne h,
    )
  ];
  must_register-taken = λ n s h. (taken, rw h refl);
}

pub nothing_taken : (n : Str) → names-IsRegistry.Registered n [] → ⊥
unfolding names-IsRegistry
nothing_taken n e = let h : false ≡ true = e in absurd cc

-- A framework whose listeners are their addresses.
abbrev pub framework : Result (Unit {0}) → Framework
framework r = record {
  metrics = names;
  Echo = Str;
  Listener = Str;
  HttpHandler = Str;
  Context = Str;
  listener_addr = λ l. l;
  listen = λ addr. ok addr;
  set_up = λ listener u. listener;
  metric_handler = λ r. ok ([], r);
  use_listener = λ l e. e;
  body_limit = λ limit e. e;
  get = λ path h e. e;
  start_server = λ e h. r;
  is_server_closed = λ e. true;
  close = λ e. ok tt;
  shutdown = λ e. ok tt;
  serve_http = λ h c. c;
}

abbrev pub plain_http : Framework
plain_http = framework (ok tt)

abbrev closed_http : Framework
closed_http = framework (err (foreign 3))

abbrev pub made : Server plain_http
made = record {
  config = record {
    enable = true;
    addr = codes "127.0.0.1:4280";
    path = codes "/";
    timeout = some (record { read = pos (5 * second); write = pos (5 * second) });
  };
  log_listener = codes "127.0.0.1:4280";
  srv = codes "127.0.0.1:4280";
  handler = [];
}

abbrev pub metric_names : List Str
metric_names =
    codes "gpgfs_telemetry_response_size_bytes"
    ∷ codes "gpgfs_telemetry_request_size_bytes"
    ∷ codes "gpgfs_telemetry_request_duration_seconds"
    ∷ codes "gpgfs_telemetry_requests_total"
    ∷ []

makes : provide_telemetry plain_http loaded [] 0 ≡ ok (some made, metric_names, 1)
unfolding provide_telemetry fill same
makes = refl

provide_telemetry-serves_example :
    (t : TelemetryConfig) × (o : TimeoutConfig) × (loaded.telemetry ≡ some t)
    × (t.timeout ≡ some o)
    × (listen_and_serve plain_http made
        ≡ ended_serving plain_http (
            plain_http.start_server made.srv
              (record { addr = t.addr; read_timeout = o.read; write_timeout = o.write })))
    × (t.addr ≢ [])
    × IsPositive o.read
    × IsPositive o.write
    × (made.config ≡ t)
    × (made.config.enable ≡ true)
    × (1 ≡ suc 0)
provide_telemetry-serves_example =
    provide_telemetry-serves plain_http keys levels process paths loaded [] metric_names 0 1 made
      keys-IsRevip loads makes

abbrev closed_server : Server closed_http
closed_server = record {
  config = made.config;
  log_listener = codes "127.0.0.1:4280";
  srv = codes "127.0.0.1:4280";
  handler = [];
}

makes_closed : provide_telemetry closed_http loaded [] 0 ≡ ok (some closed_server, metric_names, 1)
unfolding provide_telemetry fill same
makes_closed = refl

abbrev looping_state : State
looping_state = record {
  phase = looping;
  done = false;
  running = 1;
  ended = false;
  profiling = false;
}

telemetry-ends_example :
    (m : Option Error) × (begin closed_http closed_server ≡ ok m)
    × (handle (component m) looping_state ≡ (
        if closed_http.is_server_closed (foreign 3) then looping_state else record looping_state {
          phase = returned (wrap "failed while listen and serve telemetry server" [] (foreign 3));
        }))
telemetry-ends_example =
    telemetry-ends closed_http keys levels process paths loaded [] metric_names 0 1 closed_server
      (foreign 3) looping_state keys-IsRevip loads makes_closed (λ h. refl)
