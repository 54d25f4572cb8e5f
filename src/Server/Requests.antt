-- ===== src/Server/Requests.antt =====
-- What is observed and logged for a request, and what it is answered with.
use gpgfs.Base.{Error, ℕ, ◌-◌, ◌≡◌, refl, false, none, some, Option, [], ◌∷◌, ◌++◌, ap, ◌∙◌}
use gpgfs.Std.Strings.{Str}
use gpgfs.Server.Size.{approx_request_size}
use gpgfs.Server.{
  with_error, ServerError, Failure, http_error, server_error, other_error, with_value, info, error,
  Line, request, recovered, Observation, Exchange, Outcome, returned, panicking, Handler, Echo,
  chain, error_handler, panic_error, level_of, logged, bytes_in, observation, observe, answered,
  serve, count, log_request, recover_from,
}

-- The framework writes to the response alone.
pub record IsKept (z x : Exchange) : Type 0 where
  pub counted : z.counted ≡ x.counted
  pub lines : z.lines ≡ x.lines
  pub requests : z.requests ≡ x.requests
  pub current : z.current ≡ x.current

-- `JSON` sends "a JSON response with status code".
pub record IsEcho (E : Echo) : Type 0 where
  pub json : (c : ℕ) (m : Str) (x : Exchange) → IsKept (E.json c m x) x
  pub json_status :
      (c : ℕ) (m : Str) (x : Exchange) → x.committed ≡ false → (E.json c m x).status ≡ c
  pub default_handler : (c : ℕ) (x : Exchange) → IsKept (E.default_handler c x) x

-- The exchange once the metrics have their values.
abbrev pub observed : Exchange → Exchange → Str → Exchange
observed x y p = record y { counted = y.counted ++ observation x y p ∷ [] }

-- Prometheus takes the method that the request has in the end, and the path, as labels.
abbrev pub IsTaken : Echo → Exchange → Str → Type 0
IsTaken E y p = E.labels (y.requests y.current).method p ≡ none

observed_lem :
    (E : Echo) (x y : Exchange) (e : Option Failure) (p : Str)
    → (y.requests x.current).path ≡ some p
    → IsTaken E y p
    → count E x (y, returned e) ≡ (observed x y p, returned e)
unfolding count observe
observed_lem E x y e p h taken = ap (observe E x y e) h ∙ rw (taken, observe) refl

unobserved_lem :
    (E : Echo) (x y : Exchange) (e : Option Failure) (p : Str) (refusal : Error)
    → (y.requests x.current).path ≡ some p
    → E.labels (y.requests y.current).method p ≡ some refusal
    → count E x (y, returned e) ≡ (y, panicking (with_error (other_error refusal)))
unfolding count observe
unobserved_lem E x y e p refusal h refused = ap (observe E x y e) h ∙ rw (refused, observe) refl

-- The line that is written for a request.
abbrev pub line : Echo → Exchange → Exchange → Option Failure → Line
line E x y e =
    request (level_of e) y.status (y.now - x.now) (bytes_in E (y.requests x.current)) y.size
      (logged E e)

abbrev written : Echo → Exchange → Exchange → Option Failure → Str → Exchange
written E x y e p = record (observed x y p) { lines = y.lines ++ line E x y e ∷ [] }

module _ (E : Echo) (L : IsEcho E) where
  error_handler-IsKept : (e : Failure) (x : Exchange) → IsKept (error_handler E e x) x
  unfolding error_handler
  error_handler-IsKept (http_error c) x = L.default_handler c x
  error_handler-IsKept (server_error e) x = L.json e.code _ x
  error_handler-IsKept (other_error e) x = L.json 500 _ x

  -- How an exchange ends whose handler has returned, with a recovered panic or not.
  ends :
      (x y : Exchange) (e : Option Failure) (p : Str)
      → (y.requests x.current).path ≡ some p
      → IsTaken E y p
      → (z : Exchange) × (answered E (log_request E x (count E x (y, returned e))) ≡ some z)
        × (z.counted ≡ y.counted ++ observation x y p ∷ [])
        × (z.lines ≡ y.lines ++ line E x y e ∷ [])
  unfolding answered log_request
  ends x y none p h taken =
      (_, ap (λ r. answered E (log_request E x r)) (observed_lem E x y none p h taken), refl, refl)
  ends x y (some e) p h taken =
      let k = error_handler-IsKept e (written E x y (some e) p) in
      (
        _,
        ap (λ r. answered E (log_request E x r)) (observed_lem E x y (some e) p h taken),
        k.counted,
        k.lines,
      )

  -- What the recovery makes of the end of a handler: the exchange after the handler, but for the
  -- response, and a line if it has panicked.
  recovered_lem :
      (r : Exchange × Outcome)
      → (y : Exchange) × (e : Option Failure) × (recover_from E r ≡ (y, returned e))
        × (y.counted ≡ r.0.counted)
        × (y.requests ≡ r.0.requests)
        × (y.current ≡ r.0.current)
  unfolding recover_from
  recovered_lem (y, returned e) = (y, e, refl, refl, refl, refl)
  recovered_lem (y, panicking p) =
      let w : Exchange = record y { lines = y.lines ++ recovered (panic_error E p) ∷ [] } in
      let k = error_handler-IsKept (panic_error E p) w in
      (error_handler E (panic_error E p) w, none, refl, k.counted, k.requests, k.current)

module _ (E : Echo) (h : Handler) (x y : Exchange) (L : IsEcho E) where
  -- A request whose method and path prometheus takes as labels is answered, even if its handler
  -- panics, and the metrics are given their values
  -- for it once: the size that the request had before, its path after the handler, and the method of
  -- the request that the handler leaves. The handler leaves a path, and the framework writes to the
  -- response alone.
  pub serve-counted :
      (end : Outcome) (p : Str)
      → h x ≡ (y, end)
      → (y.requests x.current).path ≡ some p
      → IsTaken E y p
      → (z : Exchange) × (o : Observation) × (serve E h x ≡ some z)
        × (z.counted ≡ y.counted ++ o ∷ [])
        × (o.request_size ≡ approx_request_size (x.requests x.current))
        × (o.path ≡ p)
        × (o.method ≡ (y.requests y.current).method)
  unfolding serve observation
  serve-counted end p ends_so kept taken =
      let (w, e, recovers, counted, requests, current) = recovered_lem E L (y, end) in
      let kept' : (w.requests x.current).path ≡ some p =
        ap (λ f. (f x.current).path) requests ∙ kept in
      let taken' : IsTaken E w p =
        ap (λ r. E.labels r.method p) (λ i. requests i (current i)) ∙ taken in
      let (z, answer, counts, _) = ends E L x w e p kept' taken' in
      (
        z,
        observation x w p,
        ap (λ r. answered E (log_request E x (count E x (recover_from E r)))) ends_so
            ∙ ap (λ r. answered E (log_request E x (count E x r))) recovers
            ∙ answer,
        counts ∙ ap (λ c. c ++ observation x w p ∷ []) counted,
        refl,
        refl,
        (λ i. (requests i (current i)).method),
      )

  -- A handler that returns an error of the server before it has sent a response: the request is
  -- answered with the error's code, but the metrics and the log have the status of before. The handler
  -- leaves a path, prometheus takes the method and the path as labels, and the framework writes to the
  -- response alone.
  pub serve-server_error :
      (e : ServerError) (p : Str)
      → h x ≡ (y, returned (some (server_error e)))
      → y.committed ≡ false
      → (y.requests x.current).path ≡ some p
      → IsTaken E y p
      → (z : Exchange) × (serve E h x ≡ some z)
        × (z.status ≡ e.code)
        × (z.counted ≡ y.counted ++ observation x y p ∷ [])
        × ((observation x y p).status ≡ y.status)
        × (z.lines
            ≡ y.lines
              ++ request error y.status
                  (y.now - x.now)
                  (bytes_in E (y.requests x.current))
                  y.size
                  (some (chain E e))
                ∷ [])
  unfolding serve answered log_request recover_from error_handler level_of logged observation
  serve-server_error e p returns fresh kept taken =
      let w = written E x y (some (server_error e)) p in
      let k = L.json e.code _ w in
      (
        error_handler E (server_error e) w,
        ap (λ r. answered E (log_request E x (count E x (recover_from E r)))) returns
            ∙ ap (λ r. answered E (log_request E x r))
                (observed_lem E x y (some (server_error e)) p kept taken),
        L.json_status e.code _ w fresh,
        k.counted,
        refl,
        k.lines,
      )

  -- A handler that panics with a value that is no error, before it has sent a response: the request is
  -- answered with the status 500, which the metrics have too, and its line in the log, behind that of
  -- the panic, is that of a success. The handler leaves a path, prometheus takes the method and the path as labels,
  -- and the framework writes to the response alone.
  pub serve-panic :
      (v p : Str)
      → h x ≡ (y, panicking (with_value v))
      → y.committed ≡ false
      → (y.requests x.current).path ≡ some p
      → IsTaken E y p
      → (z : Exchange) × (o : Observation) × (l : Line) × (serve E h x ≡ some z)
        × (z.status ≡ 500)
        × (z.counted ≡ y.counted ++ o ∷ [])
        × (o.status ≡ 500)
        × (z.lines ≡ (y.lines ++ recovered (other_error (E.errorf v)) ∷ []) ++ l ∷ [])
        × (took : ℕ) × (read : Str) × (sent : ℕ) × (l ≡ request info 500 took read sent none)
  unfolding serve answered log_request recover_from error_handler level_of logged observation
      panic_error
  serve-panic v p panics fresh kept taken =
      let w : Exchange = record y {
        lines = y.lines ++ recovered (other_error (E.errorf v)) ∷ [];
      } in
      let a = E.json 500 (E.status_text 500) w in
      let k = L.json 500 (E.status_text 500) w in
      let status = L.json_status 500 (E.status_text 500) w fresh in
      let kept' : (a.requests x.current).path ≡ some p =
        ap (λ f. (f x.current).path) k.requests ∙ kept in
      let taken' : IsTaken E a p =
        ap (λ r. E.labels r.method p) (λ i. k.requests i (k.current i)) ∙ taken in
      (
        written E x a none p,
        observation x a p,
        line E x a none,
        ap (λ r. answered E (log_request E x (count E x (recover_from E r)))) panics
            ∙ ap (λ r. answered E (log_request E x r)) (observed_lem E x a none p kept' taken'),
        status,
        ap (λ c. c ++ observation x a p ∷ []) k.counted,
        status,
        ap (λ c. c ++ line E x a none ∷ []) k.lines,
        a.now - x.now,
        bytes_in E (a.requests x.current),
        a.size,
        ap (λ n. request info n (a.now - x.now) (bytes_in E (a.requests x.current)) a.size none)
            status,
      )

  -- A request whose method or path prometheus does not take as a label, as one with a path that is not
  -- UTF-8, is not answered, however its handler ends: the telemetry panics outside of the recovery.
  -- The handler leaves a path, and the framework writes to the response alone.
  pub serve-refused :
      (end : Outcome) (p : Str) (refusal : Error)
      → h x ≡ (y, end)
      → (y.requests x.current).path ≡ some p
      → E.labels (y.requests y.current).method p ≡ some refusal
      → serve E h x ≡ none
  unfolding serve answered log_request
  serve-refused end p refusal ends_so kept refused =
      let (w, e, recovers, counted, requests, current) = recovered_lem E L (y, end) in
      let kept' : (w.requests x.current).path ≡ some p =
        ap (λ f. (f x.current).path) requests ∙ kept in
      let refused' : E.labels (w.requests w.current).method p ≡ some refusal =
        ap (λ r. E.labels r.method p) (λ i. requests i (current i)) ∙ refused in
      let crashed = unobserved_lem E x w e p refusal kept' refused' in
      ap (λ r. answered E (log_request E x (count E x (recover_from E r)))) ends_so
      ∙ ap (λ r. answered E (log_request E x (count E x r))) recovers
      ∙ ap (λ r. answered E (log_request E x r)) crashed
