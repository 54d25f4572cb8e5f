-- ===== src/Server/Cors.antt =====
-- pkg/server/middleware/cors_middleware.go: which origins the middleware lets in. The package regexp
-- and the framework's middleware are parameters.
use gpgfs.Base.{
  arith, Bool, true, false, ◌||◌, Option, none, some, Result, ok, panic, ◌>>=◌, List, [], ◌∷◌, ◌≡◌,
  ◌≢◌, ◌↔◌, refl, sym, ap, ◌∙◌, ◌⊎◌, inl, inr, >>=-eq-ok,
}
use gpgfs.Base.Int.{ℤ}
use gpgfs.Std.Strings.{Str}
use gpgfs.Config.Sections.{CorsConfig}

pub record Regexps : Type 1 where
  pub Regexp : Type 0
  -- `regexp.Compile`; `none` is an error.
  pub compile : Str → Option Regexp
  pub match_string : Regexp → Str → Bool

-- The framework's `CORSConfig`, without the skipper, which skips nothing.
pub record EchoCors : Type 0 where
  pub allow_methods : List Str
  pub allow_headers : List Str
  pub allow_credentials : Bool
  pub expose_headers : List Str
  pub max_age : ℤ
  pub allow_origins : List Str
  pub allow_origin_func : Option (Str → Bool)

-- `regexp.MustCompile` of what `Compile` gives.
abbrev pub must : {A : Type 0} → Option A → Result A
must none = panic "regexp: Compile"
must (some r) = ok r

module _ (X : Regexps) where
  unfoldable pub compile_all : List Str → Result (List X.Regexp)
  compile_all [] = ok []
  compile_all (v ∷ vs) =
      let rest = compile_all vs in must (X.compile v) >>= λ r. rest >>= λ rs. ok (r ∷ rs)

  -- The function of `AllowOriginFunc`.
  unfoldable pub some_match : List X.Regexp → Str → Bool
  some_match [] origin = false
  some_match (r ∷ rs) origin = X.match_string r origin || some_match rs origin

  with_origins : List Str → EchoCors → CorsConfig → Result EchoCors
  unfolding compile_all some_match
  with_origins [] cc c = ok (record cc { allow_origins = c.allow_origins })
  with_origins (v ∷ vs) cc c =
      compile_all (v ∷ vs) >>= λ xs. ok (record cc { allow_origin_func = some (some_match xs) })

  -- `NewCORSMiddleware`, as far as the configuration that it hands to the framework.
  unfoldable pub new_cors_middleware : CorsConfig → Result EchoCors
  unfolding with_origins
  new_cors_middleware c =
      let cc : EchoCors = record {
        allow_methods = c.allow_methods;
        allow_headers = c.allow_headers;
        allow_credentials = c.allow_credentials;
        expose_headers = c.expose_headers;
        max_age = c.max_age;
        allow_origins = [];
        allow_origin_func = none;
      } in
      with_origins c.allow_origins_regexp cc c

-- Whether the framework lets an origin in. "AllowOriginFunc is a custom function to validate the
-- origin. If this option is set, AllowOrigins is ignored"; AllowOrigins has the default "*".
pub record IsEchoCors (allows : EchoCors → Str → Bool) : Type 0 where
  pub allows-func :
      (m : EchoCors) (f : Str → Bool) (origin : Str)
      → m.allow_origin_func ≡ some f
      → allows m origin ≡ f origin
  pub allows-default :
      (m : EchoCors) (origin : Str)
      → m.allow_origin_func ≡ none
      → m.allow_origins ≡ []
      → allows m origin ≡ true

must-eq-ok : {A : Type 0} (o : Option A) (r : A) → must o ≡ ok r → o ≡ some r
must-eq-ok none r h = cc
must-eq-ok (some x) r h = cc

or-cases : (a b : Bool) → (a || b) ≡ true → (a ≡ true) ⊎ (b ≡ true)
or-cases true b h = inl refl
or-cases false b h = inr h

module _ (X : Regexps) where
  -- One of the patterns matches.
  abbrev pub Matches : List Str → Str → Type 0
  Matches [] origin = ⊥
  Matches (v ∷ vs) origin =
      ((r : X.Regexp) × (X.compile v ≡ some r) × (X.match_string r origin ≡ true))
      ⊎ Matches vs origin

  some→Matches :
      (vs : List Str) (rs : List X.Regexp) (origin : Str)
      → compile_all X vs ≡ ok rs
      → some_match X rs origin ≡ true
      → Matches vs origin
  unfolding compile_all some_match
  some→Matches [] rs origin h m =
      let e : rs ≡ [] = cc in
      let none_match : some_match X [] origin ≡ true =
        ap (λ x. some_match X x origin) (sym e) ∙ m in
      absurd cc
  some→Matches (v ∷ vs) rs origin h m =
      let (r, hr, h1) = >>=-eq-ok (must (X.compile v)) _ h in
      let (ss, hs, h2) = >>=-eq-ok (compile_all X vs) _ h1 in
      let e : rs ≡ r ∷ ss = cc in
      let split =
        or-cases (X.match_string r origin) (some_match X ss origin)
          (ap (λ x. some_match X x origin) (sym e) ∙ m) in
      elim split [
        | inl here ↦ inl (r, must-eq-ok (X.compile v) r hr, here)
        | inr later ↦ inr (some→Matches vs ss origin hs later)
      ]

  Matches→some :
      (vs : List Str) (rs : List X.Regexp) (origin : Str)
      → compile_all X vs ≡ ok rs
      → Matches vs origin
      → some_match X rs origin ≡ true
  unfolding compile_all some_match
  Matches→some [] rs origin h m = elim m [ ]
  Matches→some (v ∷ vs) rs origin h m =
      let (r, hr, h1) = >>=-eq-ok (must (X.compile v)) _ h in
      let (ss, hs, h2) = >>=-eq-ok (compile_all X vs) _ h1 in
      let e : rs ≡ r ∷ ss = cc in
      let compiled = must-eq-ok (X.compile v) r hr in
      rw e (elim m [
        | inl (q, hq, here) ↦
            let same : q ≡ r = cc in rw (ap (λ x. X.match_string x origin) (sym same) ∙ here) refl
        | inr later ↦ ground (arith, Matches→some vs ss origin hs later)
      ])

  patterned :
      (vs : List Str) (cc : EchoCors) (c : CorsConfig) (m : EchoCors)
      → vs ≢ []
      → with_origins X vs cc c ≡ ok m
      → (rs : List X.Regexp) × (compile_all X vs ≡ ok rs)
        × (m.allow_origin_func ≡ some (some_match X rs))
  unfolding with_origins
  patterned [] cc c m some_patterns h = absurd (some_patterns refl)
  patterned (v ∷ vs) base c m some_patterns h =
      let (rs, e, done) = >>=-eq-ok (compile_all X (v ∷ vs)) _ h in
      let made : record base { allow_origin_func = some (some_match X rs) } ≡ m = cc in
      (rs, e, ap (λ x. x.allow_origin_func) (sym made))

  unpatterned :
      (vs : List Str) (base : EchoCors) (c : CorsConfig) (m : EchoCors)
      → vs ≡ []
      → with_origins X vs base c ≡ ok m
      → (m.allow_origin_func ≡ base.allow_origin_func) × (m.allow_origins ≡ c.allow_origins)
  unfolding with_origins
  unpatterned [] base c m e h =
      let made : record base { allow_origins = c.allow_origins } ≡ m = cc in
      (ap (λ x. x.allow_origin_func) (sym made), ap (λ x. x.allow_origins) (sym made))
  unpatterned (v ∷ vs) base c m e h = absurd cc

  -- With patterns, exactly the origins that match one of them are let in, whatever the list of
  -- origins says.
  pub new_cors_middleware-patterns :
      (allows : EchoCors → Str → Bool) (c : CorsConfig) (m : EchoCors) (origin : Str)
      → IsEchoCors allows
      → c.allow_origins_regexp ≢ []
      → new_cors_middleware X c ≡ ok m
      → (allows m origin ≡ true) ↔ Matches c.allow_origins_regexp origin
  unfolding new_cors_middleware
  new_cors_middleware-patterns allows c m origin L some_patterns h =
      let (rs, compiled, func) = patterned c.allow_origins_regexp _ c m some_patterns h in
      let asked = L.allows-func m (some_match X rs) origin func in
      (
        λ e. some→Matches c.allow_origins_regexp rs origin compiled (sym asked ∙ e),
        λ k. asked ∙ Matches→some c.allow_origins_regexp rs origin compiled k,
      )

  -- Without patterns and without a list, every origin is let in.
  pub new_cors_middleware-default :
      (allows : EchoCors → Str → Bool) (c : CorsConfig) (m : EchoCors) (origin : Str)
      → IsEchoCors allows
      → c.allow_origins_regexp ≡ []
      → c.allow_origins ≡ []
      → new_cors_middleware X c ≡ ok m
      → allows m origin ≡ true
  unfolding new_cors_middleware
  new_cors_middleware-default allows c m origin L no_patterns no_list h =
      let (func, origins) = unpatterned c.allow_origins_regexp _ c m no_patterns h in
      L.allows-default m origin func (origins ∙ no_list)
