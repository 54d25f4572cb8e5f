-- ===== src/Server/Logger/Lines.antt =====
-- What the calls of the framework's logger write.
use gpgfs.Base.{
  ◌>>=◌, ◌≡◌, ◌≢◌, refl, sym, ◌∙◌, ap, Bool, if◌then◌else◌, ok, List, [], ◌∷◌, ◌++◌, All,
  append-nil, append_assoc,
}
use gpgfs.Std.Strings.{Str}
use gpgfs.Server.Logger.{
  Method, print, LogLevel, Events, Call, plain, format, json, level_of_method, call, calls,
}

-- `msg` writes one line, at the level of the event, if the level is enabled; the levels of the
-- methods that end the program or the goroutine are left open.
pub record IsEvents (Z : Events) (enabled : LogLevel → Bool) : Type 0 where
  pub lines : Z.Sink → List (LogLevel × Str)
  pub msg-line :
      (l : LogLevel) (text : Str) (s : Z.Sink)
      → l ≢ LogLevel.fatal
      → l ≢ LogLevel.panic
      → (t : Z.Sink) × (Z.msg text (Z.event l) s ≡ ok t)
        × (lines t ≡ lines s ++ (if enabled l then (l, text) ∷ [] else []))

-- A call that has to return: JSON, or the text of a level below `fatal`.
abbrev pub Returns : {Value : Type 0} → Call Value → Type 0
Returns (plain m v) = (m ≢ Method.fatal) × (m ≢ Method.panic)
Returns (format m f v) = (m ≢ Method.fatal) × (m ≢ Method.panic)
Returns (json m v) = Unit

-- The level of zerolog that has the name of the method; `Print` writes at `info`.
abbrev pub expected : Method → LogLevel
expected Method.debug = LogLevel.debug
expected Method.info = LogLevel.info
expected Method.warn = LogLevel.warn
expected Method.error = LogLevel.error
expected Method.fatal = LogLevel.fatal
expected Method.panic = LogLevel.panic
expected print = LogLevel.info

expected-low :
    (m : Method)
    → m ≢ Method.fatal
    → m ≢ Method.panic
    → (expected m ≢ LogLevel.fatal) × (expected m ≢ LogLevel.panic)
expected-low Method.debug f p = ((λ e. cc), (λ e. cc))
expected-low Method.info f p = ((λ e. cc), (λ e. cc))
expected-low Method.warn f p = ((λ e. cc), (λ e. cc))
expected-low Method.error f p = ((λ e. cc), (λ e. cc))
expected-low Method.fatal f p = absurd (f refl)
expected-low Method.panic f p = absurd (p refl)
expected-low print f p = ((λ e. cc), (λ e. cc))

expected-level_of_method : (m : Method) → level_of_method m ≡ expected m
unfolding level_of_method
expected-level_of_method Method.debug = refl
expected-level_of_method Method.info = refl
expected-level_of_method Method.warn = refl
expected-level_of_method Method.error = refl
expected-level_of_method Method.fatal = refl
expected-level_of_method Method.panic = refl
expected-level_of_method print = refl

module _ (Z : Events) (enabled : LogLevel → Bool) where
  -- The lines of the calls of text.
  abbrev pub texts : List (Call Z.Value) → List (LogLevel × Str)
  texts [] = []
  texts (plain m v ∷ cs) =
      (if enabled (expected m) then (expected m, Z.sprint v) ∷ [] else []) ++ texts cs
  texts (format m f v ∷ cs) =
      (if enabled (expected m) then (expected m, Z.sprintf f v) ∷ [] else []) ++ texts cs
  texts (json m v ∷ cs) = texts cs

  -- Calls of text by the methods other than those of `Fatal` and `Panic`, and calls of JSON by all
  -- methods, return. The calls of text have written their lines in their order, each at the level
  -- that has the name of the method, or at `info` for `Print`, those of an enabled level and no
  -- others, and the calls of JSON, the ones of `Fatalj` and `Panicj` too, have written
  -- nothing. An event that is ended writes one line if its level is enabled.
  pub calls-lines :
      (L : IsEvents Z enabled) (cs : List (Call Z.Value)) (s : Z.Sink)
      → All Returns cs
      → (t : Z.Sink) × (calls Z cs s ≡ ok t) × (L.lines t ≡ L.lines s ++ texts cs)
  unfolding calls call
  calls-lines L [] s h = (s, refl, sym (append-nil (L.lines s)))
  calls-lines L (plain m v ∷ cs) s ((f, p), hs) =
      let (f', p') = expected-low m f p in
      let (u, e, wrote) = L.msg-line (expected m) (Z.sprint v) s f' p' in
      let e' = ap (λ l. Z.msg (Z.sprint v) (Z.event l) s) (expected-level_of_method m) ∙ e in
      let (t, r, rest) = calls-lines L cs u hs in
      (
        t,
        ap (λ q. q >>= λ w. calls Z cs w) e' ∙ r,
        rest ∙ ap (λ x. x ++ texts cs) wrote ∙ append_assoc (L.lines s) _ (texts cs),
      )
  calls-lines L (format m x v ∷ cs) s ((f, p), hs) =
      let (f', p') = expected-low m f p in
      let (u, e, wrote) = L.msg-line (expected m) (Z.sprintf x v) s f' p' in
      let e' = ap (λ l. Z.msg (Z.sprintf x v) (Z.event l) s) (expected-level_of_method m) ∙ e in
      let (t, r, rest) = calls-lines L cs u hs in
      (
        t,
        ap (λ q. q >>= λ w. calls Z cs w) e' ∙ r,
        rest ∙ ap (λ y. y ++ texts cs) wrote ∙ append_assoc (L.lines s) _ (texts cs),
      )
  calls-lines L (json m v ∷ cs) s (h, hs) = calls-lines L cs s hs
