-- ===== src/Log/Std.antt =====
-- pkg/log/std.go: the program's logger under the methods of the standard library's. zerolog's
-- `Print` and `Printf` are parameters, beside its events.
use gpgfs.Base.{
  ◌≡◌, ◌≢◌, refl, sym, ◌∙◌, ap, Bool, if◌then◌else◌, Result, ok, ◌>>=◌, List, [], ◌∷◌, ◌++◌, All,
  append-nil, append_assoc,
}
use gpgfs.Std.Strings.{Str, codes}
use gpgfs.Server.Logger.{LogLevel, Events}
use gpgfs.Server.Logger.Lines.{IsEvents}

-- The methods by their first words: `Fatal`, `Fatalf` and `Fatalln` are the calls of `fatal`.
pub data StdMethod : Type 0 where
  debug error fatal panic : StdMethod

pub data StdCall (Value : Type 0) : Type 0 where
  printf : Str → Value → StdCall Value
  print println : Value → StdCall Value
  plain ln : StdMethod → Value → StdCall Value
  format : StdMethod → Str → Value → StdCall Value

-- `Print` and `Printf` of zerolog's logger; `listed` makes the arguments of a call the one argument
-- of another.
pub record Prints (Z : Events) : Type 0 where
  pub print : Z.Value → Z.Sink → Result Z.Sink
  pub printf : Str → Z.Value → Z.Sink → Result Z.Sink
  pub listed : Z.Value → Z.Value

unfoldable pub std_level : StdMethod → LogLevel
std_level StdMethod.debug = LogLevel.debug
std_level StdMethod.error = LogLevel.error
std_level StdMethod.fatal = LogLevel.fatal
std_level StdMethod.panic = LogLevel.panic

module _ (Z : Events) (P : Prints Z) where
  unfoldable pub std_call : StdCall Z.Value → Z.Sink → Result Z.Sink
  unfolding std_level
  std_call (printf f v) s = P.printf f v s
  std_call (print v) s = P.print v s
  std_call (println v) s = P.print v s
  std_call (plain m v) s = Z.msg (Z.sprintf (codes "%v") (P.listed v)) (Z.event (std_level m)) s
  std_call (ln m v) s = Z.msg (Z.sprintf (codes "%v") (P.listed v)) (Z.event (std_level m)) s
  std_call (format m f v) s = Z.msg (Z.sprintf f v) (Z.event (std_level m)) s

  -- Calls one after the other, up to the one that does not return.
  unfoldable pub std_calls : List (StdCall Z.Value) → Z.Sink → Result Z.Sink
  unfolding std_call
  std_calls [] s = ok s
  std_calls (c ∷ cs) s = std_call c s >>= λ t. std_calls cs t

  -- "Print sends a log event using debug level and no extra field", and `Printf` too.
  pub record IsPrints : Type 0 where
    pub print-debug :
        (v : Z.Value) (s : Z.Sink) → P.print v s ≡ Z.msg (Z.sprint v) (Z.event LogLevel.debug) s
    pub printf-debug :
        (f : Str) (v : Z.Value) (s : Z.Sink)
        → P.printf f v s ≡ Z.msg (Z.sprintf f v) (Z.event LogLevel.debug) s

-- The level and the text of a call's line.
abbrev pub std_line : (Z : Events) → Prints Z → StdCall Z.Value → LogLevel × Str
std_line Z P (printf f v) = (LogLevel.debug, Z.sprintf f v)
std_line Z P (print v) = (LogLevel.debug, Z.sprint v)
std_line Z P (println v) = (LogLevel.debug, Z.sprint v)
std_line Z P (plain m v) = (std_level m, Z.sprintf (codes "%v") (P.listed v))
std_line Z P (ln m v) = (std_level m, Z.sprintf (codes "%v") (P.listed v))
std_line Z P (format m f v) = (std_level m, Z.sprintf f v)

module _ (Z : Events) (P : Prints Z) (enabled : LogLevel → Bool) where
  std_call-msg :
      (D : IsPrints Z P) (c : StdCall Z.Value) (s : Z.Sink)
      → std_call Z P c s ≡ Z.msg (std_line Z P c).1 (Z.event (std_line Z P c).0) s
  unfolding std_call
  std_call-msg D (printf f v) s = D.printf-debug f v s
  std_call-msg D (print v) s = D.print-debug v s
  std_call-msg D (println v) s = D.print-debug v s
  std_call-msg D (plain m v) s = refl
  std_call-msg D (ln m v) s = refl
  std_call-msg D (format m f v) s = refl

  -- Below the levels of `Fatal` and `Panic`.
  abbrev pub StdReturns : StdCall Z.Value → Type 0
  StdReturns c = ((std_line Z P c).0 ≢ LogLevel.fatal) × ((std_line Z P c).0 ≢ LogLevel.panic)

  -- The lines of the calls.
  abbrev pub std_lines : List (StdCall Z.Value) → List (LogLevel × Str)
  std_lines [] = []
  std_lines (c ∷ cs) =
      let line = std_line Z P c in
      (if enabled line.0 then (line.0, line.1) ∷ [] else []) ++ std_lines cs

  -- Calls below the levels of `Fatal` and `Panic` return and have written their lines in their
  -- order, those of an enabled level and no others; `Println` writes at the level of debugging. An
  -- event that is ended writes one line if its level is enabled, and zerolog's `Print` is one at
  -- the level of debugging.
  std_calls-lines :
      (L : IsEvents Z enabled) (D : IsPrints Z P) (cs : List (StdCall Z.Value)) (s : Z.Sink)
      → All StdReturns cs
      → (t : Z.Sink) × (std_calls Z P cs s ≡ ok t) × (L.lines t ≡ L.lines s ++ std_lines cs)
  unfolding std_calls
  std_calls-lines L D [] s h = (s, refl, sym (append-nil (L.lines s)))
  std_calls-lines L D (c ∷ cs) s ((f, p), hs) =
      let line = std_line Z P c in
      let (u, e, wrote) = L.msg-line line.0 line.1 s f p in
      let (t, r, rest) = std_calls-lines L D cs u hs in
      (
        t,
        rw (std_call-msg D c s, e) r,
        rest ∙ ap (λ x. x ++ std_lines cs) wrote ∙ append_assoc (L.lines s) _ (std_lines cs),
      )
