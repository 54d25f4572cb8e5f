-- ===== src/Server/Logger.antt =====
-- pkg/server/middleware/logger.go: the logger of the framework over the program's. zerolog's events
-- and the formats of fmt are parameters.
pub mod Lines
use gpgfs.Base.{Option, none, some, ℕ, Result, ok, ◌>>=◌, List, [], ◌∷◌}
use gpgfs.Std.Strings.{Str, codes}

-- zerolog's levels.
pub data LogLevel : Type 0 where
  trace debug info warn error fatal panic no_level disabled : LogLevel

-- An event has the level that it was begun with and the fields that were put in; `msg` ends it.
-- `Value` is `interface{}`; the variadic arguments of a call are one value.
pub record Events : Type 1 where
  pub Event : Type 0
  pub Value : Type 0
  pub Sink : Type 0
  pub event : LogLevel → Event
  pub interface_field : Str → Value → Event → Event
  pub msg : Str → Event → Sink → Result Sink
  pub sprint : Value → Str
  pub sprintf : Str → Value → Str
  pub get_level : Sink → LogLevel
  pub level_string : LogLevel → Str
  pub str_field : Str → Str → Event → Event
  pub uint8_field : Str → ℕ → Event → Event

-- The methods by their first words: `Debug`, `Debugf` and `Debugj` are the calls of `debug`.
pub data Method : Type 0 where
  debug info warn error fatal panic print : Method

pub data Call (Value : Type 0) : Type 0 where
  plain : Method → Value → Call Value
  format : Method → Str → Value → Call Value
  json : Method → Value → Call Value

unfoldable pub level_of_method : Method → LogLevel
level_of_method Method.debug = LogLevel.debug
level_of_method Method.info = LogLevel.info
level_of_method Method.warn = LogLevel.warn
level_of_method Method.error = LogLevel.error
level_of_method Method.fatal = LogLevel.fatal
level_of_method Method.panic = LogLevel.panic
level_of_method print = LogLevel.info

module _ (Z : Events) where
  -- `logJSON`: the event with its field, which nothing ends.
  unfoldable pub log_json : Z.Event → Z.Value → Z.Sink → Z.Event × Z.Sink
  log_json e v s = (Z.interface_field (codes "json") v e, s)

  unfoldable pub call : Call Z.Value → Z.Sink → Result Z.Sink
  unfolding level_of_method log_json
  call (plain m v) s = Z.msg (Z.sprint v) (Z.event (level_of_method m)) s
  call (format m f v) s = Z.msg (Z.sprintf f v) (Z.event (level_of_method m)) s
  call (json m v) s = ok (log_json (Z.event (level_of_method m)) v s).1

  -- Calls one after the other, up to the one that does not return.
  unfoldable pub calls : List (Call Z.Value) → Z.Sink → Result Z.Sink
  unfolding call
  calls [] s = ok s
  calls (c ∷ cs) s = call c s >>= λ t. calls cs t

-- The levels of the framework: `glog.DEBUG` to `glog.ERROR`.
unfoldable pub mapped : LogLevel → Option ℕ
mapped LogLevel.debug = some 1
mapped trace = some 1
mapped LogLevel.info = some 2
mapped LogLevel.warn = some 3
mapped LogLevel.error = some 4
mapped LogLevel.fatal = none
mapped LogLevel.panic = none
mapped no_level = none
mapped disabled = none

module _ (Z : Events) where
  -- The other levels are `glog.Lvl(0)`, with a warning.
  level_or_warn : Option ℕ → Z.Sink → Result (ℕ × Z.Sink)
  level_or_warn (some n) s = ok (n, s)
  level_or_warn none s =
      Z.msg (codes "failed to map logger middleware log level, using default")
        (Z.uint8_field (codes "default") 0
          (Z.str_field (codes "level") (Z.level_string (Z.get_level s)) (Z.event LogLevel.warn)))
        s
      >>= λ t. ok (0, t)

  -- `Level`
  unfoldable pub level : Z.Sink → Result (ℕ × Z.Sink)
  unfolding mapped level_or_warn
  level s = level_or_warn (mapped (Z.get_level s)) s
