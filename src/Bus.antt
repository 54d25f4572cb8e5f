-- ===== src/Bus.antt =====
-- pkg/bus: the channel of configuration updates, and the Update methods of the configurations.
use gpgfs.Base.{
  ◌≤◌, ◌≡◌, refl, sym, ap, ◌∙◌, Option, none, some, List, [], ◌∷◌, ◌++◌, length, append_assoc,
  arith,
}
use gpgfs.Std.Strings.{Str, codes}

-- `ConfigUpdate`
pub record ConfigUpdate (C : Type 0) : Type 0 where
  pub subsystem : Str
  pub config : C

-- `make(chan ConfigUpdate, 1)`: what was sent and not received yet. A send to a full channel and a
-- receive from an empty one wait, which is `none`.
abbrev pub Channel : Type 0 → Type 0
Channel C = Option (ConfigUpdate C)

module _ {C : Type 0} where
  abbrev pub send : ConfigUpdate C → Channel C → Option (Channel C)
  send u none = some (some u)
  send u (some v) = none

  abbrev pub receive : Channel C → Option (ConfigUpdate C × Channel C)
  receive none = none
  receive (some u) = some (u, none)

  -- The Update methods of `log.Config`, `telemetry.Config` and `config.Config`.
  unfoldable pub log_update : C → Channel C → Option (Channel C)
  log_update update ch = send (record { subsystem = codes "log"; config = update }) ch

  unfoldable pub telemetry_update : C → Channel C → Option (Channel C)
  telemetry_update update ch = send (record { subsystem = codes "telemetry"; config = update }) ch

  unfoldable pub config_update : C → Channel C → Option (Channel C)
  config_update update ch = send (record { subsystem = codes "config"; config = update }) ch

-- What was sent, what was received, and the channel.
pub record History (C : Type 0) : Type 0 where
  pub sent : List (ConfigUpdate C)
  pub received : List (ConfigUpdate C)
  pub channel : Channel C

module _ {C : Type 0} where
  abbrev pub quiet : History C
  quiet = record { sent = []; received = []; channel = none }

  abbrev with_sent : History C → Str → C → Channel C → History C
  with_sent h subsystem update ch = record h {
    sent = h.sent ++ record { subsystem = subsystem; config = update } ∷ [];
    channel = ch;
  }

  -- An update that does not wait, or a receive of the event loop.
  pub data Step (h : History C) : History C → Type 0 where
    log_sent :
        (update : C) (ch : Channel C)
        → log_update update h.channel ≡ some ch
        → Step h (with_sent h (codes "log") update ch)
    telemetry_sent :
        (update : C) (ch : Channel C)
        → telemetry_update update h.channel ≡ some ch
        → Step h (with_sent h (codes "telemetry") update ch)
    config_sent :
        (update : C) (ch : Channel C)
        → config_update update h.channel ≡ some ch
        → Step h (with_sent h (codes "config") update ch)
    taken :
        (u : ConfigUpdate C) (ch : Channel C)
        → receive h.channel ≡ some (u, ch)
        → Step h (record h { received = h.received ++ u ∷ []; channel = ch })

  pub data Steps (h : History C) : History C → Type 0 where
    start : Steps h h
    then : {k l : History C} → Steps h k → Step k l → Steps h l

  abbrev pub waiting : Channel C → List (ConfigUpdate C)
  waiting none = []
  waiting (some u) = u ∷ []

  send-waiting :
      (u : ConfigUpdate C) (c ch : Channel C)
      → send u c ≡ some ch
      → waiting ch ≡ waiting c ++ u ∷ []
  send-waiting u none ch e = let q : some u ≡ ch = cc in ap waiting (sym q)
  send-waiting u (some v) ch e = absurd cc

  receive-waiting :
      (u : ConfigUpdate C) (c ch : Channel C)
      → receive c ≡ some (u, ch)
      → waiting c ≡ u ∷ waiting ch
  receive-waiting u none ch e = absurd cc
  receive-waiting u (some v) ch e = let q : ch ≡ none = cc in let r : u ≡ v = cc in rw (q, r) refl

  -- Nothing is lost or moved on the way through the channel.
  abbrev pub InOrder : History C → Type 0
  InOrder h = h.sent ≡ h.received ++ waiting h.channel

  sent-InOrder :
      (h : History C) (subsystem : Str) (update : C) (ch : Channel C)
      → send (record { subsystem = subsystem; config = update }) h.channel ≡ some ch
      → InOrder h
      → InOrder (with_sent h subsystem update ch)
  sent-InOrder h subsystem update ch e o =
      let u : ConfigUpdate C = record { subsystem = subsystem; config = update } in
      ap (λ l. l ++ u ∷ []) o
      ∙ append_assoc h.received (waiting h.channel) (u ∷ [])
      ∙ ap (λ l. h.received ++ l) (sym (send-waiting u h.channel ch e))

  Step-InOrder : (h k : History C) → Step h k → InOrder h → InOrder k
  unfolding log_update telemetry_update config_update
  Step-InOrder h k (log_sent update ch e) o = sent-InOrder h (codes "log") update ch e o
  Step-InOrder h k (telemetry_sent update ch e) o = sent-InOrder h (codes "telemetry") update ch e o
  Step-InOrder h k (config_sent update ch e) o = sent-InOrder h (codes "config") update ch e o
  Step-InOrder h k (taken u ch e) o =
      o
      ∙ ap (λ l. h.received ++ l) (receive-waiting u h.channel ch e)
      ∙ sym (append_assoc h.received (u ∷ []) (waiting ch))

  Steps-InOrder : (h : History C) → Steps quiet h → InOrder h
  Steps-InOrder h start = refl
  Steps-InOrder h (then {k} steps step) = Step-InOrder k h step (Steps-InOrder k steps)

  one_waits : (c : Channel C) → length (waiting c) ≤ 1
  one_waits none = omega arith
  one_waits (some u) = omega arith

  -- However the updates of the logger, the telemetry and the configuration and the receives are
  -- interleaved, what was sent is what was received, in the same order, and then what waits in the
  -- channel, which is one update at most.
  pub Steps-ordered :
      (h : History C)
      → Steps quiet h
      → (h.sent ≡ h.received ++ waiting h.channel) × (length (waiting h.channel) ≤ 1)
  Steps-ordered h steps = (Steps-InOrder h steps, one_waits h.channel)
