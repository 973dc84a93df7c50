-- ===== src/Listeners/Counters.antt =====
-- What a message does to the counters of a listener.
use tactical_gateway.Base.{
  ℕ, ◌+◌, ◌≡◌, refl, Bool, true, false, Option, none, some, List, Text, arith,
}
use tactical_gateway.Schema.Records.{RawPointer, Cto}
use tactical_gateway.CotXml.Ingest.{Normalized, normalized, refused, raised}
use tactical_gateway.PbSession.{Outcome, carry_on}
use tactical_gateway.Listeners.{
  ListenerStats, Services, Listener, after_sink, after_normalize, after_capture, count_received,
  handle_message,
}

-- The messages of a listener that have an outcome in its counters.
abbrev pub settled : ListenerStats → ℕ
settled s = s.messages_normalized + s.parse_errors

module _ {W : Type 0} where
  -- The message that was received has an outcome, but not if an exception leaves the handler.
  abbrev pub Counted : Listener W → Outcome (Listener W) → Type 0
  Counted l (carry_on l') =
      (l'.stats.messages_received ≡ l.stats.messages_received + 1)
      × (settled l'.stats ≡ settled l.stats + 1)
  Counted l (Outcome.raised l') =
      (l'.stats.messages_received ≡ l.stats.messages_received + 1)
      × (settled l'.stats ≡ settled l.stats)

module _ {W F : Type 0} (services : Services W F) where
  module _ (protocol : Text) (normalize : ℕ → RawPointer → Text → List ℕ → Normalized (Cto F))
      (l : Listener W) where
    -- Counters with the message received, and no outcome yet.
    abbrev Open : ListenerStats → Type 0
    Open s = (s.messages_received ≡ l.stats.messages_received + 1) × (settled s ≡ settled l.stats)

    after_sink-Counted :
        (s : ListenerStats) (r : Bool × W)
        → Open s
        → Counted l (after_sink services protocol normalize s r)
    after_sink-Counted s (true, w) (r, o) = (r, omega (arith, o))
    after_sink-Counted s (false, w) (r, o) = (r, o)

    after_normalize-Counted :
        (s : ListenerStats) (w : W) (n : Normalized (Cto F))
        → Open s
        → Counted l (after_normalize services protocol normalize s w n)
    after_normalize-Counted s w (normalized c) h = after_sink-Counted s (services.sink c w) h
    after_normalize-Counted s w refused (r, o) = (r, omega (arith, o))
    after_normalize-Counted s w raised (r, o) = (r, o)

    after_capture-Counted :
        (t : ℕ) (payload : List ℕ) (s : ListenerStats) (r : Option RawPointer × W)
        → Open s
        → Counted l (after_capture services protocol normalize t payload s r)
    after_capture-Counted t payload s (none, w) (r, o) = (r, o)
    after_capture-Counted t payload s (some pointer, w) h =
        after_normalize-Counted s w (normalize t pointer (services.uuid7 w) payload) h

    pub handle_message-Counted :
        (payload : List ℕ) → Counted l (handle_message services protocol normalize l payload)
    unfolding handle_message
    handle_message-Counted payload =
        after_capture-Counted (services.now l.world) payload
          (count_received (services.now l.world) l.stats)
          (services.capture payload protocol (services.now l.world) l.world) (refl, refl)
