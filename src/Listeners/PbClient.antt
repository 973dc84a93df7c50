-- ===== src/Listeners/PbClient.antt =====
-- The session of a protobuf client ends, and its counters account for each message.
use tactical_gateway.Base.{
  ℕ, zero, suc, ◌+◌, ◌≡◌, ◌≢◌, Option, List, [], ◌∷◌, ◌++◌, Text, codes, drop, arith,
}
use tactical_gateway.Xml.{Element}
use tactical_gateway.Schema.Records.{Floats}
use tactical_gateway.Frame.{Decoded, frame, incomplete, malformed, try_decode_frame}
use tactical_gateway.CotPb.{CotEvent, Millis}
use tactical_gateway.PbSession.{
  Outcome, carry_on, Session, waiting, Round, stop, again, round, round_decoded, after_message,
  drain, drain_all, handle_client,
}
use tactical_gateway.PbSession.Drain.{drain_ends}
use tactical_gateway.Listeners.{
  Services, Listener, count_framing_error, pb_normalize, pb_message, handle_pb_client,
}
use tactical_gateway.Listeners.Counters.{settled, Counted, handle_message-Counted}

module _ {W : Type 0} where
  -- A session that ends, or waits for more bytes, with `n` more messages received has `n` more outcomes,
  -- one more if the client is closed for a framing error, and one less if an exception ends it.
  abbrev Loose : Listener W → Session (Listener W) → Type 0
  Loose l (waiting l' _) =
      (n : ℕ) × (l'.stats.messages_received ≡ l.stats.messages_received + n)
      × (settled l'.stats ≡ settled l.stats + n)
  Loose l (Session.closed l') =
      (n : ℕ) × (l'.stats.messages_received ≡ l.stats.messages_received + n)
      × (settled l'.stats ≡ settled l.stats + n + 1)
  Loose l (Session.crashed l') =
      (n : ℕ) × (l'.stats.messages_received ≡ l.stats.messages_received + n + 1)
      × (settled l'.stats ≡ settled l.stats + n)
  Loose l Session.stuck = Unit {0}

  -- It ends, and the counters are as in `Loose`.
  abbrev pub Accounted : Listener W → Session (Listener W) → Type 0
  Accounted l r = (r ≢ Session.stuck) × Loose l r

  Loose-after :
      (l l' : Listener W) (n : ℕ) (r : Session (Listener W))
      → l'.stats.messages_received ≡ l.stats.messages_received + n
      → settled l'.stats ≡ settled l.stats + n
      → Loose l' r
      → Loose l r
  Loose-after l l' n (waiting x _) a b (m, c, d) = (n + m, omega (arith, a, c), omega (arith, b, d))
  Loose-after l l' n (Session.closed x) a b (m, c, d) =
      (n + m, omega (arith, a, c), omega (arith, b, d))
  Loose-after l l' n (Session.crashed x) a b (m, c, d) =
      (n + m, omega (arith, a, c), omega (arith, b, d))
  Loose-after l l' n Session.stuck a b h = tt

  abbrev RoundLoose : Listener W → Round (Listener W) → Type 0
  RoundLoose l (stop r) = Loose l r
  RoundLoose l (again l' rest) = Counted l (carry_on l')

module _ {W : Type 0} (message : Listener W → List ℕ → Outcome (Listener W))
    (counted : (l : Listener W) (p : List ℕ) → Counted l (message l p)) where
  after_message-RoundLoose :
      (l : Listener W) (rest : List ℕ) (o : Outcome (Listener W))
      → Counted l o
      → RoundLoose l (after_message message count_framing_error rest o)
  unfolding after_message
  after_message-RoundLoose l rest (carry_on l') h = h
  after_message-RoundLoose l rest (Outcome.raised l') (a, b) =
      (0, omega (arith, a), omega (arith, b))

  round-RoundLoose :
      (l : Listener W) (buf : List ℕ) → RoundLoose l (round message count_framing_error l buf)
  unfolding round round_decoded
  round-RoundLoose l buf = go (try_decode_frame buf)
    where
      go : (d : Decoded) → RoundLoose l (round_decoded message count_framing_error l buf d)
      go incomplete = (0, omega arith, omega arith)
      go (malformed x) = (0, omega arith, omega arith)
      go (frame p n) = after_message-RoundLoose l (drop n buf) (message l p) (counted l p)

  drain-Loose :
      (fuel : ℕ) (l : Listener W) (buf : List ℕ)
      → Loose l (drain message count_framing_error fuel l buf)
  unfolding drain
  drain-Loose zero l buf = tt
  drain-Loose (suc fuel) l buf =
      go (round message count_framing_error l buf) (round-RoundLoose l buf)
        (λ l' rest. drain-Loose fuel l' rest)
    where
      go :
          (r : Round (Listener W))
          → RoundLoose l r
          → ((l' : Listener W) (rest : List ℕ)
              → Loose l' (drain message count_framing_error fuel l' rest))
          → Loose l (elim r [
            | stop t ↦ t
            | again l' rest ↦ drain message count_framing_error fuel l' rest
          ])
      go (stop t) h ih = h
      go (again l' rest) (a, b) ih =
          Loose-after l l' 1 (drain message count_framing_error fuel l' rest) a b (ih l' rest)

  handle_client-Accounted :
      (l : Listener W) (buf : List ℕ) (chunks : List (List ℕ))
      → Accounted l (handle_client message count_framing_error l buf chunks)
  unfolding handle_client drain_all
  handle_client-Accounted l buf [] = (λ e. ground (arith, e), (0, omega arith, omega arith))
  handle_client-Accounted l buf ([] ∷ chunks) =
      (λ e. ground (arith, e), (0, omega arith, omega arith))
  handle_client-Accounted l buf ((b ∷ c) ∷ chunks) =
      go (drain_all message count_framing_error l (buf ++ (b ∷ c)))
        (drain_ends message count_framing_error l (buf ++ (b ∷ c)))
        (drain-Loose _ l (buf ++ (b ∷ c))) (λ l' rest. handle_client-Accounted l' rest chunks)
    where
      go :
          (r : Session (Listener W))
          → r ≢ Session.stuck
          → Loose l r
          → ((l' : Listener W) (rest : List ℕ)
              → Accounted l' (handle_client message count_framing_error l' rest chunks))
          → Accounted l (elim r [
            | waiting s rest ↦ handle_client message count_framing_error s rest chunks
            | Session.closed s ↦ Session.closed s
            | Session.crashed s ↦ Session.crashed s
            | Session.stuck ↦ Session.stuck
          ])
      go (waiting l' rest) ne (n, a, b) ih =
          let (ends, loose) = ih l' rest in
          (
            ends,
            Loose-after l l' n (handle_client message count_framing_error l' rest chunks) a b loose,
          )
      go (Session.closed l') ne h ih = (ne, h)
      go (Session.crashed l') ne h ih = (ne, h)
      go Session.stuck ne h ih = (ne, h)

-- Whatever the client sends, its session ends or waits for more, and the counters account for each
-- message: it was normalized or counted as a parse error, but not the last one if an exception ended
-- the session; a client that is closed for a framing error adds one more parse error.
pub handle_pb_client-Accounted :
    {W F : Type 0} (services : Services W F) (floats : Floats F) (from_text : Text → Option Element)
    (millis : Millis) (parse : List ℕ → Option (Option (CotEvent F))) (source_system : Text)
    (l : Listener W) (chunks : List (List ℕ))
    → Accounted l (handle_pb_client services floats from_text millis parse source_system l chunks)
handle_pb_client-Accounted services floats from_text millis parse source_system l chunks =
    handle_client-Accounted (pb_message services floats from_text millis parse source_system)
      (λ l' p.
        handle_message-Counted services (codes "cot_pb")
          (pb_normalize services floats from_text millis parse source_system) l' p)
      l [] chunks
