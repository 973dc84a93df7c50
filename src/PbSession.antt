-- ===== src/PbSession.antt =====
-- One client of the TAK protobuf listener: `CoTPbTcpListener._handle_client` of
-- services/gateway/listeners.py, over the state `S` that its messages change. The bytes arrive in
-- chunks, and an empty chunk is the end of the stream.
pub mod Drain
pub mod Chunks
mod Samples
use tactical_gateway.Base.{ℕ, zero, suc, ◌+◌, List, [], ◌∷◌, ◌++◌, length, drop}
use tactical_gateway.Frame.{try_decode_frame, Decoded, frame, incomplete, malformed}

-- How `_handle_message` ends: it returns, or it raises what the client's loop does not catch.
pub data Outcome (S : Type 0) : Type 0 where
  carry_on : S → Outcome S
  raised : S → Outcome S

-- How a loop over the buffer ends: it waits for more bytes with what is left in the buffer, the
-- client is closed by a framing error, or an exception leaves the handler. `stuck` is no behaviour
-- of the code: the fuel of `drain` ran out.
pub data Session (S : Type 0) : Type 0 where
  waiting : S → List ℕ → Session S
  closed : S → Session S
  crashed : S → Session S
  stuck : Session S

-- One round of the inner loop: it stops, or goes on with the rest of the buffer.
pub data Round (S : Type 0) : Type 0 where
  stop : Session S → Round S
  again : S → List ℕ → Round S

-- `message` stands for `self._handle_message`, `framing_error` for the count of a `CoTPbError`.
module _ {S : Type 0} (message : S → List ℕ → Outcome S) (framing_error : S → S) where
  unfoldable pub after_message : List ℕ → Outcome S → Round S
  after_message rest (carry_on s) = again s rest
  after_message rest (raised s) = stop (crashed s)

  unfoldable pub round_decoded : S → List ℕ → Decoded → Round S
  round_decoded s buf incomplete = stop (waiting s buf)
  round_decoded s buf (malformed x) = stop (closed (framing_error s))
  round_decoded s buf (frame p n) = after_message (drop n buf) (message s p)

  unfoldable pub round : S → List ℕ → Round S
  round s buf = round_decoded s buf (try_decode_frame buf)

  -- The inner loop, with fuel; each round but the last takes three bytes or more.
  unfoldable pub drain : ℕ → S → List ℕ → Session S
  drain zero s buf = stuck
  drain (suc fuel) s buf = elim (round s buf) [ stop r ↦ r | again s' rest ↦ drain fuel s' rest ]

  unfoldable pub drain_all : S → List ℕ → Session S
  unfolding drain
  drain_all s buf = drain (length buf + 1) s buf

  -- The outer loop over the chunks that `reader.read` returns.
  unfoldable pub handle_client : S → List ℕ → List (List ℕ) → Session S
  handle_client s buf [] = waiting s buf
  handle_client s buf ([] ∷ _) = waiting s buf
  handle_client s buf ((b ∷ chunk) ∷ chunks) = elim (drain_all s (buf ++ (b ∷ chunk))) [
    | waiting s' rest ↦ handle_client s' rest chunks
    | closed s' ↦ closed s'
    | crashed s' ↦ crashed s'
    | stuck ↦ stuck
  ]
