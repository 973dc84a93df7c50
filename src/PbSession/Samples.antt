-- ===== src/PbSession/Samples.antt =====
-- Sessions at concrete streams: the state is the list of the payloads that were handled.
use native.Mathlib.Decide.{dec_lt}
use tactical_gateway.Base.{ℕ, ◌≡◌, refl, arith, List, [], ◌∷◌, ◌++◌}
use tactical_gateway.Base.Order.{lt_wf}
use tactical_gateway.Frame.{encode_frame, try_decode_frame, varint_loop, read_varint, read_payload}
use tactical_gateway.PbSession.{
  Outcome, carry_on, raised, waiting, closed, crashed, after_message, round_decoded, round,
  drain_all, handle_client,
}
use tactical_gateway.PbSession.Chunks.{
  handle_client-concat, handle_client_delivers, deliver, ended_session,
}

abbrev Log : Type 0
Log = List (List ℕ)

-- A handler that raises on an empty payload.
abbrev note_payload : Log → List ℕ → Outcome Log
note_payload s [] = raised s
note_payload s (b ∷ p) = carry_on (s ++ ((b ∷ p) ∷ []))

abbrev note_error : Log → Log
note_error s = s ++ ([] ∷ [])

-- Two frames cut inside the first payload.
abbrev two_chunks : List (List ℕ)
two_chunks = (0xbf ∷ 2 ∷ 0xbf ∷ 7 ∷ []) ∷ (8 ∷ 0xbf ∷ 1 ∷ 0xbf ∷ 9 ∷ []) ∷ []

two_payloads :
    handle_client note_payload note_error [] [] two_chunks
    ≡ waiting ((7 ∷ 8 ∷ []) ∷ (9 ∷ []) ∷ []) []
unfolding handle_client drain_all round round_decoded after_message try_decode_frame read_varint
    read_payload
two_payloads = refl

bad_magic : handle_client note_payload note_error [] [] ((1 ∷ []) ∷ two_chunks) ≡ closed ([] ∷ [])
unfolding handle_client drain_all round round_decoded after_message try_decode_frame read_varint
    read_payload
bad_magic = refl

handler_raises :
    handle_client note_payload note_error [] [] ((0xbf ∷ 0 ∷ 0xbf ∷ []) ∷ two_chunks) ≡ crashed []
unfolding handle_client drain_all round round_decoded after_message try_decode_frame read_varint
    read_payload
handler_raises = refl

one_buffer :
    handle_client note_payload note_error [] [] two_chunks
    ≡ drain_all note_payload note_error [] (0xbf ∷ 2 ∷ 0xbf ∷ 7 ∷ 8 ∷ 0xbf ∷ 1 ∷ 0xbf ∷ 9 ∷ [])
one_buffer = handle_client-concat note_payload note_error [] two_chunks (tt, (tt, tt))

handle_client_delivers_example :
    handle_client note_payload note_error [] [] two_chunks
    ≡ ended_session note_payload note_error
        (deliver note_payload note_error [] ((7 ∷ 8 ∷ []) ∷ (9 ∷ []) ∷ []))
unfolding encode_frame varint_loop lt_wf dec_lt
handle_client_delivers_example =
    handle_client_delivers note_payload note_error [] ((7 ∷ 8 ∷ []) ∷ (9 ∷ []) ∷ []) two_chunks
      (omega arith, (omega arith, tt)) (tt, (tt, tt)) refl
