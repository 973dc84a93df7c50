-- ===== src/PbSession/Chunks.antt =====
-- The client's session does not depend on how the stream was cut into chunks, and frames that were
-- encoded by `encode_frame` are delivered one by one in their order.
use tactical_gateway.Base.{
  ℕ, ◌^◌, ◌<◌, ◌≡◌, refl, ◌∙◌, List, [], ◌∷◌, ◌++◌, map, concat, length, append-nil, append_assoc,
  drop-length-append, All,
}
use tactical_gateway.Frame.{encode_frame, try_decode_frame}
use tactical_gateway.Frame.RoundTrip.{try_decode_frame-encode_frame}
use tactical_gateway.PbSession.{
  Outcome, carry_on, raised, Session, waiting, closed, crashed, stuck, after_message, round_decoded,
  round, drain_all, handle_client,
}
use tactical_gateway.PbSession.Drain.{drain_all_stop, drain_all_again, resume, resume_drain}

abbrev pub IsChunk : List ℕ → Type 0
IsChunk [] = ⊥
IsChunk (_ ∷ _) = Unit

module _ {S : Type 0} (message : S → List ℕ → Outcome S) (framing_error : S → S) where
  -- Nothing more can be done with this buffer.
  abbrev IsDrained : S → List ℕ → Type 0
  IsDrained s buf = drain_all message framing_error s buf ≡ waiting s buf

  IsDrained-nothing : (s : S) → IsDrained s []
  unfolding round round_decoded try_decode_frame
  IsDrained-nothing s = drain_all_stop message framing_error s [] (waiting s []) refl

  IsDrained-rest :
      (s s' : S) (buf rest : List ℕ)
      → drain_all message framing_error s buf ≡ waiting s' rest
      → IsDrained s' rest
  unfolding resume
  IsDrained-rest s s' buf rest e =
      let again_from = resume_drain message framing_error s buf [] in
      rw (e, append-nil rest, append-nil buf, e) at again_from

  handle_client-buffered :
      (s : S) (buf : List ℕ) (chunks : List (List ℕ))
      → IsDrained s buf
      → All IsChunk chunks
      → handle_client message framing_error s buf chunks
        ≡ drain_all message framing_error s (buf ++ concat chunks)
  unfolding handle_client
  handle_client-buffered s buf [] d h = rw (append-nil, d) (unfold handle_client in refl)
  handle_client-buffered s buf ([] ∷ chunks) d h = absurd h.0
  handle_client-buffered s buf ((b ∷ c) ∷ chunks) d h =
      go (drain_all message framing_error s (buf ++ (b ∷ c))) refl
        (λ s' rest d'. handle_client-buffered s' rest chunks d' h.1)
    where
      resumed :
          (t : Session S)
          → drain_all message framing_error s (buf ++ (b ∷ c)) ≡ t
          → resume message framing_error t (concat chunks)
            ≡ drain_all message framing_error s ((buf ++ (b ∷ c)) ++ concat chunks)
      resumed t e = rw e at (resume_drain message framing_error s (buf ++ (b ∷ c)) (concat chunks))

      run :
          (t : Session S)
          → drain_all message framing_error s (buf ++ (b ∷ c)) ≡ t
          → ((s' : S) (rest : List ℕ)
              → IsDrained s' rest
              → handle_client message framing_error s' rest chunks
                ≡ drain_all message framing_error s' (rest ++ concat chunks))
          → handle_client message framing_error s buf ((b ∷ c) ∷ chunks)
            ≡ drain_all message framing_error s ((buf ++ (b ∷ c)) ++ concat chunks)
      run (waiting s' rest) e ih =
          rw (e, handle_client)
            (ih s' rest (IsDrained-rest s s' (buf ++ (b ∷ c)) rest e)
              ∙ unfold resume in resumed (waiting s' rest) e)
      run (closed s') e ih = rw (e, handle_client) (unfold resume in resumed (closed s') e)
      run (crashed s') e ih = rw (e, handle_client) (unfold resume in resumed (crashed s') e)
      run stuck e ih = rw (e, handle_client) (unfold resume in resumed stuck e)

      go :
          (t : Session S)
          → drain_all message framing_error s (buf ++ (b ∷ c)) ≡ t
          → ((s' : S) (rest : List ℕ)
              → IsDrained s' rest
              → handle_client message framing_error s' rest chunks
                ≡ drain_all message framing_error s' (rest ++ concat chunks))
          → handle_client message framing_error s buf ((b ∷ c) ∷ chunks)
            ≡ drain_all message framing_error s (buf ++ ((b ∷ c) ++ concat chunks))
      go t e ih = rw (← append_assoc buf (b ∷ c) (concat chunks)) (run t e ih)

  -- Cut the stream into non-empty chunks as you like: the session ends as if all bytes had come in
  -- one buffer.
  pub handle_client-concat :
      (s : S) (chunks : List (List ℕ))
      → All IsChunk chunks
      → handle_client message framing_error s [] chunks
        ≡ drain_all message framing_error s (concat chunks)
  handle_client-concat s chunks h = handle_client-buffered s [] chunks (IsDrained-nothing s) h

  -- The messages one after another, up to the first that raises.
  unfoldable pub deliver : S → List (List ℕ) → Outcome S
  deliver s [] = carry_on s
  deliver s (p ∷ ps) = elim (message s p) [ carry_on s' ↦ deliver s' ps | raised s' ↦ raised s' ]

  abbrev pub ended_session : Outcome S → Session S
  ended_session (carry_on s) = waiting s []
  ended_session (raised s) = crashed s

  frames_round :
      (s : S) (p more : List ℕ)
      → length p < 2 ^ 42
      → round message framing_error s (encode_frame p ++ more)
        ≡ after_message message framing_error more (message s p)
  unfolding round round_decoded
  frames_round s p more h =
      rw (try_decode_frame-encode_frame p more h, drop-length-append (encode_frame p) more)

  drain_frames :
      (s : S) (ps : List (List ℕ))
      → All (λ p. length p < 2 ^ 42) ps
      → drain_all message framing_error s (concat (map encode_frame ps))
        ≡ ended_session (deliver s ps)
  unfolding deliver
  drain_frames s [] h = IsDrained-nothing s
  drain_frames s (p ∷ ps) h = go (message s p) refl (λ s'. drain_frames s' ps h.1)
    where
      go :
          (o : Outcome S)
          → message s p ≡ o
          → ((s' : S)
              → drain_all message framing_error s' (concat (map encode_frame ps))
                ≡ ended_session (deliver s' ps))
          → drain_all message framing_error s (encode_frame p ++ concat (map encode_frame ps))
            ≡ ended_session (deliver s (p ∷ ps))
      go (carry_on s') e ih =
          drain_all_again message framing_error s s' _ (concat (map encode_frame ps)) (
            rw (frames_round s p (concat (map encode_frame ps)) h.0, e)
              (unfold after_message in refl))
          ∙ rw (e, deliver) (ih s')
      go (raised s') e ih =
          drain_all_stop message framing_error s _ (crashed s') (
            rw (frames_round s p (concat (map encode_frame ps)) h.0, e)
              (unfold after_message in refl))
          ∙ rw (e, deliver) refl

  -- However the frames of a sequence of payloads are cut into chunks, each payload below 2 ^ 42
  -- bytes is handed to the message handler once and in order, up to the first that raises, and no
  -- byte is left over.
  pub handle_client_delivers :
      (s : S) (ps chunks : List (List ℕ))
      → All (λ p. length p < 2 ^ 42) ps
      → All IsChunk chunks
      → concat chunks ≡ concat (map encode_frame ps)
      → handle_client message framing_error s [] chunks ≡ ended_session (deliver s ps)
  handle_client_delivers s ps chunks small h e =
      handle_client-concat s chunks h ∙ rw e (drain_frames s ps small)
