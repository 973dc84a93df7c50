-- ===== src/PbSession/Drain.antt =====
-- The inner loop ends on every buffer, and bytes that arrive later do not change what it did before.
use tactical_gateway.Base.{
  ℕ, zero, suc, ◌+◌, ◌<◌, ◌≡◌, refl, ◌≢◌, ◌⊎◌, inl, inr, List, ◌++◌, length, length-drop,
  drop-append_le, arith,
}
use native.Mathlib.Numerals.{add-one}
use tactical_gateway.Frame.{try_decode_frame}
use tactical_gateway.Frame.Prefix.{
  try_decode_frame-append_frame, try_decode_frame-append_malformed, try_decode_frame_bounds,
}
use tactical_gateway.Frame.RoundTrip.{Decoded-cases}
use tactical_gateway.PbSession.{
  Outcome, Session, waiting, closed, crashed, stuck, Round, stop, again, after_message,
  round_decoded, round, drain, drain_all,
}

Round-cases :
    {S : Type 0} (r : Round S)
    → ((t : Session S) × (r ≡ stop t)) ⊎ ((s : S) × (rest : List ℕ) × (r ≡ again s rest))
Round-cases (stop t) = inl (t, refl)
Round-cases (again s rest) = inr (s, rest, refl)

module _ {S : Type 0} (message : S → List ℕ → Outcome S) (framing_error : S → S) where
  -- A round goes on only behind a whole frame, with that much less in the buffer.
  round_again :
      (s s' : S) (buf rest : List ℕ)
      → round message framing_error s buf ≡ again s' rest
      → length rest < length buf
  unfolding round round_decoded after_message
  round_again s s' buf rest e = elim (Decoded-cases (try_decode_frame buf)) [
    | inl waits ↦ ground (arith, waits)
    | inr (inl (p, n, r)) ↦ ground (arith, r, try_decode_frame_bounds buf p n r, length-drop n buf)
    | inr (inr (x, r)) ↦ ground (arith, r)
  ]

  drain_fuel :
      (f g : ℕ) (s : S) (buf : List ℕ)
      → length buf < f
      → length buf < g
      → drain message framing_error f s buf ≡ drain message framing_error g s buf
  unfolding drain
  drain_fuel zero g s buf hf hg = absurd (omega arith)
  drain_fuel (suc f) zero s buf hf hg = absurd (omega arith)
  drain_fuel (suc f) (suc g) s buf hf hg = elim (Round-cases (round message framing_error s buf)) [
    | inl (t, e) ↦ rw (e, drain) refl
    | inr (s', rest, e) ↦
        let less = round_again s s' buf rest e in
        rw (e, drain) (drain_fuel f g s' rest (omega arith) (omega arith))
  ]

  -- The equation of the inner loop without fuel.
  pub drain_all_stop :
      (s : S) (buf : List ℕ) (t : Session S)
      → round message framing_error s buf ≡ stop t
      → drain_all message framing_error s buf ≡ t
  unfolding drain_all
  drain_all_stop s buf t e = rw (add-one, e, drain) refl

  pub drain_all_again :
      (s s' : S) (buf rest : List ℕ)
      → round message framing_error s buf ≡ again s' rest
      → drain_all message framing_error s buf ≡ drain_all message framing_error s' rest
  unfolding drain_all
  drain_all_again s s' buf rest e =
      let less = round_again s s' buf rest e in
      rw (add-one (length buf), e, drain)
        (drain_fuel (length buf) (length rest + 1) s' rest (omega arith) (omega arith))

  -- What the outer loop does with the rest of a buffer once more bytes are there.
  unfoldable pub resume : Session S → List ℕ → Session S
  resume (waiting s rest) more = drain_all message framing_error s (rest ++ more)
  resume (closed s) more = closed s
  resume (crashed s) more = crashed s
  resume stuck more = stuck

  round-append_again :
      (s s' : S) (buf rest more : List ℕ)
      → round message framing_error s buf ≡ again s' rest
      → round message framing_error s (buf ++ more) ≡ again s' (rest ++ more)
  unfolding round round_decoded after_message
  round-append_again s s' buf rest more e = elim (Decoded-cases (try_decode_frame buf)) [
    | inl waits ↦ ground (arith, waits)
    | inr (inl (p, n, r)) ↦ ground (
      arith,
      r,
      try_decode_frame-append_frame buf more p n r,
      try_decode_frame_bounds buf p n r,
      drop-append_le n buf more,
    )
    | inr (inr (x, r)) ↦ ground (arith, r)
  ]

  round-append_stop :
      (s : S) (buf more : List ℕ) (t : Session S)
      → round message framing_error s buf ≡ stop t
      → (t ≡ waiting s buf)
        ⊎ ((round message framing_error s (buf ++ more) ≡ stop t) × (resume t more ≡ t))
  unfolding round round_decoded after_message resume
  round-append_stop s buf more t e = elim (Decoded-cases (try_decode_frame buf)) [
    | inl waits ↦ inl (ground (arith, waits))
    | inr (inl (p, n, r)) ↦
        inr (ground (arith, r, try_decode_frame-append_frame buf more p n r), ground (arith, r))
    | inr (inr (x, r)) ↦
        inr (ground (arith, r, try_decode_frame-append_malformed buf more x r), ground (arith, r))
  ]

  resume_drain_fuel :
      (f : ℕ) (s : S) (buf more : List ℕ)
      → length buf < f
      → resume (drain_all message framing_error s buf) more
        ≡ drain_all message framing_error s (buf ++ more)
  resume_drain_fuel zero s buf more h = absurd (omega arith)
  resume_drain_fuel (suc f) s buf more h = elim (Round-cases (round message framing_error s buf)) [
    | inl (t, e) ↦ elim (round-append_stop s buf more t e) [
      | inl waits ↦ rw (drain_all_stop s buf t e, waits) (unfold resume in refl)
      | inr (e', same) ↦ rw (drain_all_stop s buf t e, drain_all_stop s (buf ++ more) t e') same
    ]
    | inr (s', rest, e) ↦
        rw
          (
            drain_all_again s s' buf rest e,
            drain_all_again s s' (buf ++ more) (rest ++ more)
                (round-append_again s s' buf rest more e),
          )
          (resume_drain_fuel f s' rest more (omega (arith, round_again s s' buf rest e)))
  ]

  pub resume_drain :
      (s : S) (buf more : List ℕ)
      → resume (drain_all message framing_error s buf) more
        ≡ drain_all message framing_error s (buf ++ more)
  resume_drain s buf more = resume_drain_fuel (length buf + 1) s buf more (omega arith)

  stop_ne_stuck :
      (s : S) (buf : List ℕ) (t : Session S)
      → round message framing_error s buf ≡ stop t
      → t ≢ stuck
  unfolding round round_decoded after_message
  stop_ne_stuck s buf t e = elim (Decoded-cases (try_decode_frame buf)) [
    | inl waits ↦ ground (arith, waits)
    | inr (inl (p, n, r)) ↦ ground (arith, r)
    | inr (inr (x, r)) ↦ ground (arith, r)
  ]

  drain_ends_fuel :
      (f : ℕ) (s : S) (buf : List ℕ)
      → length buf < f
      → drain_all message framing_error s buf ≢ stuck
  drain_ends_fuel zero s buf h = absurd (omega arith)
  drain_ends_fuel (suc f) s buf h = elim (Round-cases (round message framing_error s buf)) [
    | inl (t, e) ↦ rw (drain_all_stop s buf t e) (stop_ne_stuck s buf t e)
    | inr (s', rest, e) ↦
        rw (drain_all_again s s' buf rest e)
          (drain_ends_fuel f s' rest (omega (arith, round_again s s' buf rest e)))
  ]

  -- The inner loop ends on every buffer: its fuel never runs out.
  pub drain_ends : (s : S) (buf : List ℕ) → drain_all message framing_error s buf ≢ stuck
  drain_ends s buf = drain_ends_fuel (length buf + 1) s buf (omega arith)
