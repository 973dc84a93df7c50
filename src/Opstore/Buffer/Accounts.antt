-- ===== src/Opstore/Buffer/Accounts.antt =====
-- Where the received messages are: written, failed, in the buffer, or in a write.
use mathlib.Core.Path.{subst}
use tactical_gateway.Base.{
  ℕ, ◌+◌, ◌≤◌, ◌≡◌, refl, Bool, true, false, Option, none, some, List, [], ◌∷◌, ◌++◌, Text, length,
  length-append, arith, ◌∙◌, ap,
}
use tactical_gateway.Base.Dict.{lookup, remove, keys}
use tactical_gateway.Opstore.{Cto, Db, write_ctos_with_supersession}
use tactical_gateway.Opstore.Buffer.{
  State, or_nil, new_opstore, buffer_cto, buffer_key, on_message, pop_batch, after_write,
  finish_batch, receive, write_out, flush_one, flush_keys, flush_all,
}
use tactical_gateway.Opstore.Buffer.Totals.{
  total, in_flight, total-store, total-remove, remove_all, remove_all-keys, total-remove_all-store,
}

module _ {B C : Type 0} (params : Cto B → Option C) where
  -- Every message was written, has failed, waits in the buffer, or is one of `n` being written.
  abbrev pub IsAccounted : ℕ → State B C → Type 0
  IsAccounted n s =
      s.messages_received ≡ s.messages_written + s.messages_failed + total s.buffer + n

  -- The states that the process reaches by messages, and by flushes whose write ends later, with the
  -- batches that are being written.
  pub data Reachable : List (List (Cto B)) → State B C → Type 0 where
    started : (db : Db C) → Reachable [] (new_opstore params db)
    received :
        (fs : List (List (Cto B))) (s : State B C) (now : ℕ) (m : Option (Cto B))
        → Reachable fs s
        → Reachable fs (on_message params now m s)
    popped :
        (fs : List (List (Cto B))) (s : State B C) (key : Text)
        → Reachable fs s
        → Reachable ((pop_batch params key s).0 ∷ fs) (pop_batch params key s).1
    finished :
        (fs : List (List (Cto B))) (ctos : List (Cto B)) (s : State B C) (ok : Bool)
        → Reachable (ctos ∷ fs) s
        → Reachable fs (finish_batch params ok ctos s)

  on_message-IsAccounted :
      (n now : ℕ) (m : Option (Cto B)) (s : State B C)
      → IsAccounted n s
      → IsAccounted n (on_message params now m s)
  unfolding on_message buffer_cto
  on_message-IsAccounted n now none s h = omega (arith, h)
  on_message-IsAccounted n now (some cto) s h =
      let old = or_nil (lookup (buffer_key cto) s.buffer) in
      omega (
        arith,
        h,
        total-store (buffer_key cto) (old ++ (cto ∷ [])) s.buffer,
        length-append old (cto ∷ []),
      )

  pop_batch-IsAccounted :
      (n : ℕ) (key : Text) (s : State B C)
      → IsAccounted n s
      → IsAccounted (length (pop_batch params key s).0 + n) (pop_batch params key s).1
  unfolding pop_batch
  pop_batch-IsAccounted n key s h = omega (arith, h, total-remove key s.buffer)

  finish_batch-IsAccounted :
      (n : ℕ) (ok : Bool) (ctos : List (Cto B)) (s : State B C)
      → IsAccounted (length ctos + n) s
      → IsAccounted n (finish_batch params ok ctos s)
  unfolding finish_batch
  finish_batch-IsAccounted n ok [] s h = omega (arith, h)
  finish_batch-IsAccounted n true (c ∷ cs) s h =
      written (write_ctos_with_supersession params (c ∷ cs) s.db)
    where
      written :
          (o : Option ((ℕ × ℕ) × Db C)) → IsAccounted n (after_write params (length (c ∷ cs)) o s)
      written none = omega (arith, h)
      written (some (_, db)) = omega (arith, h)
  finish_batch-IsAccounted n false (c ∷ cs) s h = omega (arith, h)

  -- In every state that messages and flushes reach, the messages received are those written, those
  -- failed, those in the buffer and those in a write.
  pub Reachable-IsAccounted :
      (fs : List (List (Cto B))) (s : State B C) → Reachable fs s → IsAccounted (in_flight fs) s
  unfolding new_opstore
  Reachable-IsAccounted fs s (started db) = omega arith
  Reachable-IsAccounted fs s (received fs' s' now m r) =
      on_message-IsAccounted (in_flight fs') now m s' (Reachable-IsAccounted fs' s' r)
  Reachable-IsAccounted fs s (popped fs' s' key r) =
      pop_batch-IsAccounted (in_flight fs') key s' (Reachable-IsAccounted fs' s' r)
  Reachable-IsAccounted fs s (finished fs' ctos s' ok r) =
      finish_batch-IsAccounted (in_flight fs') ok ctos s' (Reachable-IsAccounted (ctos ∷ fs') s' r)

  finish_batch_keeps :
      (ok : Bool) (ctos : List (Cto B)) (s : State B C)
      → ((finish_batch params ok ctos s).buffer ≡ s.buffer)
        × ((finish_batch params ok ctos s).messages_received ≡ s.messages_received)
  unfolding finish_batch
  finish_batch_keeps ok [] s = (refl, refl)
  finish_batch_keeps false (c ∷ cs) s = (refl, refl)
  finish_batch_keeps true (c ∷ cs) s = written (write_ctos_with_supersession params (c ∷ cs) s.db)
    where
      written :
          (o : Option ((ℕ × ℕ) × Db C))
          → ((after_write params (length (c ∷ cs)) o s).buffer ≡ s.buffer)
            × ((after_write params (length (c ∷ cs)) o s).messages_received ≡ s.messages_received)
      written none = (refl, refl)
      written (some (_, db)) = (refl, refl)

  -- From `s` to `t`, `n` messages arrived, and they are all that the buffer of `t` can have beyond that
  -- of `s`, apart from the given keys; and if `s` is accounted for, `t` is.
  abbrev Arrived : List Text → ℕ → State B C → State B C → Type 0
  Arrived ks n s t =
      (t.messages_received ≡ s.messages_received + n)
      × (total (remove_all ks t.buffer) ≤ total (remove_all ks s.buffer) + n)
      × ((m : ℕ) → IsAccounted m s → IsAccounted m t)

  Arrived-trans :
      (ks : List Text) (m n : ℕ) (s t u : State B C)
      → Arrived ks m s t
      → Arrived ks n t u
      → Arrived ks (m + n) s u
  Arrived-trans ks m n s t u (a, b, c) (a', b', c') =
      (omega (arith, a, a'), omega (arith, b, b'), λ k h. c' k (c k h))

  on_message-Arrived :
      (ks : List Text) (now : ℕ) (m : Option (Cto B)) (s : State B C)
      → Arrived ks 1 s (on_message params now m s)
  unfolding on_message buffer_cto
  on_message-Arrived ks now m s = (counted m, buffered m, λ n h. on_message-IsAccounted n now m s h)
    where
      counted :
          (m : Option (Cto B))
          → (on_message params now m s).messages_received ≡ s.messages_received + 1
      counted none = refl
      counted (some cto) = refl

      buffered :
          (m : Option (Cto B))
          → total (remove_all ks (on_message params now m s).buffer)
            ≤ total (remove_all ks s.buffer) + 1
      buffered none = omega arith
      buffered (some cto) = total-remove_all-store ks (buffer_key cto) cto s.buffer

  receive-Arrived :
      (ks : List Text) (ms : List (ℕ × Option (Cto B))) (s : State B C)
      → Arrived ks (length ms) s (receive params ms s)
  unfolding receive
  receive-Arrived ks [] s = (omega arith, omega arith, λ n h. h)
  receive-Arrived ks ((now, m) ∷ ms) s =
      let (a, b, c) =
        Arrived-trans ks 1 (length ms) s (on_message params now m s)
          (receive params ms (on_message params now m s)) (on_message-Arrived ks now m s)
          (receive-Arrived ks ms (on_message params now m s)) in
      (omega (arith, a), omega (arith, b), c)

  flush_one-Arrived :
      (ks : List Text) (ok : Bool) (ms : List (ℕ × Option (Cto B))) (key : Text) (s : State B C)
      → (n : ℕ) × ((flush_one params ok ms key s).messages_received ≡ s.messages_received + n)
        × (total (remove_all ks (flush_one params ok ms key s).buffer)
            ≤ total (remove_all (key ∷ ks) s.buffer) + n)
        × ((m : ℕ) → IsAccounted m s → IsAccounted m (flush_one params ok ms key s))
  unfolding flush_one pop_batch write_out
  flush_one-Arrived ks ok ms key s =
      out (pop_batch params key s).0 (λ m h. pop_batch-IsAccounted m key s h)
    where
      p : State B C
      p = (pop_batch params key s).1

      same : (p.messages_received ≡ s.messages_received) × (p.buffer ≡ remove key s.buffer)
      same = (refl, refl)

      out :
          (ctos : List (Cto B))
          → ((m : ℕ) → IsAccounted m s → IsAccounted (length ctos + m) p)
          → (n : ℕ) × ((write_out params ok ms ctos p).messages_received ≡ s.messages_received + n)
            × (total (remove_all ks (write_out params ok ms ctos p).buffer)
                ≤ total (remove_all ks (remove key s.buffer)) + n)
            × ((m : ℕ) → IsAccounted m s → IsAccounted m (write_out params ok ms ctos p))
      out [] counts = (
        0,
        omega (arith, same.0),
        rw (same.1) (omega arith),
        λ m h. let c = counts m h in omega (arith, c),
      )
      out (c ∷ cs) counts =
          let (got, kept, sums) = receive-Arrived ks ms p in
          let (buffer, got_then) = finish_batch_keeps ok (c ∷ cs) (receive params ms p) in
          (
            length ms,
            got_then ∙ omega (arith, got, same.0),
            rw buffer (
                subst
                  (λ b.
                    total (remove_all ks (receive params ms p).buffer)
                    ≤ total (remove_all ks b) + length ms)
                  (same.1) kept),
            λ m h.
                finish_batch-IsAccounted m ok (c ∷ cs) (receive params ms p)
                  (sums (length (c ∷ cs) + m) (counts m h)),
          )

  flush_keys-Arrived :
      (oks : Text → Bool) (arrivals : Text → List (ℕ × Option (Cto B))) (ks : List Text)
      (s : State B C)
      → (n : ℕ) × ((flush_keys params oks arrivals ks s).messages_received
          ≡ s.messages_received + n)
        × (total (flush_keys params oks arrivals ks s).buffer ≤ total (remove_all ks s.buffer) + n)
        × ((m : ℕ) → IsAccounted m s → IsAccounted m (flush_keys params oks arrivals ks s))
  unfolding flush_keys
  flush_keys-Arrived oks arrivals [] s = (0, omega arith, omega arith, λ m h. h)
  flush_keys-Arrived oks arrivals (k ∷ ks) s =
      let (n, a, b, c) = flush_one-Arrived ks (oks k) (arrivals k) k s in
      let (n', a', b', c') =
        flush_keys-Arrived oks arrivals ks (flush_one params (oks k) (arrivals k) k s) in
      (n + n', omega (arith, a, a'), omega (arith, b, b'), λ m h. c' m (c m h))

  -- Behind any messages and finished flushes, whichever writes commit and whatever messages arrive
  -- during the writes of `flush_all`: what is in the buffer afterwards is no more than what arrived
  -- during it, and every message received before it was written or has failed.
  pub flush_all_drains :
      (oks : Text → Bool) (arrivals : Text → List (ℕ × Option (Cto B))) (s : State B C)
      → Reachable [] s
      → let t = flush_all params oks arrivals s in
        (s.messages_received ≤ t.messages_written + t.messages_failed)
        × (s.messages_received + total t.buffer ≤ t.messages_received)
        × (t.messages_received ≡ t.messages_written + t.messages_failed + total t.buffer)
  unfolding flush_all
  flush_all_drains oks arrivals s r =
      let (n, got, left, sums) = flush_keys-Arrived oks arrivals (keys s.buffer) s in
      let empty = remove_all-keys s.buffer in
      let counts = sums 0 (Reachable-IsAccounted [] s r) in
      let nothing : total (remove_all (keys s.buffer) s.buffer) ≡ 0 = ap total empty in
      (
        omega (arith, got, left, counts, nothing),
        omega (arith, got, left, counts, nothing),
        omega (arith, got, left, counts, nothing),
      )
