-- ===== src/Opstore/Buffer.antt =====
-- The class `Opstore` of services/opstore/main.py: the buffer of the received objects and its
-- flushes. Times are in milliseconds. A flush awaits its write, and the messages that arrive in the
-- meantime are an argument of it.
pub mod Totals
pub mod Accounts
use tactical_gateway.Base.{
  ℕ, ◌+◌, Bool, true, false, ◌&&◌, not, Option, none, some, List, [], ◌∷◌, ◌++◌, Text, codes,
  length, leb, if◌then◌else◌,
}
use tactical_gateway.Base.Dict.{lookup, store, remove, keys}
use tactical_gateway.Opstore.{Cto, Db, is_truthy, write_ctos_with_supersession}

abbrev pub batch_window_ms : ℕ
batch_window_ms = 200

abbrev pub or_nil {ℓ} : {A : Type ℓ} → Option (List A) → List A
or_nil none = []
or_nil (some l) = l

-- A value in an f-string.
abbrev pub shown : Option Text → Text
shown none = codes "None"
shown (some v) = v

abbrev pub key_for : Text → Option Text → Option Text → Text
key_for system filename source =
    if is_truthy filename
    then codes "kmz:" ++ (shown filename ++ (codes ":" ++ shown source))
    else codes "stream:" ++ system

unfoldable pub buffer_key : {B : Type 0} → Cto B → Text
unfolding lookup
buffer_key cto =
    key_for cto.source_system (lookup (codes "parent_kmz_filename") cto.attributes)
      (lookup (codes "parent_kmz_source") cto.attributes)

pub record State (B C : Type 0) : Type 0 where
  pub messages_received : ℕ
  pub messages_written : ℕ
  pub messages_failed : ℕ
  pub buffer : List (Text × List (Cto B))
  pub buffer_started_at : List (Text × ℕ)
  pub db : Db C

module _ {B C : Type 0} (params : Cto B → Option C) where
  unfoldable pub new_opstore : Db C → State B C
  new_opstore db = record {
    messages_received = 0;
    messages_written = 0;
    messages_failed = 0;
    buffer = [];
    buffer_started_at = [];
    db = db;
  }

  abbrev pub start_time : ℕ → Text → List (Cto B) → List (Text × ℕ) → List (Text × ℕ)
  start_time now key [] started = store key now started
  start_time now key (_ ∷ _) started = started

  unfoldable pub buffer_cto : ℕ → Text → Cto B → State B C → State B C
  unfolding store lookup
  buffer_cto now key cto s =
      let batch = or_nil (lookup key s.buffer) in
      record s {
        buffer = store key (batch ++ (cto ∷ [])) s.buffer;
        buffer_started_at = start_time now key batch s.buffer_started_at;
      }

  -- `_on_message`: `none` is a message that does not decode or validate.
  unfoldable pub on_message : ℕ → Option (Cto B) → State B C → State B C
  unfolding buffer_cto buffer_key
  on_message now none s = record s {
    messages_received = s.messages_received + 1;
    messages_failed = s.messages_failed + 1;
  }
  on_message now (some cto) s =
      buffer_cto now (buffer_key cto) cto (record s { messages_received = s.messages_received + 1 })

  -- `_flush_one` up to its await: the batch is taken out of the buffer.
  unfoldable pub pop_batch : Text → State B C → List (Cto B) × State B C
  unfolding lookup remove
  pop_batch key s = (
    or_nil (lookup key s.buffer),
    record s { buffer = remove key s.buffer; buffer_started_at = remove key s.buffer_started_at },
  )

  abbrev pub count_failed : ℕ → State B C → State B C
  count_failed n s = record s { messages_failed = s.messages_failed + n }

  abbrev pub after_write : ℕ → Option ((ℕ × ℕ) × Db C) → State B C → State B C
  after_write n none s = count_failed n s
  after_write n (some (_, db)) s = record s { messages_written = s.messages_written + n; db = db }

  -- `_write_batch` and what follows it: `false` is a connection or a transaction that fails. On a raise
  -- the transaction is rolled back.
  unfoldable pub finish_batch : Bool → List (Cto B) → State B C → State B C
  unfolding write_ctos_with_supersession
  finish_batch ok [] s = s
  finish_batch true (c ∷ cs) s =
      after_write (length (c ∷ cs)) (write_ctos_with_supersession params (c ∷ cs) s.db) s
  finish_batch false (c ∷ cs) s = count_failed (length (c ∷ cs)) s

  -- Messages, each with the time when it is handled.
  abbrev pub Messages : Type 0
  Messages = List (ℕ × Option (Cto B))

  unfoldable pub receive : Messages → State B C → State B C
  unfolding on_message
  receive [] s = s
  receive ((now, m) ∷ ms) s = receive ms (on_message now m s)

  -- What follows the pop: the messages arrive while the write is awaited, and no batch is no await.
  unfoldable pub write_out : Bool → Messages → List (Cto B) → State B C → State B C
  unfolding finish_batch receive
  write_out ok ms [] s = s
  write_out ok ms (c ∷ cs) s = finish_batch ok (c ∷ cs) (receive ms s)

  unfoldable pub flush_one : Bool → Messages → Text → State B C → State B C
  unfolding pop_batch write_out
  flush_one ok ms key s = let (ctos, s') = pop_batch key s in write_out ok ms ctos s'

  abbrev pub has_some : Option (List (Cto B)) → Bool
  has_some none = false
  has_some (some []) = false
  has_some (some (_ ∷ _)) = true

  -- The keys whose window is over at `now`.
  unfoldable pub ready_keys : ℕ → List (Text × ℕ) → List (Text × List (Cto B)) → List Text
  unfolding lookup
  ready_keys now [] buffer = []
  ready_keys now ((key, started) ∷ d) buffer =
      let rest = ready_keys now d buffer in
      if leb (started + batch_window_ms) now && has_some (lookup key buffer)
      then key ∷ rest
      else rest

  -- `oks` says which of the writes commit, and `arrivals` which messages arrive during them.
  unfoldable pub flush_keys : (Text → Bool) → (Text → Messages) → List Text → State B C → State B C
  unfolding flush_one
  flush_keys oks arrivals [] s = s
  flush_keys oks arrivals (key ∷ ks) s =
      flush_keys oks arrivals ks (flush_one (oks key) (arrivals key) key s)

  -- One pass of `_flush_loop` behind its sleep.
  unfoldable pub flush_ready : (Text → Bool) → (Text → Messages) → ℕ → State B C → State B C
  unfolding ready_keys flush_keys
  flush_ready oks arrivals now s =
      flush_keys oks arrivals (ready_keys now s.buffer_started_at s.buffer) s

  -- The keys are listed once, before the first write.
  unfoldable pub flush_all : (Text → Bool) → (Text → Messages) → State B C → State B C
  unfolding flush_keys
  flush_all oks arrivals s = flush_keys oks arrivals (keys s.buffer) s
