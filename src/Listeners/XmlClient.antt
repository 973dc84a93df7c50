-- ===== src/Listeners/XmlClient.antt =====
-- The session of an XML client ends, and its counters account for each message.
use tactical_gateway.Base.{
  ℕ, zero, suc, ◌+◌, ◌≤◌, ◌<◌, ◌≡◌, inl, inr, Option, none, some, List, [], ◌∷◌, ◌++◌, Text, codes,
  text_eq, length, length-append, concat, starts_with, arith, Bool-cases,
}
use tactical_gateway.Xml.{Element}
use tactical_gateway.Schema.Records.{Floats}
use tactical_gateway.CotXml.Ingest.{Normalized, Times}
use tactical_gateway.XmlStream.{
  XmlRead, event, no_more, broken, read_raised, RootTag, root_named, parse_error, parser_raised,
  close_tag, put_first, split_event, all_blank, checked, at_eof, found, read_one_xml_event,
}
use tactical_gateway.XmlStream.Exact.{Exact, read_one_xml_event-Exact}
use tactical_gateway.PbSession.{Outcome, carry_on}
use tactical_gateway.Listeners.{
  Services, Listener, XmlSession, closed, dropped, crashed, unread, stuck, xml_normalize,
  xml_message, root_tag, next_event, after_read, xml_loop, handle_xml_client,
}
use tactical_gateway.Listeners.Counters.{settled, Counted, handle_message-Counted}

-- An event that is read has at least one byte.
abbrev SomeBytes : XmlRead → Type 0
SomeBytes (event payload _ _) = 1 ≤ length payload
SomeBytes no_more = Unit {0}
SomeBytes broken = Unit {0}
SomeBytes read_raised = Unit {0}

abbrev SomeFront : Option (List ℕ × List ℕ) → Type 0
SomeFront none = Unit {0}
SomeFront (some (t, _)) = 1 ≤ length t

SomeFront-put_first : (c : ℕ) (o : Option (List ℕ × List ℕ)) → SomeFront (put_first c o)
SomeFront-put_first c none = tt
SomeFront-put_first c (some (t, r)) = omega arith

split_event-SomeFront : (s : List ℕ) → SomeFront (split_event s)
unfolding split_event
split_event-SomeFront [] = tt
split_event-SomeFront (c ∷ s) = elim (Bool-cases (starts_with (c ∷ s) close_tag)) [
  | inl yes_ ↦ rw yes_ (omega arith)
  | inr no_ ↦ rw no_ (SomeFront-put_first c (split_event s))
]

module _ (tag : List ℕ → RootTag) where
  checked-SomeBytes :
      (t r : List ℕ) (chunks : List (List ℕ)) (o : RootTag)
      → 1 ≤ length t
      → SomeBytes (checked tag t r chunks o)
  unfolding checked
  checked-SomeBytes t r chunks parse_error h = tt
  checked-SomeBytes t r chunks parser_raised h = tt
  checked-SomeBytes t r chunks (root_named x) h = elim (Bool-cases (text_eq x (codes "event"))) [
    | inl yes_ ↦ rw yes_ h
    | inr no_ ↦ rw no_ tt
  ]

  found-SomeBytes :
      (o : Option (List ℕ × List ℕ)) (chunks : List (List ℕ)) (more : XmlRead)
      → SomeFront o
      → SomeBytes more
      → SomeBytes (found tag o chunks more)
  unfolding found
  found-SomeBytes none chunks more h m = m
  found-SomeBytes (some (t, r)) chunks more h m = checked-SomeBytes t r chunks (tag t) h

  at_eof-SomeBytes : (buf : List ℕ) → SomeBytes (at_eof tag buf)
  at_eof-SomeBytes buf = elim (Bool-cases (all_blank buf)) [
    | inl yes_ ↦ rw yes_ tt
    | inr no_ ↦ rw no_ tt
  ]

  read-SomeBytes :
      (buf : List ℕ) (chunks : List (List ℕ)) → SomeBytes (read_one_xml_event tag buf chunks)
  unfolding read_one_xml_event
  read-SomeBytes buf [] =
      found-SomeBytes (split_event buf) [] _ (split_event-SomeFront buf) (at_eof-SomeBytes buf)
  read-SomeBytes buf ([] ∷ chunks) =
      found-SomeBytes (split_event buf) ([] ∷ chunks) _ (split_event-SomeFront buf)
        (at_eof-SomeBytes buf)
  read-SomeBytes buf ((c ∷ chunk) ∷ chunks) =
      found-SomeBytes (split_event buf) ((c ∷ chunk) ∷ chunks) _ (split_event-SomeFront buf)
        (read-SomeBytes (buf ++ (c ∷ chunk)) chunks)

module _ {W : Type 0} where
  -- A session that ends with `n` more messages received has `n` more outcomes, one more if the client
  -- is dropped for a parse error, and one less if an exception ends it.
  abbrev pub Balanced : Listener W → XmlSession W → Type 0
  Balanced l (closed l') =
      (n : ℕ) × (l'.stats.messages_received ≡ l.stats.messages_received + n)
      × (settled l'.stats ≡ settled l.stats + n)
  Balanced l (dropped l') =
      (n : ℕ) × (l'.stats.messages_received ≡ l.stats.messages_received + n)
      × (settled l'.stats ≡ settled l.stats + n + 1)
  Balanced l (crashed l') =
      (n : ℕ) × (l'.stats.messages_received ≡ l.stats.messages_received + n + 1)
      × (settled l'.stats ≡ settled l.stats + n)
  Balanced l (unread l') =
      (n : ℕ) × (l'.stats.messages_received ≡ l.stats.messages_received + n)
      × (settled l'.stats ≡ settled l.stats + n)
  Balanced l stuck = ⊥

Balanced-after :
    {W : Type 0} (l l' : Listener W) (r : XmlSession W)
    → Counted l (carry_on l')
    → Balanced l' r
    → Balanced l r
Balanced-after l l' (closed x) (a, b) (n, c, d) = (n + 1, omega (arith, a, c), omega (arith, b, d))
Balanced-after l l' (dropped x) (a, b) (n, c, d) = (n + 1, omega (arith, a, c), omega (arith, b, d))
Balanced-after l l' (crashed x) (a, b) (n, c, d) = (n + 1, omega (arith, a, c), omega (arith, b, d))
Balanced-after l l' (unread x) (a, b) (n, c, d) = (n + 1, omega (arith, a, c), omega (arith, b, d))
Balanced-after l l' stuck h b = b

-- What is left behind an event is shorter.
shorter :
    (s payload gap buf : List ℕ) (rest : List ℕ)
    → s ≡ payload ++ (gap ++ (buf ++ rest))
    → 1 ≤ length payload
    → length (buf ++ rest) + 1 ≤ length s
shorter s payload gap buf rest e h =
    rw (e, length-append payload (gap ++ (buf ++ rest)), length-append gap (buf ++ rest))
      (omega (arith, h))

module _ {W F : Type 0} (services : Services W F) (floats : Floats F)
    (from_string : List ℕ → Normalized Element) (times : Times) (source_system : Text) where
  abbrev tag : List ℕ → RootTag
  tag = root_tag services floats from_string times source_system

  next_event-Balanced :
      (l : Listener W) (again : Listener W → XmlSession W) (o : Outcome (Listener W))
      → Counted l o
      → ((l' : Listener W) → Balanced l' (again l'))
      → Balanced l (next_event services floats from_string times source_system again o)
  next_event-Balanced l again (carry_on l') h ih = Balanced-after l l' (again l') h (ih l')
  next_event-Balanced l again (Outcome.raised l') (a, b) ih =
      (0, omega (arith, a), omega (arith, b))

  after_read-Balanced :
      (l : Listener W) (s : List ℕ) (again : Listener W → List ℕ → List (List ℕ) → XmlSession W)
      (r : XmlRead)
      → Exact s r
      → SomeBytes r
      → ((l' : Listener W) (buf : List ℕ) (chunks : List (List ℕ))
          → length (buf ++ concat chunks) + 1 ≤ length s
          → Balanced l' (again l' buf chunks))
      → Balanced l (after_read services floats from_string times source_system again l r)
  after_read-Balanced l s again (event payload buf chunks) (gap, _, e) some_ ih =
      next_event-Balanced l (λ l'. again l' buf chunks)
        (xml_message services floats from_string times source_system l payload)
        (handle_message-Counted services (codes "cot_xml")
          (xml_normalize services floats from_string times source_system) l payload)
        (λ l'. ih l' buf chunks (shorter s payload gap buf (concat chunks) e some_))
  after_read-Balanced l s again no_more x b ih = (0, omega arith, omega arith)
  after_read-Balanced l s again broken x b ih = (0, omega arith, omega arith)
  after_read-Balanced l s again read_raised x b ih = (0, omega arith, omega arith)

  xml_loop-Balanced :
      (fuel : ℕ) (l : Listener W) (buf : List ℕ) (chunks : List (List ℕ))
      → length (buf ++ concat chunks) < fuel
      → Balanced l (xml_loop services floats from_string times source_system fuel l buf chunks)
  unfolding xml_loop
  xml_loop-Balanced zero l buf chunks h = absurd (omega (arith, h))
  xml_loop-Balanced (suc fuel) l buf chunks h =
      let s : List ℕ = buf ++ concat chunks in
      after_read-Balanced l s (xml_loop services floats from_string times source_system fuel)
        (read_one_xml_event tag buf chunks) (read_one_xml_event-Exact tag buf chunks)
        (read-SomeBytes tag buf chunks)
        (λ l' buf' chunks' less. xml_loop-Balanced fuel l' buf' chunks' (omega (arith, h, less)))

  -- Whatever the client sends, its session ends, and the counters account for each message: it was
  -- normalized or counted as a parse error, but not the last one if an exception of the handler ended
  -- the session; a client that is dropped for a broken event adds one more parse error; and an
  -- exception of the parser while an event is read ends the session and is in no counter.
  pub handle_xml_client-Balanced :
      (l : Listener W) (chunks : List (List ℕ))
      → Balanced l (handle_xml_client services floats from_string times source_system l chunks)
  unfolding handle_xml_client
  handle_xml_client-Balanced l chunks =
      xml_loop-Balanced (length (concat chunks) + 1) l [] chunks (omega arith)
