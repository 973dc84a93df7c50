-- ===== src/Listeners.antt =====
-- services/gateway/listeners.py: the counters of a listener, and what the three listeners do with a
-- message and with a client. The splitting of the streams is in XmlStream and PbSession. The clock,
-- the UUIDs, the capture writer and the sink are parameters over the world `W`.
pub mod Counters
pub mod XmlClient
pub mod PbClient
mod Samples
use tactical_gateway.Base.{
  ℕ, zero, suc, ◌+◌, Bool, true, false, Option, none, some, List, [], ◌∷◌, Text, codes, concat,
  length, ◌>>=ₒ◌,
}
use tactical_gateway.Xml.{Element, tag_of}
use tactical_gateway.Schema.Records.{Floats, RawPointer, Cto}
use tactical_gateway.CotXml.Ingest.{Normalized, normalized, refused, raised, Times, cot_xml_to_cto}
use tactical_gateway.XmlStream.{
  XmlRead, event, no_more, broken, read_raised, RootTag, root_named, parse_error, parser_raised,
  read_one_xml_event,
}
use tactical_gateway.PbSession.{Outcome, carry_on, Session, handle_client}
use tactical_gateway.CotPb.{CotEvent, Millis}
use tactical_gateway.CotPb.Ingest.{cot_pb_to_cto}

pub record ListenerStats : Type 0 where
  pub messages_received : ℕ
  pub messages_normalized : ℕ
  pub parse_errors : ℕ
  pub last_message_at : Option ℕ

abbrev pub new_stats : ListenerStats
new_stats = record {
  messages_received = 0;
  messages_normalized = 0;
  parse_errors = 0;
  last_message_at = none;
}

-- `none` of the capture and `false` of the sink stand for an exception.
pub record Services (W F : Type 0) : Type 0 where
  pub now : W → ℕ
  pub uuid7 : W → Text
  pub capture : List ℕ → Text → ℕ → W → Option RawPointer × W
  pub sink : Cto F → W → Bool × W

pub record Listener (W : Type 0) : Type 0 where
  pub stats : ListenerStats
  pub world : W

abbrev pub count_received : ℕ → ListenerStats → ListenerStats
count_received t s = record s {
  messages_received = s.messages_received + 1;
  last_message_at = some t;
}

abbrev pub count_normalized : ListenerStats → ListenerStats
count_normalized s = record s { messages_normalized = s.messages_normalized + 1 }

abbrev pub count_parse_error : ListenerStats → ListenerStats
count_parse_error s = record s { parse_errors = s.parse_errors + 1 }

-- The count of a framing error, and of an event that is broken.
abbrev pub count_framing_error : {W : Type 0} → Listener W → Listener W
count_framing_error l = record l { stats = count_parse_error l.stats }

-- How the loop of an XML client ends: at the end of the stream, with the client dropped for a parse
-- error, by an exception of the handler, or by one of the parser while an event is read. `stuck` is no behaviour of the code: the fuel ran out.
pub data XmlSession (W : Type 0) : Type 0 where
  closed : Listener W → XmlSession W
  dropped : Listener W → XmlSession W
  crashed : Listener W → XmlSession W
  unread : Listener W → XmlSession W
  stuck : XmlSession W

module _ {W F : Type 0} (services : Services W F) where
  module _ (protocol : Text) (normalize : ℕ → RawPointer → Text → List ℕ → Normalized (Cto F)) where
    abbrev pub after_sink : ListenerStats → Bool × W → Outcome (Listener W)
    after_sink stats (true, w) = carry_on (record { stats = count_normalized stats; world = w })
    after_sink stats (false, w) = Outcome.raised (record { stats = stats; world = w })

    abbrev pub after_normalize : ListenerStats → W → Normalized (Cto F) → Outcome (Listener W)
    after_normalize stats w (normalized c) = after_sink stats (services.sink c w)
    after_normalize stats w refused =
        carry_on (record { stats = count_parse_error stats; world = w })
    after_normalize stats w raised = Outcome.raised (record { stats = stats; world = w })

    abbrev pub after_capture :
        ℕ → List ℕ → ListenerStats → Option RawPointer × W → Outcome (Listener W)
    after_capture t payload stats (none, w) = Outcome.raised (record { stats = stats; world = w })
    after_capture t payload stats (some pointer, w) =
        after_normalize stats w (normalize t pointer (services.uuid7 w) payload)

    -- `_handle_message` of the two TCP listeners, and `_process` of the UDP one, whose `try` has the
    -- capture in it, which raises no `CoTXmlParseError`.
    unfoldable pub handle_message : Listener W → List ℕ → Outcome (Listener W)
    handle_message l payload =
        let t = services.now l.world in
        after_capture t payload (count_received t l.stats)
          (services.capture payload protocol t l.world)

  -- The normalizer of an XML listener.
  abbrev pub xml_normalize :
      Floats F
      → (List ℕ → Normalized Element)
      → Times
      → Text
      → ℕ
      → RawPointer
      → Text
      → List ℕ
      → Normalized (Cto F)
  xml_normalize floats from_string times source_system t pointer uid =
      cot_xml_to_cto floats from_string times (record {
        source_system = source_system;
        received_at = t;
        raw_pointer = pointer;
        uid = uid;
      })

  module _ (floats : Floats F) (from_string : List ℕ → Normalized Element) (times : Times)
      (source_system : Text) where
    -- `_handle_message` of `CoTXmlTcpListener` and `_process` of `_CoTXmlUdpProtocol`.
    abbrev pub xml_message : Listener W → List ℕ → Outcome (Listener W)
    xml_message =
        handle_message (codes "cot_xml") (xml_normalize floats from_string times source_system)

    abbrev pub tag_read : Normalized Element → RootTag
    tag_read (normalized e) = root_named (tag_of e)
    tag_read refused = parse_error
    tag_read raised = parser_raised

    abbrev pub root_tag : List ℕ → RootTag
    root_tag payload = tag_read (from_string payload)

    -- What follows a message, and what follows an attempt to read one.
    abbrev pub next_event : (Listener W → XmlSession W) → Outcome (Listener W) → XmlSession W
    next_event again (carry_on l) = again l
    next_event again (Outcome.raised l) = crashed l

    abbrev pub after_read :
        (Listener W → List ℕ → List (List ℕ) → XmlSession W) → Listener W → XmlRead → XmlSession W
    after_read again l (event payload buf chunks) =
        next_event (λ l'. again l' buf chunks) (xml_message l payload)
    after_read again l no_more = closed l
    after_read again l broken = dropped (count_framing_error l)
    after_read again l read_raised = unread l

    -- The loop of `CoTXmlTcpListener._handle_client`, with fuel; each event takes a byte or more.
    unfoldable pub xml_loop : ℕ → Listener W → List ℕ → List (List ℕ) → XmlSession W
    xml_loop zero l buf chunks = stuck
    xml_loop (suc fuel) l buf chunks =
        after_read (xml_loop fuel) l (read_one_xml_event root_tag buf chunks)

    unfoldable pub handle_xml_client : Listener W → List (List ℕ) → XmlSession W
    unfolding xml_loop
    handle_xml_client l chunks = xml_loop (length (concat chunks) + 1) l [] chunks

  -- The normalizer of the protobuf listener; `parse` stands for the generated bindings.
  abbrev pub pb_normalize :
      Floats F
      → (Text → Option Element)
      → Millis
      → (List ℕ → Option (Option (CotEvent F)))
      → Text
      → ℕ
      → RawPointer
      → Text
      → List ℕ
      → Normalized (Cto F)
  pb_normalize floats from_text millis parse source_system t pointer uid =
      cot_pb_to_cto floats from_text millis
        (record {
          source_system = source_system;
          received_at = t;
          raw_pointer = pointer;
          uid = uid;
        })
        parse

  module _ (floats : Floats F) (from_text : Text → Option Element) (millis : Millis)
      (parse : List ℕ → Option (Option (CotEvent F))) (source_system : Text) where
    -- `_handle_message` of `CoTPbTcpListener`.
    abbrev pub pb_message : Listener W → List ℕ → Outcome (Listener W)
    pb_message =
        handle_message (codes "cot_pb") (pb_normalize floats from_text millis parse source_system)

    -- `_handle_client` of `CoTPbTcpListener`.
    abbrev pub handle_pb_client : Listener W → List (List ℕ) → Session (Listener W)
    handle_pb_client l chunks = handle_client pb_message count_framing_error l [] chunks
