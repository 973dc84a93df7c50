-- ===== src/Listeners/Samples.antt =====
-- A client that sends an event without a type, and then half of another one.
use tactical_gateway.Base.{
  ℕ, ◌≡◌, refl, Option, true, none, some, List, [], ◌∷◌, Text, codes, text_eq,
}
use tactical_gateway.Base.Dict.{lookup}
use tactical_gateway.Xml.{Element, element, nil}
use tactical_gateway.Schema.TextFloats.{text_floats}
use tactical_gateway.CotXml.Ingest.{normalized, raised, Times, cot_xml_to_cto, root_to_cto}
use tactical_gateway.XmlStream.{read_one_xml_event}
use tactical_gateway.Listeners.{
  Services, Listener, new_stats, dropped, unread, handle_message, handle_xml_client,
  handle_pb_client,
}
use tactical_gateway.CotPb.{CotEvent, Millis}
use tactical_gateway.CotPb.Ingest.{cot_pb_to_cto}
use tactical_gateway.Frame.{try_decode_frame, read_payload, read_varint}
use tactical_gateway.PbSession.{
  handle_client, drain_all, round, round_decoded, after_message, crashed,
}
use tactical_gateway.Listeners.PbClient.{Accounted, handle_pb_client-Accounted}
use tactical_gateway.Listeners.XmlClient.{Balanced, handle_xml_client-Balanced}

abbrev services : Services ℕ Text
services = record {
  now = λ w. w;
  uuid7 = λ w. w ∷ [];
  capture = λ b protocol t w. (
    some
        (record { sha256 = codes "aa"; object_key = codes "raw"; size_bytes = 1; captured_at = t }),
    w,
  );
  sink = λ c w. (true, w);
}

abbrev times : Times
times = record { from_iso = λ t. none; iso = λ n. some (codes "2026-05-20") }

abbrev from_string : List ℕ → Element
from_string b = element (codes "event") [] none nil

abbrev chunks : List (List ℕ)
chunks = codes "<event></ev" ∷ codes "ent> <ev" ∷ []

abbrev listener : Listener ℕ
listener = record { stats = new_stats; world = 5 }

handle_xml_client-Balanced_example : Balanced listener (
    handle_xml_client services text_floats
      (λ b. normalized (from_string b))
      times
      (codes "cot-xml-tcp")
      listener
      chunks)
handle_xml_client-Balanced_example =
    handle_xml_client-Balanced services text_floats (λ b. normalized (from_string b)) times
      (codes "cot-xml-tcp") listener chunks

-- An event in an encoding that the parser does not know ends the session, and no counter shows it.
unknown_encoding :
    handle_xml_client services text_floats (λ b. raised) times (codes "cot-xml-tcp") listener chunks
    ≡ unread listener
unfolding handle_xml_client read_one_xml_event
unknown_encoding = refl

-- One parse error is that of the message, the other that of the stream.
two_errors :
    handle_xml_client services text_floats
      (λ b. normalized (from_string b))
      times
      (codes "cot-xml-tcp")
      listener
      chunks
    ≡ dropped (record {
      stats = record {
        messages_received = 1;
        messages_normalized = 0;
        parse_errors = 2;
        last_message_at = some 5;
      };
      world = 5;
    })
unfolding handle_xml_client handle_message cot_xml_to_cto root_to_cto read_one_xml_event text_eq
    lookup
two_errors = refl

-- A frame with a payload that does not parse.
abbrev frame_bytes : List ℕ
frame_bytes = 0xbf ∷ 1 ∷ 0xbf ∷ 7 ∷ []

abbrev millis : Millis
millis = record { from_millis = λ n. some n; to_millis = λ n. n }

abbrev parse : List ℕ → Option (Option (CotEvent Text))
parse b = none

handle_pb_client-Accounted_example : Accounted listener (
    handle_pb_client services text_floats
      (λ t. none)
      millis
      parse
      (codes "cot-pb-tcp")
      listener
      (frame_bytes ∷ []))
handle_pb_client-Accounted_example =
    handle_pb_client-Accounted services text_floats (λ t. none) millis parse (codes "cot-pb-tcp")
      listener (frame_bytes ∷ [])

-- The DecodeError leaves the handler, and no counter shows it.
decode_error :
    handle_pb_client services text_floats
      (λ t. none)
      millis
      parse
      (codes "cot-pb-tcp")
      listener
      (frame_bytes ∷ [])
    ≡ crashed (record {
      stats = record {
        messages_received = 1;
        messages_normalized = 0;
        parse_errors = 0;
        last_message_at = some 5;
      };
      world = 5;
    })
unfolding handle_client drain_all round round_decoded after_message try_decode_frame handle_message
    cot_pb_to_cto read_payload read_varint
decode_error = refl
