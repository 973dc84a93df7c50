-- ===== src/CotPb/Samples.antt =====
-- Runs of the TAK protobuf normalizer. A float is its text.
use tactical_gateway.Base.{◌≡◌, refl, none, some, [], Text, codes, text_eq}
use tactical_gateway.Xml.{Element, element, nil}
use tactical_gateway.Schema.Records.{Cto}
use tactical_gateway.Schema.TextFloats.{text_floats}
use tactical_gateway.CotXml.Ingest.{normalized, Source}
use tactical_gateway.CotPb.{CotEvent, Millis}
use tactical_gateway.CotPb.Ingest.{event_cto, event_to_cto}
use tactical_gateway.CotPb.RoundTrip.{Kept, event_to_cto-Kept}

abbrev source : Source
source = record {
  source_system = codes "cot-pb-tcp:1.2.3.4:5";
  received_at = 9;
  raw_pointer = record {
    sha256 = codes "aa";
    object_key = codes "raw/1";
    size_bytes = 3;
    captured_at = 9;
  };
  uid = codes "0190";
}

abbrev millis : Millis
millis = record { from_millis = λ n. some n; to_millis = λ n. n }

abbrev from_text : Text → Element
from_text t = element (codes "detail") [] none nil

abbrev to_text : Element → Text
to_text e = codes "<x/>"

abbrev sample : CotEvent Text
sample = record {
  type_ = codes "a-h-A";
  uid = codes "TRK-1";
  send_time = 1;
  start_time = 1;
  stale_time = 2;
  how = codes "m-g";
  lat = codes "34.5";
  lon = codes "-77.4";
  hae = codes "12";
  ce = codes "2.5";
  le = codes "3";
  detail = some (record {
    xml_detail = codes "<a/>";
    contact = some (record { endpoint = codes "*:-1:stcp"; callsign = codes "EAGLE" });
    group = some (record { name = codes "Blue"; role = codes "HQ" });
    precision_location = none;
    battery = some (codes "80");
    takv = none;
    track = none;
  });
}

abbrev sample_cto : Cto Text
sample_cto = event_cto text_floats (λ t. some (from_text t)) millis source sample 1 1 2

sample_read :
    event_to_cto text_floats (λ t. some (from_text t)) millis source sample ≡ normalized sample_cto
unfolding event_to_cto
sample_read = refl

event_to_cto-Kept_example :
    Kept text_floats (λ t. some (from_text t)) to_text millis source sample sample_cto
unfolding text_eq
event_to_cto-Kept_example =
    event_to_cto-Kept text_floats (λ t. some (from_text t)) to_text millis source sample sample_cto
      refl sample_read refl refl
