-- ===== src/CotPb.antt =====
-- services/gateway/normalizers/cot_pb.py: a TAK message as a CTO and back. The generated bindings of
-- cotevent.proto, taken as present, are parameters: a message is the record of the fields that the code reads
-- or sets; an unset text is empty, and an unset number is zero.
pub mod Ingest
pub mod Egress
pub mod RoundTrip
mod Samples
use tactical_gateway.Base.{ℕ, Option, none, [], Text}
use tactical_gateway.Schema.Records.{Floats}

pub record Contact : Type 0 where
  pub endpoint : Text
  pub callsign : Text

pub record Group : Type 0 where
  pub name : Text
  pub role : Text

pub record PrecisionLocation : Type 0 where
  pub geopointsrc : Text
  pub altsrc : Text

pub record Takv : Type 0 where
  pub device : Text
  pub platform : Text
  pub os : Text
  pub version : Text

pub record Track (F : Type 0) : Type 0 where
  pub speed : F
  pub course : F

pub record Detail (F : Type 0) : Type 0 where
  pub xml_detail : Text
  pub contact : Option Contact
  pub group : Option Group
  pub precision_location : Option PrecisionLocation
  pub battery : Option Text
  pub takv : Option Takv
  pub track : Option (Track F)

pub record CotEvent (F : Type 0) : Type 0 where
  pub type_ : Text
  pub uid : Text
  pub send_time : ℕ
  pub start_time : ℕ
  pub stale_time : ℕ
  pub how : Text
  pub lat : F
  pub lon : F
  pub hae : F
  pub ce : F
  pub le : F
  pub detail : Option (Detail F)

-- What the code uses of dates: a time in milliseconds as a date, which may be out of range, and back.
pub record Millis : Type 0 where
  pub from_millis : ℕ → Option ℕ
  pub to_millis : ℕ → ℕ
