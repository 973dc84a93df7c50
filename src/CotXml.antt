-- ===== src/CotXml.antt =====
-- services/gateway/normalizers/cot_xml.py: CoT XML to a CTO and back. An event is the element that
-- the XML parser gives; dates and floats are parameters.
pub mod Types
pub mod Detail
pub mod Entries
pub mod RoundTrip
pub mod Ingest
pub mod Egress
pub mod Forward
pub mod Results
pub mod Origin
pub mod Event
pub mod Stored
mod Samples
