-- ===== src/Kml.antt =====
-- services/gateway/kmz_parser.py: the placemarks of a KML document and their geometry.
pub mod Tree
pub mod Coordinates
pub mod Placemark
pub mod Valid
pub mod Decode
pub mod Document
mod Samples
