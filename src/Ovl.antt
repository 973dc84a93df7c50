-- ===== src/Ovl.antt =====
-- services/gateway/ovl: the decoder of GCCS-J overlays.
pub mod Sidc
pub mod Prefix
pub mod Model
pub mod Decode
pub mod Shape
pub mod Side
pub mod Overlay
mod Samples
