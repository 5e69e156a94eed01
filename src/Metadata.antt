-- ===== src/Metadata.antt =====
-- The metadata of transfers (include/snbmodules/transfer_metadata.hpp,
-- src/common/transfer_metadata.cpp).
pub mod Transfer
pub mod Json
pub mod Import
pub mod Numbers
pub mod Times
pub mod RoundTrip
mod Codec
mod Examples
