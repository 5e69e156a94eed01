-- ===== src/Client.antt =====
-- The transfer client (include/snbmodules/transfer_client.hpp, src/client/transfer_client.cpp).
pub mod State
pub mod Sessions
pub mod Sharing
pub mod Transfers
pub mod Messages
pub mod Steps
pub mod Scans
pub mod Handlers
pub mod Advances
pub mod Lookup
pub mod Connection
pub mod Work
pub mod Lifetime
mod Examples
