-- ===== src/Session.antt =====
-- TransferSession (include/snbmodules/transfer_session.hpp, src/client/transfer_session.cpp).
pub mod World
pub mod Files
pub mod Groups
pub mod Unchanged
pub mod Transitions
pub mod Moves
pub mod Runs
pub mod Stops
pub mod Bookkeepers
mod Examples
