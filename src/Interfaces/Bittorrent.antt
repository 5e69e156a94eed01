-- ===== src/Interfaces/Bittorrent.antt =====
-- TransferInterfaceBittorrent (include/snbmodules/interfaces/transfer_interface_bittorrent.hpp and
-- src/common/transfer_interface_bittorrent.cpp).
pub mod State
pub mod Alerts
pub mod Names
pub mod Files
pub mod Settings
mod Resuming
mod Durations
mod Filter
mod Adding
mod Ranges
mod Examples
