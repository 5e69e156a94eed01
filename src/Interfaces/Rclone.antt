-- ===== src/Interfaces/Rclone.antt =====
-- TransferInterfaceRClone (include/snbmodules/interfaces/transfer_interface_RClone.hpp).
pub mod State
pub mod Request
pub mod Files
pub mod Work
mod Polls
mod Again
mod Jobs
mod Examples
