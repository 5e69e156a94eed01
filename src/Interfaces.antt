-- ===== src/Interfaces.antt =====
-- The transfer interfaces of include/snbmodules/interfaces: what a session calls to move a file.
mod Samples
pub mod Scp
pub mod Rclone
pub mod Bittorrent
