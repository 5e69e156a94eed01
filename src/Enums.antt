-- ===== src/Enums.antt =====
-- The three enumerations with their string tables: include/snbmodules/common/status_enum.hpp,
-- protocols_enum.hpp and notification_enum.hpp.
pub mod Status
pub mod Protocol
pub mod NotificationType
mod Table
