-- ===== src/Notification.antt =====
-- NotificationInterface (include/snbmodules/notification_interface.hpp,
-- src/common/notification_interface.cpp).
pub mod Interface
pub mod Lookup
pub mod Sending
pub mod Listening
mod Examples
