-- ===== src/Bookkeeper.antt =====
-- The bookkeeper (include/snbmodules/bookkeeper.hpp, src/bookkeeper/bookkeeper.cpp).
pub mod State
pub mod Operations
pub mod Messages
pub mod Work
pub mod Evolution
pub mod Storing
pub mod Files
pub mod Invariant
pub mod Memory
pub mod Lifetime
pub mod Requests
mod Examples
