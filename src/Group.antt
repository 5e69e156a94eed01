-- ===== src/Group.antt =====
-- GroupMetadata (include/snbmodules/group_metadata.hpp, src/common/group_metadata.cpp).
pub mod Metadata
pub mod Import
pub mod Status
pub mod Invariant
pub mod Search
pub mod RoundTrip
pub mod Loading
pub mod Joining
mod Examples
