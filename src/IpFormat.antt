-- ===== src/IpFormat.antt =====
-- include/snbmodules/ip_format.hpp: an address and a port.
pub mod Address
pub mod Valid
pub mod RoundTrip
mod Examples
