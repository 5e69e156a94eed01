-- ===== src/Interfaces/Scp.antt =====
-- TransferInterfaceSCP (include/snbmodules/interfaces/transfer_interface_SCP.hpp).
pub mod Files
mod Sessions
mod Examples
