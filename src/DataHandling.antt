-- ===== src/DataHandling.antt =====
-- SNBDataHandlingModel (include/snbmodules/readout/SNBDataHandlingModel.hpp,
-- detail/SNBDataHandlingModel.hxx).
pub mod Schedule
pub mod Window
pub mod Rounds
pub mod Run
pub mod Timesync
pub mod Items
pub mod Runs
mod Examples
