-- ===== src/FilePath.antt =====
-- Paths as the code treats them: the removal of "./" that transfer_metadata.hpp,
-- group_metadata.hpp and transfer_client.cpp each write out, and what they use of
-- std::filesystem::path.
pub mod Strip
pub mod Spec
pub mod Path
mod Examples
