-- ===== src/FileSource.antt =====
-- FileSourceModel (include/snbmodules/readout/FileSourceModel.hpp and
-- include/snbmodules/readout/detail/FileSourceModel.hxx).
pub mod Model
pub mod Production
mod Examples
