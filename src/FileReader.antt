-- ===== src/FileReader.antt =====
-- FileReaderBase, which configures and runs the sources of a file reader (src/readout/FileReaderBase.cpp,
-- include/snbmodules/readout/FileReaderBase.hpp, include/snbmodules/readout/FileSourceConcept.hpp).
pub mod Concept
pub mod Base
pub mod Configured
pub mod Restart
mod Examples
