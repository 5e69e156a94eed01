-- ===== src/RequestHandler.antt =====
-- include/snbmodules/readout/detail/SNBRequestHandlerModel.hxx: data requests over the latency
-- buffer. The latency buffer and the readout type come from other packages, so the buffer is a
-- parameter (`LatencyBuffer`), and of an element only the three members that the code reads are kept.
pub mod Buffer
pub mod Pieces
pub mod State
pub mod Request
pub mod Cleanup
pub mod Waiting
pub mod Starting
pub mod Delivery
pub mod Once
pub mod Retention
pub mod Answers
pub mod Timeouts
pub mod Protocol
pub mod Exclusion
pub mod Progress
mod Examples
