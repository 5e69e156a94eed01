-- ===== src/RequestHandler/State.antt =====
-- The members of SNBRequestHandlerModel that its functions change. Counters are std::atomic<int>,
-- as bit patterns of 32 bits.
use snbmodules.Common.{ℕ, ◌+◌, ◌%◌, List, Text}
use snbmodules.RequestHandler.Buffer.{LatencyBuffer}
use snbmodules.RequestHandler.Pieces.{Piece}

pub data ResultCode : Type 0 where
  found not_found too_old partially_old not_yet partial unknown : ResultCode

-- The status bits of a fragment header that the code sets.
pub data StatusBit : Type 0 where
  empty_fragment incomplete latency_buffer_empty window_before_buffer window_after_buffer :
      StatusBit

pub record SourceId : Type 0 where
  pub subsystem : ℕ
  pub id : ℕ

pub record DataRequest : Type 0 where
  pub trigger_number : ℕ
  pub trigger_timestamp : ℕ
  pub window_begin : ℕ
  pub window_end : ℕ
  pub run_number : ℕ
  pub sequence_number : ℕ
  pub data_destination : Text

pub record FragmentHeader : Type 0 where
  pub trigger_number : ℕ
  pub trigger_timestamp : ℕ
  pub window_begin : ℕ
  pub window_end : ℕ
  pub run_number : ℕ
  pub sequence_number : ℕ
  pub detector_id : ℕ
  pub element_id : SourceId
  pub status_bits : List StatusBit

pub record Fragment : Type 0 where
  pub header : FragmentHeader
  pub pieces : List Piece

-- A request that waits for data, and when it began to wait (ms).
pub record RequestElement : Type 0 where
  pub request : DataRequest
  pub start_time : ℕ

abbrev pub incr : ℕ → ℕ
incr n = (n + 1) % 4294967296

pub record Counters : Type 0 where
  pub num_requests_found : ℕ
  pub num_requests_bad : ℕ
  pub num_requests_old_window : ℕ
  pub num_requests_delayed : ℕ
  pub num_requests_timed_out : ℕ
  pub handled_requests : ℕ
  pub pop_reqs : ℕ
  pub pops_count : ℕ
  pub num_buffer_cleanups : ℕ

pub record Handler (lb : LatencyBuffer) : Type 0 where
  pub buffer : lb.Buffer
  pub pop_list : List ℕ
  pub counters : Counters
  pub occupancy : ℕ
  pub oldest_timestamp : ℕ
  pub errors_until : ℕ
  pub source_id : SourceId
  pub detector_id : ℕ
  pub request_timeout_ms : ℕ
  pub waiting_requests : List RequestElement
  pub sent : List Fragment
