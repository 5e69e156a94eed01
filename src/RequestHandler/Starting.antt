-- ===== src/RequestHandler/Starting.antt =====
-- start of include/snbmodules/readout/detail/SNBRequestHandlerModel.hxx, as far as it changes the state.
use snbmodules.RequestHandler.Buffer.{LatencyBuffer}
use snbmodules.RequestHandler.State.{Handler}

-- The counters begin at 0. The list of timestamps to pop and the waiting requests stay.
unfoldable pub reset_counters : {lb : LatencyBuffer} → Handler lb → Handler lb
reset_counters h = record h {
  counters = record {
    num_requests_found = 0;
    num_requests_bad = 0;
    num_requests_old_window = 0;
    num_requests_delayed = 0;
    num_requests_timed_out = 0;
    handled_requests = 0;
    pop_reqs = 0;
    pops_count = 0;
    num_buffer_cleanups = 0;
  };
}
