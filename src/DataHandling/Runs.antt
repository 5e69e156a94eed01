-- ===== src/DataHandling/Runs.antt =====
-- start and stop of include/snbmodules/readout/detail/SNBDataHandlingModel.hxx, with the request handler
-- that they start and stop. The threads are those of the other files; a stop has waited for them.
use snbmodules.Common.{
  ℕ, suc, ◌≡◌, refl, Bool, true, false, Option, none, some, ◌==◌, if◌then◌else◌,
}
use snbmodules.RequestHandler.Buffer.{LatencyBuffer}
use snbmodules.RequestHandler.State.{Handler, SourceId}
use snbmodules.RequestHandler.Cleanup.{is_empty, cleanup_check}
use snbmodules.RequestHandler.Starting.{reset_counters}
use snbmodules.RequestHandler.Retention.{cleanup_empty}

-- A latency buffer that can be flushed, and holds nothing then.
pub record FlushableBuffer : Type 1 where
  pub lb : LatencyBuffer
  pub flush : lb.Buffer → lb.Buffer
  pub occupancy_flush : (b : lb.Buffer) → lb.occupancy (flush b) ≡ 0

-- The members that start and stop change, and the configuration that they read. `registered` is the callback
-- for data requests; m_stats_packet_count and the other counts are those of monitoring.
pub record DataHandler (fb : FlushableBuffer) : Type 0 where
  pub sum_payloads : ℕ
  pub num_payloads : ℕ
  pub sum_requests : ℕ
  pub num_requests : ℕ
  pub num_lb_insert_failures : ℕ
  pub stats_packet_count : ℕ
  pub rawq_timeout_count : ℕ
  pub num_max_waits : ℕ
  pub run_number : ℕ
  pub processing_delay_ticks : ℕ
  pub sourceid : SourceId
  pub registered : Bool
  pub posts : ℕ
  pub handler : Handler fb.lb

-- How a cleanup ends over a buffer that was flushed, by whether nothing is left to pop.
abbrev pub FirstCleanup : {lb : LatencyBuffer} → Bool → Handler lb → Type 0
FirstCleanup true h = cleanup_check h ≡ some h
FirstCleanup false h = cleanup_check h ≡ none

module _ {fb : FlushableBuffer} where
  -- `run` is the argument of the command, which is 1 where it is missing.
  unfoldable pub start : Option ℕ → DataHandler fb → DataHandler fb
  unfolding reset_counters
  start run d = record d {
    sum_payloads = 0;
    num_payloads = 0;
    sum_requests = 0;
    num_requests = 0;
    num_lb_insert_failures = 0;
    stats_packet_count = 0;
    rawq_timeout_count = 0;
    num_max_waits = 0;
    run_number = elim run [ none ↦ 1 | some n ↦ n ];
    handler = reset_counters d.handler;
    registered = true;
  }

  unfoldable pub stop : DataHandler fb → DataHandler fb
  stop d = record d {
    registered = false;
    posts = if d.processing_delay_ticks == 0 then d.posts else suc d.posts;
    handler = record (d.handler) { buffer = fb.flush d.handler.buffer };
  }

  first_cleanup :
      (none_left : Bool) (run : Option ℕ) (d : DataHandler fb)
      → is_empty d.handler.pop_list ≡ none_left
      → FirstCleanup none_left (start run (stop d)).handler
  unfolding start stop reset_counters cleanup_check
  first_cleanup true run d pops = rw pops refl
  first_cleanup false run d pops =
      let h : Handler fb.lb = (start run (stop d)).handler in
      rw (pops, cleanup_empty h (fb.occupancy_flush d.handler.buffer)) refl

  -- Between a start after a stop and the first data, the first cleanup_check, whichever thread comes to it, does
  -- nothing when the run before left no timestamps to pop; else it uses the front of the flushed buffer, which is
  -- not there.
  pub cleanup_check-start_stop :
      (run : Option ℕ) (d : DataHandler fb)
      → FirstCleanup (is_empty d.handler.pop_list) (start run (stop d)).handler
  cleanup_check-start_stop run d = first_cleanup (is_empty d.handler.pop_list) run d refl
