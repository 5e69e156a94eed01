-- ===== src/DataHandling/Examples.antt =====
-- The theorems on post-processing at two rounds.
use snbmodules.Common.{
  leb, length, ◌++◌, if◌then◌else◌, none, ◌≤◌, ℕ, refl, ◌≡◌, true, false, some, [], ◌∷◌, List,
  arith,
}
use snbmodules.RequestHandler.Buffer.{Element, last?, list_buffer}
use snbmodules.DataHandling.Items.{InputBuffer, Receiving, Received, transform_and_process}
use snbmodules.DataHandling.Timesync.{
  Settings, Syncing, Spread, run_timesync, begin_timesync, run_timesync-Spread,
}
use snbmodules.DataHandling.Schedule.{
  ordered_list, Delays, Scheduler, Round, postprocess_schedule, handle_data,
}
use snbmodules.DataHandling.Runs.{
  FlushableBuffer, DataHandler, start, stop, cleanup_check-start_stop,
}
use snbmodules.DataHandling.Rounds.{Handled, handle_data-Handled}
use snbmodules.DataHandling.Run.{Done, postprocess_schedule-Done}
use snbmodules.RequestHandler.Cleanup.{cleanup_check}

abbrev element : ℕ → Element
element t = record { timestamp = t; address = 0; payload_size = 8 }

abbrev delays : Delays
delays = record { processing_delay_ticks = 10; post_processing_delay_min_wait = 5 }

abbrev begun : Scheduler
begun = record {
  processed_element = 0;
  first_cycle = true;
  last_post_proc_time = 0;
  handled = [];
  num_payloads = 0;
  num_max_waits = 0;
}

abbrev buffer : List Element
buffer = element 100 ∷ element 105 ∷ element 120 ∷ []

-- The second round comes too early.
abbrev rounds : List (Round ordered_list)
rounds =
    record { posted = true; now = 100; buffer = buffer }
    ∷ record { posted = false; now = 102; buffer = buffer }
    ∷ []

handle_data-Handled_example :
    (s' : Scheduler) × (handle_data ordered_list delays buffer begun ≡ some s')
    × Handled ordered_list delays buffer (element 120) begun s'
    × (s'.processed_element ≤ 120)
handle_data-Handled_example =
    handle_data-Handled ordered_list delays buffer begun (element 120)
      (omega arith, (omega arith, tt)) refl (omega arith) (λ e. cc)

postprocess_schedule-Done_example :
    (s' : Scheduler) × (postprocess_schedule ordered_list delays rounds begun ≡ some s')
    × Done ordered_list delays rounds begun s'
postprocess_schedule-Done_example =
    postprocess_schedule-Done ordered_list delays rounds 0 begun
      (
        (omega arith, (omega arith, tt)),
        omega arith,
        omega arith,
        ((omega arith, (omega arith, tt)), omega arith, omega arith, tt),
      )
      (λ e. cc)

-- The first two elements are handled.
handled_run :
    postprocess_schedule ordered_list delays rounds begun
    ≡ some (record begun {
      processed_element = 110;
      first_cycle = false;
      last_post_proc_time = 100;
      handled = element 100 ∷ element 105 ∷ [];
      num_payloads = 2;
      num_max_waits = 1;
    })
unfolding postprocess_schedule
handled_run = refl

abbrev settings : Settings
settings = record {
  fake_trigger = true;
  run_number = 7;
  sourceid = record { subsystem = 1; id = 2 };
  blank_request = record {
    trigger_number = 0;
    trigger_timestamp = 0;
    window_begin = 0;
    window_end = 0;
    run_number = 0;
    sequence_number = 0;
    data_destination = [];
  };
}

abbrev syncing : Syncing
syncing = record {
  msg_seqno = 5;
  prev_timestamp = 9;
  zero_timestamp_count = 0;
  duplicate_timestamp_count = 0;
  total_timestamp_count = 0;
  once_per_run = false;
  current_fake_trigger_id = 3;
  sent = [];
  issued = [];
}

run_timesync-Spread_example :
    Spread
      (run_timesync settings (0 ∷ 4 ∷ 4 ∷ 6 ∷ []) (begin_timesync syncing)).prev_timestamp
      (run_timesync settings (0 ∷ 4 ∷ 4 ∷ 6 ∷ []) (begin_timesync syncing)).sent
run_timesync-Spread_example = run_timesync-Spread settings (0 ∷ 4 ∷ 4 ∷ 6 ∷ []) syncing

-- A buffer of two places.
abbrev two_places : InputBuffer
two_places = record {
  Buffer = List Element;
  is_full = λ b. leb 2 (length b);
  write = λ e b. if leb 2 (length b) then none else some (b ++ (e ∷ []));
  write_and_return = λ e b. if leb 2 (length b) then none else some (b ++ (e ∷ []), e);
  back = last?;
}

abbrev receiving : Receiving
receiving = record {
  processing_delay_ticks = 0;
  supports_cutoff_timestamp = true;
  cutoff_timestamp = 100;
  expects_order = true;
  preprocess_item = λ e. e;
}

abbrev received : Received
received = record {
  postprocessed = [];
  late = [];
  num_lb_insert_failures = 0;
  num_payloads = 0;
  sum_payloads = 0;
  stats_packet_count = 0;
  posts = 0;
}

-- The second item waits once.
abbrev arrivals : List (Element × List (List Element))
arrivals = (element 100, [] ∷ []) ∷ (element 105, buffer ∷ (element 100 ∷ []) ∷ []) ∷ []

-- The first item is late; both are post-processed.
arrivals_run :
    transform_and_process two_places receiving arrivals received
    ≡ some (record received {
      postprocessed = element 105 ∷ element 100 ∷ [];
      late = element 100 ∷ [];
      num_payloads = 2;
      sum_payloads = 2;
      stats_packet_count = 2;
    })
unfolding transform_and_process
arrivals_run = refl

abbrev flushable : FlushableBuffer
flushable = record { lb = list_buffer; flush = λ b. []; occupancy_flush = λ b. refl }

-- A run that has left one timestamp to pop, and its next one.
abbrev ended : DataHandler flushable
ended = record {
  sum_payloads = 9;
  num_payloads = 9;
  sum_requests = 4;
  num_requests = 4;
  num_lb_insert_failures = 0;
  stats_packet_count = 9;
  rawq_timeout_count = 0;
  num_max_waits = 0;
  run_number = 7;
  processing_delay_ticks = 0;
  sourceid = record { subsystem = 1; id = 2 };
  registered = true;
  posts = 0;
  handler = record {
    buffer = buffer;
    pop_list = 40 ∷ [];
    counters = record {
      num_requests_found = 4;
      num_requests_bad = 0;
      num_requests_old_window = 0;
      num_requests_delayed = 0;
      num_requests_timed_out = 0;
      handled_requests = 4;
      pop_reqs = 0;
      pops_count = 0;
      num_buffer_cleanups = 0;
    };
    occupancy = 3;
    oldest_timestamp = 100;
    errors_until = 0;
    source_id = record { subsystem = 1; id = 2 };
    detector_id = 3;
    request_timeout_ms = 10;
    waiting_requests = [];
    sent = [];
  };
}

cleanup_check-start_stop_example : cleanup_check (start none (stop ended)).handler ≡ none
cleanup_check-start_stop_example = cleanup_check-start_stop none ended
