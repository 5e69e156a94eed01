-- ===== src/RequestHandler/Examples.antt =====
-- The theorems on data requests at a buffer of four elements, and test runs.
use snbmodules.Common.{
  ◌<◌, inr, ◌*◌, ℕ, ◌≤◌, ◌≡◌, refl, true, false, some, List, [], ◌∷◌, map, arith, keep, not, All,
  ◌&&◌, length,
}
use snbmodules.RequestHandler.Buffer.{Element, list_buffer}
use snbmodules.RequestHandler.Pieces.{piece_of, visit, gather}
use snbmodules.RequestHandler.State.{found, DataRequest, RequestElement, Counters, Handler}
use snbmodules.RequestHandler.Request.{
  count_result, get_fragment_pieces, data_request, RequestResult,
}
use snbmodules.RequestHandler.Cleanup.{cleanup}
use snbmodules.RequestHandler.Waiting.{issue_request, respond, sweep, check_waiting_requests}
use snbmodules.RequestHandler.Delivery.{wanted}
use snbmodules.RequestHandler.Once.{in_window, get_fragment_pieces_window, get_fragment_pieces_once}
use snbmodules.RequestHandler.Retention.{Cleaned, cleanup_lem}
use snbmodules.RequestHandler.Progress.{awaiting_progress, blocked-requested}
use snbmodules.RequestHandler.Pieces.{passes_end}
use snbmodules.RequestHandler.Answers.{data_request_total}
use snbmodules.RequestHandler.Timeouts.{
  Split, StillWaits, sweep-Split, check_waiting_requests_drains,
}
use snbmodules.RequestHandler.Protocol.{
  sleep, announce, enter, asleep, reading, notify_all, blocked, block, outside, awaiting, cleaning,
  Shared, tally, is_reading, is_cleaning, ask, begin, Reach, here, next, start,
}
use snbmodules.RequestHandler.Exclusion.{cleanup_exclusive}

abbrev element : ℕ → Element
element t = record { timestamp = t; address = t * 100; payload_size = 8 }

abbrev no_counts : Counters
no_counts = record {
  num_requests_found = 0;
  num_requests_bad = 0;
  num_requests_old_window = 0;
  num_requests_delayed = 0;
  num_requests_timed_out = 0;
  handled_requests = 0;
  pop_reqs = 0;
  pops_count = 0;
  num_buffer_cleanups = 0;
}

abbrev waiting_for : ℕ → ℕ → RequestElement
waiting_for t s = record { request = request_for t; start_time = s }
  where
    request_for : ℕ → DataRequest
    request_for u = record {
      trigger_number = 1;
      trigger_timestamp = u;
      window_begin = 15;
      window_end = u;
      run_number = 7;
      sequence_number = 0;
      data_destination = [];
    }

abbrev handler : List Element → List ℕ → List RequestElement → Handler list_buffer
handler es pops ws = record {
  buffer = es;
  pop_list = pops;
  counters = no_counts;
  occupancy = 0;
  oldest_timestamp = 0;
  errors_until = 0;
  source_id = record { subsystem = 1; id = 2 };
  detector_id = 3;
  request_timeout_ms = 100;
  waiting_requests = ws;
  sent = [];
}

abbrev four : List Element
four = element 10 ∷ element 20 ∷ element 30 ∷ element 40 ∷ []

abbrev fresh : Handler list_buffer
fresh = handler four [] []

abbrev served : Handler list_buffer
served = handler four (30 ∷ 20 ∷ []) []

first_window :
    get_fragment_pieces 15 35 fresh
    ≡ some (found, piece_of (element 20) ∷ piece_of (element 30) ∷ [], served)
unfolding get_fragment_pieces gather visit
first_window = refl

get_fragment_pieces_window_example :
    piece_of (element 20) ∷ piece_of (element 30) ∷ [] ≡ map piece_of (keep (wanted 15 35 []) four)
get_fragment_pieces_window_example =
    get_fragment_pieces_window {lb = list_buffer} 15 35 fresh served
      (piece_of (element 20) ∷ piece_of (element 30) ∷ []) (omega arith) first_window

second_window :
    get_fragment_pieces 5 40 served
    ≡ some (
      found,
      piece_of (element 10) ∷ piece_of (element 40) ∷ [],
      handler four (40 ∷ 10 ∷ 30 ∷ 20 ∷ []) [],
    )
unfolding get_fragment_pieces gather visit
second_window = refl

get_fragment_pieces_once_example :
    piece_of (element 10) ∷ piece_of (element 40) ∷ []
    ≡ map piece_of (keep (λ x. wanted 5 40 [] x && not (in_window 15 35 x)) four)
get_fragment_pieces_once_example =
    get_fragment_pieces_once {lb = list_buffer} 15 35 5 40 fresh served
      (handler four (40 ∷ 10 ∷ 30 ∷ 20 ∷ []) [])
      (piece_of (element 20) ∷ piece_of (element 30) ∷ [])
      (piece_of (element 10) ∷ piece_of (element 40) ∷ []) (omega arith) first_window second_window

cleanup_lem_example :
    (h' : Handler list_buffer) × (gone : List Element) × (cleanup (handler four (20 ∷ 10 ∷ []) [])
      ≡ some h')
    × Cleaned (handler four (20 ∷ 10 ∷ []) []) h' gone
cleanup_lem_example = cleanup_lem (handler four (20 ∷ 10 ∷ []) []) (omega arith)

data_request_total_example :
    (r : RequestResult × Handler list_buffer) × (data_request (waiting_for 35 0).request fresh
      ≡ some r)
unfolding passes_end
data_request_total_example = data_request_total (waiting_for 35 0).request fresh (inr refl)

abbrev answered : Handler list_buffer
answered = record (handler four [] (waiting_for 50 9 ∷ [])) {
  counters = record no_counts { num_requests_delayed = 1; handled_requests = 1 };
}

queued_again : issue_request (waiting_for 50 0).request false true 9 fresh ≡ some answered
unfolding issue_request data_request get_fragment_pieces respond count_result
queued_again = refl

abbrev two_wait : Handler list_buffer
two_wait = handler four [] (waiting_for 50 1 ∷ waiting_for 60 2 ∷ [])

check_waiting_requests_drains_example :
    ((check_waiting_requests (λ i. 200) two_wait).1.waiting_requests ≡ [])
    × ((check_waiting_requests (λ i. 200) two_wait).0
        ≡ map (λ r. r.request) (waiting_for 50 1 ∷ waiting_for 60 2 ∷ []))
check_waiting_requests_drains_example =
    check_waiting_requests_drains (λ i. 200) two_wait (omega arith)

sweep-Split_example :
    Split
      (sweep 50 100 (λ i. 20) 0 two_wait.waiting_requests).issued
      (sweep 50 100 (λ i. 20) 0 two_wait.waiting_requests).kept
      two_wait.waiting_requests
    × All (StillWaits 50) (sweep 50 100 (λ i. 20) 0 two_wait.waiting_requests).kept
    × ((sweep 50 100 (λ i. 20) 0 two_wait.waiting_requests).timed_out
        ≤ length (sweep 50 100 (λ i. 20) 0 two_wait.waiting_requests).issued)
sweep-Split_example = sweep-Split 50 100 (λ i. 20) 0 two_wait.waiting_requests

-- Two threads; the first asks for a cleanup and begins it.
abbrev asked : Shared
asked = record { cleanup_requested = true; requests_running = 0; phases = awaiting ∷ outside ∷ [] }

abbrev cleans : Shared
cleans = record asked { phases = cleaning ∷ outside ∷ [] }

Reach-asked : Reach (start 2) asked
Reach-asked = next here (ask 0 refl (omega arith) refl)

cleanup_exclusive_example :
    (tally is_reading cleans.phases ≡ 0) × (tally is_cleaning cleans.phases ≡ 1)
cleanup_exclusive_example =
    cleanup_exclusive 2 cleans (next Reach-asked (begin 0 refl (omega arith) refl)) (omega arith)

-- Beside a request that runs, the second thread asks for a cleanup and goes to sleep.
abbrev sleeps : Shared
sleeps = record { cleanup_requested = true; requests_running = 1; phases = reading ∷ asleep ∷ [] }

Reach-sleeps : Reach (start 2) sleeps
unfolding notify_all
Reach-sleeps =
    next (next (next (next here (enter 0 refl refl refl)) (announce 0 refl)) (ask 1 refl refl refl))
      (sleep 1 refl refl (omega arith))

awaiting_progress_example : (t : Shared) × Reach sleeps t × (0 < tally is_cleaning t.phases)
awaiting_progress_example = awaiting_progress 2 sleeps Reach-sleeps refl

abbrev waits : Shared
waits = record { cleanup_requested = true; requests_running = 0; phases = awaiting ∷ blocked ∷ [] }

blocked-requested_example : true ≡ true
blocked-requested_example =
    blocked-requested 2 waits (next Reach-asked (block 1 refl refl refl)) (omega arith)
