-- ===== src/RequestHandler/Waiting.antt =====
-- issue_request and check_waiting_requests of SNBRequestHandlerModel.hxx.
use snbmodules.Common.{
  ℕ, zero, suc, ◌-◌, Bool, true, false, not, ◌&&◌, Option, none, some, List, [], ◌∷◌, ◌++◌, ltb,
  leb, if◌then◌else◌, ◌>>=◌,
}
use snbmodules.RequestHandler.Buffer.{LatencyBuffer, Element}
use snbmodules.RequestHandler.State.{
  ResultCode, not_yet, partial, DataRequest, Fragment, RequestElement, Handler, incr,
}
use snbmodules.RequestHandler.Request.{RequestResult, data_request}
use snbmodules.RequestHandler.Cleanup.{cleanup_check}

-- A request without its data waits, unless this is a retry or the timeout is 0.
unfoldable pub must_wait : ResultCode → Bool → ℕ → Bool
must_wait not_yet is_retry timeout = ltb 0 timeout && not is_retry
must_wait partial is_retry timeout = ltb 0 timeout && not is_retry
must_wait code is_retry timeout = false

module _ {lb : LatencyBuffer} where
  -- The fragment is sent, and the buffer cleaned up after it. A send that throws is caught, and
  -- then nothing is cleaned up.
  unfoldable pub send_fragment : Bool → Fragment → Handler lb → Option (Handler lb)
  send_fragment true f h = cleanup_check (record h { sent = h.sent ++ f ∷ [] })
  send_fragment false f h = some h

  unfoldable pub respond : Bool → Bool → ℕ → RequestResult × Handler lb → Option (Handler lb)
  unfolding must_wait send_fragment
  respond is_retry sends now (r, h) =
      if must_wait r.result_code is_retry h.request_timeout_ms
      then some (record h {
        waiting_requests =
            h.waiting_requests ++ record { request = r.data_request; start_time = now } ∷ [];
      })
      else send_fragment sends r.fragment h

  -- The job that issue_request posts to the pool; `sends` says whether the send to the fragment
  -- connection succeeds, `now` is the clock when the request is queued again.
  unfoldable pub issue_request : DataRequest → Bool → Bool → ℕ → Handler lb → Option (Handler lb)
  unfolding respond
  issue_request dr is_retry sends now h = do
    r ← data_request dr h
    h' ← respond is_retry sends now r
    some (record h' {
      counters = record (h'.counters) { handled_requests = incr h'.counters.handled_requests };
    })

-- What one pass over the waiting requests decides.
pub record Sweep : Type 0 where
  pub issued : List DataRequest
  pub timed_out : ℕ
  pub kept : List RequestElement

pub data Verdict : Type 0 where
  ready expired hold : Verdict

unfoldable pub judge : ℕ → ℕ → ℕ → RequestElement → Verdict
judge newest_ts timeout now r =
    if leb r.request.window_end newest_ts
    then ready
    else if leb timeout (now - r.start_time)
    then expired
    else hold

add_verdict : Verdict → RequestElement → Sweep → Sweep
add_verdict ready r s = record s { issued = r.request ∷ s.issued }
add_verdict expired r s = record s { issued = r.request ∷ s.issued; timed_out = suc s.timed_out }
add_verdict hold r s = record s { kept = r ∷ s.kept }

-- The loop of check_waiting_requests; `clock i` is the steady clock at the i-th request.
unfoldable pub sweep : ℕ → ℕ → (ℕ → ℕ) → ℕ → List RequestElement → Sweep
unfolding add_verdict judge
sweep newest_ts timeout clock i [] = record { issued = []; timed_out = 0; kept = [] }
sweep newest_ts timeout clock i (r ∷ rs) =
    add_verdict (judge newest_ts timeout (clock i) r) r (sweep newest_ts timeout clock (suc i) rs)

abbrev newest_of : Option Element → ℕ
newest_of none = 0
newest_of (some e) = e.timestamp

abbrev incr_by : ℕ → ℕ → ℕ
incr_by zero n = n
incr_by (suc k) n = incr (incr_by k n)

module _ {lb : LatencyBuffer} where
  -- One round of check_waiting_requests: the requests that it issues as retries, in order, and
  -- the handler after it.
  unfoldable pub check_waiting_requests : (ℕ → ℕ) → Handler lb → List DataRequest × Handler lb
  unfolding sweep
  check_waiting_requests clock h =
      let newest_ts = newest_of (lb.back h.buffer) in
      let s = sweep newest_ts h.request_timeout_ms clock 0 h.waiting_requests in
      (
        s.issued,
        record h {
          waiting_requests = s.kept;
          counters = record (h.counters) {
            num_requests_bad = incr_by s.timed_out h.counters.num_requests_bad;
            num_requests_timed_out = incr_by s.timed_out h.counters.num_requests_timed_out;
          };
        },
      )
