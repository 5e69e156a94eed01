-- ===== src/RequestHandler/Request.antt =====
-- create_fragment_header, get_fragment_pieces and data_request of SNBRequestHandlerModel.
use mathlib.Core.List.{reverse}
use snbmodules.Common.{
  ℕ, ◌||◌, Option, some, List, [], ◌∷◌, ltb, leb, ◌==◌, not, ◌&&◌, none, if◌then◌else◌, ◌>>=◌,
}
use snbmodules.RequestHandler.Buffer.{LatencyBuffer, Element}
use snbmodules.RequestHandler.Pieces.{Piece, gather, passes_end}
use snbmodules.RequestHandler.State.{
  ResultCode, found, not_found, too_old, partially_old, not_yet, partial, unknown, StatusBit,
  empty_fragment, incomplete, latency_buffer_empty, window_before_buffer, window_after_buffer,
  DataRequest, FragmentHeader, Fragment, Counters, Handler, incr,
}

module _ {lb : LatencyBuffer} where
  unfoldable pub create_fragment_header : Handler lb → DataRequest → FragmentHeader
  create_fragment_header h dr = record {
    trigger_number = dr.trigger_number;
    trigger_timestamp = dr.trigger_timestamp;
    window_begin = dr.window_begin;
    window_end = dr.window_end;
    run_number = dr.run_number;
    sequence_number = dr.sequence_number;
    detector_id = h.detector_id;
    element_id = h.source_id;
    status_bits = [];
  }

  -- The third branch of get_fragment_pieces, over what the iterator passes. `none` is the dereference behind
  -- the last element.
  collect : ℕ → ℕ → List Element → Handler lb → Option (ResultCode × List Piece × Handler lb)
  unfolding passes_end
  collect start_win end_win [] h = some (not_found, [], h)
  collect start_win end_win (e ∷ es) h =
      let (pieces, pops) = gather start_win end_win (e ∷ es) ([], h.pop_list) in
      if passes_end end_win (e ∷ es) && not lb.end_reference
      then none
      else some (found, reverse pieces, record h { pop_list = pops })

  -- `none` is also the dereference of front() or back() of an empty buffer.
  unfoldable pub get_fragment_pieces :
      ℕ → ℕ → Handler lb → Option (ResultCode × List Piece × Handler lb)
  unfolding collect
  get_fragment_pieces start_win end_win h = do
    front_element ← lb.front h.buffer
    last_element ← lb.back h.buffer
    if ltb last_element.timestamp start_win || ltb last_element.timestamp end_win
        then some (not_yet, [], h)
        else if leb end_win front_element.timestamp
        then some (too_old, [], h)
        else collect start_win end_win (lb.begin h.buffer) h

-- The switch of data_request: the counters and the status bits for a result code.
unfoldable pub count_result : ResultCode → Counters → Counters
count_result too_old c = record c {
  num_requests_old_window = incr c.num_requests_old_window;
  num_requests_bad = incr c.num_requests_bad;
}
count_result partially_old c = record c {
  num_requests_old_window = incr c.num_requests_old_window;
  num_requests_found = incr c.num_requests_found;
}
count_result found c = record c { num_requests_found = incr c.num_requests_found }
count_result partial c = record c { num_requests_delayed = incr c.num_requests_delayed }
count_result not_yet c = record c { num_requests_delayed = incr c.num_requests_delayed }
count_result not_found c = record c { num_requests_bad = incr c.num_requests_bad }
count_result unknown c = record c { num_requests_bad = incr c.num_requests_bad }

unfoldable pub status_of : ResultCode → List StatusBit
status_of too_old = empty_fragment ∷ window_before_buffer ∷ []
status_of partially_old = incomplete ∷ window_before_buffer ∷ []
status_of found = []
status_of partial = incomplete ∷ window_after_buffer ∷ []
status_of not_yet = empty_fragment ∷ window_after_buffer ∷ []
status_of not_found = empty_fragment ∷ []
status_of unknown = empty_fragment ∷ []

pub record RequestResult : Type 0 where
  pub result_code : ResultCode
  pub data_request : DataRequest
  pub fragment : Fragment

module _ {lb : LatencyBuffer} where
  answer_empty : DataRequest → Handler lb → RequestResult × Handler lb
  unfolding create_fragment_header
  answer_empty dr h =
      let header = create_fragment_header h dr in
      (
        record {
          result_code = not_found;
          data_request = dr;
          fragment = record {
            header = record header { status_bits = latency_buffer_empty ∷ [] };
            pieces = [];
          };
        },
        record h {
          counters = record (h.counters) { num_requests_bad = incr h.counters.num_requests_bad };
        },
      )

  answer_pieces : DataRequest → ResultCode × List Piece × Handler lb → RequestResult × Handler lb
  unfolding create_fragment_header
  answer_pieces dr (code, pieces, h) =
      let header = create_fragment_header h dr in
      (
        record {
          result_code = code;
          data_request = dr;
          fragment = record {
            header = record header { status_bits = status_of code };
            pieces = pieces;
          };
        },
        record h { counters = count_result code h.counters },
      )

  unfoldable pub data_request : DataRequest → Handler lb → Option (RequestResult × Handler lb)
  unfolding answer_empty answer_pieces
  data_request dr h =
      if lb.occupancy h.buffer == 0
      then some (answer_empty dr h)
      else (do r ← get_fragment_pieces dr.window_begin dr.window_end h; some (answer_pieces dr r))
