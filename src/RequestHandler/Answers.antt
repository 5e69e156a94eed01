-- ===== src/RequestHandler/Answers.antt =====
-- How requests are answered: issue_request, and the waiting requests.
use snbmodules.Common.{
  ltb, not, ◌&&◌, ℕ, ◌<◌, ◌≡◌, ◌≢◌, refl, ap, ◌∙◌, ◌⊎◌, inl, inr, Bool, true, false, none, some,
  List, [], ◌∷◌, ◌++◌, arith, Bool-cases, ◌==◌, some_of,
}
use snbmodules.RequestHandler.Buffer.{Element, LatencyBuffer}
use snbmodules.RequestHandler.Pieces.{Piece, passes_end}
use snbmodules.RequestHandler.State.{
  incr, ResultCode, not_yet, partial, not_found, DataRequest, Fragment, Handler,
}
use snbmodules.RequestHandler.Request.{RequestResult, get_fragment_pieces, data_request}
use snbmodules.RequestHandler.Cleanup.{is_empty, cleanup_check}
use snbmodules.RequestHandler.Waiting.{must_wait, send_fragment, respond, issue_request}
use snbmodules.RequestHandler.Retention.{cleanup_empty, front_of, back_of}

-- A fragment that answers a request.
pub record Answers (f : Fragment) (dr : DataRequest) : Type 0 where
  pub trigger_number : f.header.trigger_number ≡ dr.trigger_number
  pub trigger_timestamp : f.header.trigger_timestamp ≡ dr.trigger_timestamp
  pub sequence_number : f.header.sequence_number ≡ dr.sequence_number
  pub run_number : f.header.run_number ≡ dr.run_number
  pub window_begin : f.header.window_begin ≡ dr.window_begin
  pub window_end : f.header.window_end ≡ dr.window_end

-- The results of a request whose data has not come, or not all of it.
abbrev pub lacks : ResultCode → Bool
lacks not_yet = true
lacks partial = true
lacks code = false

module _ {lb : LatencyBuffer} where
  -- The parts of the handler that a data request leaves alone.
  pub record Kept (h h' : Handler lb) : Type 0 where
    pub sent_kept : h'.sent ≡ h.sent
    pub waiting_kept : h'.waiting_requests ≡ h.waiting_requests
    pub timeout_kept : h'.request_timeout_ms ≡ h.request_timeout_ms
    pub buffer_kept : h'.buffer ≡ h.buffer

  get_fragment_pieces-Kept :
      (s t : ℕ) (h h' : Handler lb) (code : ResultCode) (ps : List Piece)
      → get_fragment_pieces s t h ≡ some (code, ps, h')
      → Kept h h'
  unfolding get_fragment_pieces
  get_fragment_pieces-Kept s t h h' code ps e = ground arith

  -- A data request changes the counters and the pop list only, and its fragment bears the
  -- request's numbers and window.
  pub data_request_lem :
      (dr : DataRequest) (h h' : Handler lb) (r : RequestResult)
      → data_request dr h ≡ some (r, h')
      → Kept h h' × Answers r.fragment dr × (r.data_request ≡ dr)
  unfolding data_request get_fragment_pieces
  data_request_lem dr h h' r e = ground arith

  -- The loop of the request would dereference its iterator behind the last element.
  abbrev pub past_end : DataRequest → Handler lb → Bool
  past_end dr h = passes_end dr.window_end (lb.begin h.buffer) && not lb.end_reference

  pieces-ne-none :
      (dr : DataRequest) (h : Handler lb) (e l : Element) (es : List Element)
      → lb.begin h.buffer ≡ es
      → past_end dr h ≡ false
      → lb.front h.buffer ≡ some e
      → lb.back h.buffer ≡ some l
      → get_fragment_pieces dr.window_begin dr.window_end h ≢ none
  unfolding get_fragment_pieces
  pieces-ne-none dr h e l [] b safe p q = rw (p, q, b) (ground arith)
  pieces-ne-none dr h e l (x ∷ es) b safe p q = rw (p, q, b, rw b at safe) (ground arith)

  get_fragment_pieces-ne-none :
      (dr : DataRequest) (h : Handler lb) (e l : Element)
      → past_end dr h ≡ false
      → lb.front h.buffer ≡ some e
      → lb.back h.buffer ≡ some l
      → get_fragment_pieces dr.window_begin dr.window_end h ≢ none
  unfolding get_fragment_pieces
  get_fragment_pieces-ne-none dr h e l safe p q =
      pieces-ne-none dr h e l (lb.begin h.buffer) refl safe p q

  data_request-ne-none :
      (dr : DataRequest) (h : Handler lb)
      → (lb.occupancy h.buffer ≡ 0) ⊎ (past_end dr h ≡ false)
      → data_request dr h ≢ none
  unfolding data_request
  data_request-ne-none dr h safe = elim (Bool-cases (lb.occupancy h.buffer == 0)) [
    | inl none_there ↦ rw none_there (λ q. cc)
    | inr some_there ↦
        let held : 0 < lb.occupancy h.buffer = ground arith in
        let (e, p) = front_of lb h.buffer held in
        let (l, q) = back_of lb h.buffer held in
        let within : past_end dr h ≡ false = elim safe [
          | inl empty ↦ absurd (omega (arith, held, empty))
          | inr k ↦ k
        ] in
        rw some_there (ground (arith, get_fragment_pieces-ne-none dr h e l within p q))
  ]

  -- No data request over a buffer that meets its laws uses a front or a back that is not there: it returns, unless
  -- the buffer is not empty, none of its elements is newer than the window, and an iterator behind the last
  -- element cannot be dereferenced.
  pub data_request_total :
      (dr : DataRequest) (h : Handler lb)
      → (lb.occupancy h.buffer ≡ 0) ⊎ (past_end dr h ≡ false)
      → (r : RequestResult × Handler lb) × (data_request dr h ≡ some r)
  data_request_total dr h safe = some_of (data_request dr h) (data_request-ne-none dr h safe)

  pub data_request_empty :
      (dr : DataRequest) (h h' : Handler lb) (r : RequestResult)
      → lb.occupancy h.buffer ≡ 0
      → data_request dr h ≡ some (r, h')
      → (r.result_code ≡ not_found) × (h'.buffer ≡ h.buffer) × (h'.pop_list ≡ h.pop_list)
  unfolding data_request
  data_request_empty dr h h' r e q = ground arith

  -- How issue_request leaves a request, by the result of its data request. With the data, or on a retry, or where
  -- requests do not wait, the fragment is sent; else it is queued again with the time, and nothing is sent.
  unfoldable pub Outcome : DataRequest → Bool → ℕ → Handler lb → Handler lb → Type 0
  Outcome dr is_retry now h h' =
      (r : RequestResult) × (h₁ : Handler lb) × (data_request dr h ≡ some (r, h₁))
      × (((lacks r.result_code && not is_retry && ltb 0 h.request_timeout_ms ≡ false)
            × (h'.sent ≡ h.sent ++ r.fragment ∷ [])
            × Answers r.fragment dr
            × (h'.waiting_requests ≡ h.waiting_requests))
          ⊎ ((h'.waiting_requests
                ≡ h.waiting_requests ++ record { request = dr; start_time = now } ∷ [])
              × (h'.sent ≡ h.sent)
              × (lacks r.result_code ≡ true)
              × (is_retry ≡ false)
              × (0 < h.request_timeout_ms)))

  -- A cleanup after an answer finds a front.
  abbrev pub HasFront : Handler lb → Type 0
  HasFront h = (0 < lb.occupancy h.buffer) ⊎ (is_empty h.pop_list ≡ true)

  send_fragment_stale :
      (f : Fragment) (h : Handler lb)
      → lb.occupancy h.buffer ≡ 0
      → is_empty h.pop_list ≡ false
      → send_fragment true f h ≡ none
  unfolding send_fragment cleanup_check
  send_fragment_stale f h e stale =
      rw stale (cleanup_empty (record h { sent = h.sent ++ f ∷ [] }) e)

  respond_stale :
      (is_retry : Bool) (now : ℕ) (r : RequestResult) (h : Handler lb)
      → r.result_code ≡ not_found
      → lb.occupancy h.buffer ≡ 0
      → is_empty h.pop_list ≡ false
      → respond is_retry true now (r, h) ≡ none
  unfolding respond must_wait
  respond_stale is_retry now r h c e stale = rw c (send_fragment_stale r.fragment h e stale)

  -- While a stale pop list is left over an empty buffer, the cleanup after an answer dereferences
  -- the front that is not there: every request whose fragment can be sent faults.
  pub issue_request_stale :
      (dr : DataRequest) (is_retry : Bool) (now : ℕ) (h : Handler lb)
      → lb.occupancy h.buffer ≡ 0
      → is_empty h.pop_list ≡ false
      → issue_request dr is_retry true now h ≡ none
  unfolding issue_request
  issue_request_stale dr is_retry now h e stale =
      let ((r, h'), q) = data_request_total dr h (inl e) in
      let (c, b, p) = data_request_empty dr h h' r e q in
      rw q (
        rw (respond_stale is_retry now r h' c (ap lb.occupancy b ∙ e) (ap is_empty p ∙ stale)) refl)

  data_request_handled :
      (dr : DataRequest) (h h' : Handler lb) (r : RequestResult)
      → lb.occupancy h.buffer ≡ 0
      → data_request dr h ≡ some (r, h')
      → h'.counters.handled_requests ≡ h.counters.handled_requests
  unfolding data_request
  data_request_handled dr h h' r e q = ground arith

  -- Over an empty buffer with nothing left to pop, the request is answered and counted.
  pub issue_request_empty :
      (dr : DataRequest) (now : ℕ) (h : Handler lb)
      → lb.occupancy h.buffer ≡ 0
      → is_empty h.pop_list ≡ true
      → (h' : Handler lb) × (issue_request dr false true now h ≡ some h')
        × (h'.counters.handled_requests ≡ incr h.counters.handled_requests)
  unfolding issue_request respond must_wait send_fragment cleanup_check
  issue_request_empty dr now h e p =
      let ((r, h1), q) = data_request_total dr h (inl e) in
      let (c, b, same) = data_request_empty dr h h1 r e q in
      let sent : Handler lb = record h1 { sent = h1.sent ++ r.fragment ∷ [] } in
      let counted : Handler lb = record sent {
        counters = record (h1.counters) { handled_requests = incr h1.counters.handled_requests };
      } in
      (
        counted,
        rw q (rw (c, ap is_empty same ∙ p) refl),
        ap incr (data_request_handled dr h h1 r e q),
      )
