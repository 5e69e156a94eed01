-- ===== src/RequestHandler/Timeouts.antt =====
-- One pass over the waiting requests.
use snbmodules.Common.{
  ℕ, suc, ◌+◌, ◌-◌, ◌≤◌, ◌<◌, ◌≡◌, refl, ap, inl, inr, List, [], ◌∷◌, map, arith, length, All,
  Bool-cases, leb, le→leb,
}
use snbmodules.RequestHandler.Buffer.{LatencyBuffer}
use snbmodules.RequestHandler.State.{DataRequest, RequestElement, Handler}
use snbmodules.RequestHandler.Waiting.{sweep, check_waiting_requests}

-- A list is split in two, both in its order.
pub data Split : List DataRequest → List RequestElement → List RequestElement → Type 0 where
  done : Split [] [] []
  issue :
      {ds : List DataRequest} {ks rs : List RequestElement} (r : RequestElement)
      → Split ds ks rs
      → Split (r.request ∷ ds) ks (r ∷ rs)
  keep :
      {ds : List DataRequest} {ks rs : List RequestElement} (r : RequestElement)
      → Split ds ks rs
      → Split ds (r ∷ ks) (r ∷ rs)

-- A request may go on waiting only while its window reaches past the newest element.
abbrev pub StillWaits : ℕ → RequestElement → Type 0
StillWaits newest_ts r = newest_ts < r.request.window_end

-- Each waiting request is issued again or kept, never both, none lost; one that is kept still
-- waits for data.
pub sweep-Split :
    (newest_ts timeout : ℕ) (clock : ℕ → ℕ) (i : ℕ) (rs : List RequestElement)
    → Split (sweep newest_ts timeout clock i rs).issued (sweep newest_ts timeout clock i rs).kept rs
      × All (StillWaits newest_ts) (sweep newest_ts timeout clock i rs).kept
      × ((sweep newest_ts timeout clock i rs).timed_out
          ≤ length (sweep newest_ts timeout clock i rs).issued)
unfolding sweep
sweep-Split newest_ts timeout clock i [] = (done, tt, omega arith)
sweep-Split newest_ts timeout clock i (r ∷ rs) =
    let (s, a, n) = sweep-Split newest_ts timeout clock (suc i) rs in
    elim (Bool-cases (leb r.request.window_end newest_ts)) [
      | inl here ↦ rw here (issue r s, a, omega arith)
      | inr later ↦ rw later (elim (Bool-cases (leb timeout (clock i - r.start_time))) [
        | inl over ↦ rw over (issue r s, a, omega arith)
        | inr under ↦ rw under (keep r s, (ground arith, a), n)
      ])
    ]

-- The clock has passed the timeout of every request.
abbrev pub AllExpired : ℕ → (ℕ → ℕ) → ℕ → List RequestElement → Type 0
AllExpired timeout clock i [] = Unit
AllExpired timeout clock i (r ∷ rs) =
    (r.start_time + timeout ≤ clock i) × AllExpired timeout clock (suc i) rs

-- Once the timeouts are over no request waits on: all are issued, in their order.
pub sweep-AllExpired :
    (newest_ts timeout : ℕ) (clock : ℕ → ℕ) (i : ℕ) (rs : List RequestElement)
    → AllExpired timeout clock i rs
    → ((sweep newest_ts timeout clock i rs).kept ≡ [])
      × ((sweep newest_ts timeout clock i rs).issued ≡ map (λ r. r.request) rs)
unfolding sweep
sweep-AllExpired newest_ts timeout clock i [] h = (refl, refl)
sweep-AllExpired newest_ts timeout clock i (r ∷ rs) h =
    let (k, d) = sweep-AllExpired newest_ts timeout clock (suc i) rs h.1 in
    elim (Bool-cases (leb r.request.window_end newest_ts)) [
      | inl here ↦ rw here (k, ap (λ ds. r.request ∷ ds) d)
      | inr later ↦
          rw (later, le→leb timeout (clock i - r.start_time) (omega (arith, h.0)))
            (k, ap (λ ds. r.request ∷ ds) d)
    ]

module _ {lb : LatencyBuffer} where
  -- A round of check_waiting_requests after the timeouts are over empties the waiting list, and
  -- issues all of it again.
  pub check_waiting_requests_drains :
      (clock : ℕ → ℕ) (h : Handler lb)
      → AllExpired h.request_timeout_ms clock 0 h.waiting_requests
      → ((check_waiting_requests clock h).1.waiting_requests ≡ [])
        × ((check_waiting_requests clock h).0 ≡ map (λ r. r.request) h.waiting_requests)
  unfolding check_waiting_requests
  check_waiting_requests_drains clock h e =
      sweep-AllExpired _ h.request_timeout_ms clock 0 h.waiting_requests e
