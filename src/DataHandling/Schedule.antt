-- ===== src/DataHandling/Schedule.antt =====
-- postprocess_schedule of include/snbmodules/readout/detail/SNBDataHandlingModel.hxx: the rounds of the
-- coroutine. Timestamps and counts of milliseconds are uint64_t.
use snbmodules.Common.{
  ℕ, suc, ◌+◌, ◌-◌, ◌%◌, ◌≡◌, refl, Bool, false, Option, none, some, List, [], ◌∷◌, ◌++◌, length,
  ltb, leb, ◌==◌, if◌then◌else◌, ◌>>=◌, keep,
}
use snbmodules.RequestHandler.Buffer.{Element, LatencyBuffer, list_buffer}

-- Difference of uint64_t.
abbrev pub minus64 : ℕ → ℕ → ℕ
minus64 a b = (a + (18446744073709551616 - b)) % 18446744073709551616

-- A buffer with lower_bound: what an iterator from there passes over. Its law is that of an ordered
-- buffer: the elements that are not before the timestamp.
pub record OrderedBuffer : Type 1 where
  pub lb : LatencyBuffer
  pub lower_bound : ℕ → lb.Buffer → List Element
  pub lower_bound_begin :
      (t : ℕ) (b : lb.Buffer) → lower_bound t b ≡ keep (λ e. leb t e.timestamp) (lb.begin b)

abbrev pub ordered_list : OrderedBuffer
ordered_list = record {
  lb = list_buffer;
  lower_bound = λ t b. keep (λ e. leb t e.timestamp) b;
  lower_bound_begin = λ t b. refl;
}

-- The configuration that the coroutine reads.
pub record Delays : Type 0 where
  pub processing_delay_ticks : ℕ
  pub post_processing_delay_min_wait : ℕ

-- Its local variables, what it has handed to postprocess_item, in order, and the counters that it
-- raises: one for each element handled, and one for the waits that timed out.
pub record Scheduler : Type 0 where
  pub processed_element : ℕ
  pub first_cycle : Bool
  pub last_post_proc_time : ℕ
  pub handled : List Element
  pub num_payloads : ℕ
  pub num_max_waits : ℕ

-- What a round finds: whether the baton was posted, the clock (ms) and the buffer.
pub record Round (ob : OrderedBuffer) : Type 0 where
  pub posted : Bool
  pub now : ℕ
  pub buffer : ob.lb.Buffer

-- The loop `for (it = start_iter; it != end_iter; ++it)`, where each iterator is what is left behind it;
-- `none` is a step past the end of the buffer.
unfoldable pub walk : List Element → List Element → Option (List Element)
walk [] stop = if length stop == 0 then some [] else none
walk (e ∷ es) stop =
    let rest = walk es stop in
    if length (e ∷ es) == length stop then some [] else (rest >>= λ r. some (e ∷ r))

module _ (ob : OrderedBuffer) (d : Delays) where
  -- The elements up to the end of the window are handled.
  unfoldable pub handle_window : ℕ → ob.lb.Buffer → Scheduler → Option Scheduler
  unfolding walk
  handle_window end_win_ts b s =
      walk (ob.lower_bound s.processed_element b) (ob.lower_bound end_win_ts b) >>= λ items.
      some (record s {
        processed_element = end_win_ts;
        handled = s.handled ++ items;
        num_payloads = s.num_payloads + length items;
      })

  -- The first cycle starts at the oldest element.
  unfoldable pub first_position : ob.lb.Buffer → Scheduler → Option Scheduler
  first_position b s =
      if s.first_cycle
      then (ob.lb.front b >>= λ head.
          some (record s { processed_element = head.timestamp; first_cycle = false }))
      else some s

  unfoldable pub handle_data : ob.lb.Buffer → Scheduler → Option Scheduler
  unfolding handle_window first_position
  handle_data b s = do
    tail ← ob.lb.back b
    s1 ← first_position b s
    if ltb d.processing_delay_ticks (minus64 tail.timestamp s1.processed_element)
        then handle_window (minus64 tail.timestamp d.processing_delay_ticks) b s1
        else some s1

  -- The wait for the baton, which may time out.
  unfoldable pub waited : Round ob → Scheduler → Scheduler
  waited r s = if r.posted then s else record s { num_max_waits = suc s.num_max_waits }

  -- Behind the wait; `none` is the use of an element that is not there.
  unfoldable pub attend : Round ob → Scheduler → Option Scheduler
  unfolding handle_data
  attend r s =
      if ob.lb.occupancy r.buffer == 0
      then some s
      else if leb (minus64 r.now s.last_post_proc_time) d.post_processing_delay_min_wait
      then some s
      else handle_data r.buffer (record s { last_post_proc_time = r.now })

  -- A round of the loop.
  unfoldable pub post_process : Round ob → Scheduler → Option Scheduler
  unfolding attend waited
  post_process r s = attend r (waited r s)

  -- The rounds while the run marker is set.
  unfoldable pub postprocess_schedule : List (Round ob) → Scheduler → Option Scheduler
  unfolding post_process
  postprocess_schedule [] s = some s
  postprocess_schedule (r ∷ rs) s = post_process r s >>= postprocess_schedule rs
