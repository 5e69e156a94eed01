-- ===== src/DataHandling/Items.antt =====
-- transform_and_process, process_item and dispatch_requests of
-- include/snbmodules/readout/detail/SNBDataHandlingModel.hxx. Counters wrap at 32
-- bits; mismatches and posts, which the code does not count, do not.
use snbmodules.Common.{
  ℕ, suc, Bool, Option, none, some, List, [], ◌∷◌, leb, ◌==◌, ◌&&◌, ◌||◌, ◌^◌, if◌then◌else◌, ◌>>=◌,
}
use snbmodules.RequestHandler.Buffer.{Element}
use snbmodules.DataHandling.Schedule.{minus64}
use snbmodules.RequestHandler.State.{SourceId, DataRequest, incr}

-- The latency buffer as the producer calls it; `none` is a failed insert. write_and_return also says
-- which element was written.
pub record InputBuffer : Type 1 where
  pub Buffer : Type 0
  pub is_full : Buffer → Bool
  pub write : Element → Buffer → Option Buffer
  pub write_and_return : Element → Buffer → Option (Buffer × Element)
  pub back : Buffer → Option Element

-- What process_item reads: the configuration, the request handler and the raw data processor.
-- `expects_order` is ExpectsOrder of the buffer's type.
pub record Receiving : Type 0 where
  pub processing_delay_ticks : ℕ
  pub supports_cutoff_timestamp : Bool
  pub cutoff_timestamp : ℕ
  pub expects_order : Bool
  pub preprocess_item : Element → Element

-- What process_item changes: the elements handed to postprocess_item and the payloads reported as late,
-- both newest first, the counters, and how often the baton was posted.
pub record Received : Type 0 where
  pub postprocessed : List Element
  pub late : List Element
  pub num_lb_insert_failures : ℕ
  pub num_payloads : ℕ
  pub sum_payloads : ℕ
  pub stats_packet_count : ℕ
  pub posts : ℕ

-- The int64_t `diff1 <= 0`: the difference of uint64_t is 0 or has the sign bit.
unfoldable pub too_late : ℕ → ℕ → Bool
too_late t cutoff = let diff = minus64 t cutoff in (diff == 0) || leb (2 ^ 63) diff

unfoldable pub report_late : Receiving → Element → Received → Received
unfolding too_late
report_late c e s =
    if c.supports_cutoff_timestamp && too_late e.timestamp c.cutoff_timestamp
    then record s { late = e ∷ s.late }
    else s

unfoldable pub insert_failed : Received → Received
insert_failed s = record s { num_lb_insert_failures = incr s.num_lb_insert_failures }

-- The end of process_item.
unfoldable pub finish_item : Receiving → Element → Received → Received
finish_item c written s =
    if c.processing_delay_ticks == 0
    then record s {
      postprocessed = written ∷ s.postprocessed;
      num_payloads = incr s.num_payloads;
      sum_payloads = incr s.sum_payloads;
      stats_packet_count = incr s.stats_packet_count;
    }
    else record s { posts = suc s.posts }

module _ (ib : InputBuffer) where
  -- The wait while the buffer is full, over the buffers that it finds; `none` is a wait that goes on.
  unfoldable pub await_room : List ib.Buffer → Option ib.Buffer
  await_room [] = none
  await_room (b ∷ bs) = let rest = await_room bs in if ib.is_full b then rest else some b

  -- The outer `none` is the use of a buffer's back that is not there.
  unfoldable pub written_back : Option ib.Buffer → Option (Option (ib.Buffer × Element))
  written_back none = some none
  written_back (some b) = ib.back b >>= λ e. some (some (b, e))

module _ (ib : InputBuffer) (c : Receiving) where
  -- The insert: in the order of the buffer, or with the place returned.
  unfoldable pub insert_item : Element → ib.Buffer → Option (Option (ib.Buffer × Element))
  unfolding written_back
  insert_item e b =
      if c.expects_order then written_back ib (ib.write e b) else some (ib.write_and_return e b)

  unfoldable pub after_insert :
      ib.Buffer → Received → Option (ib.Buffer × Element) → ib.Buffer × Received
  unfolding insert_failed finish_item
  after_insert b s none = (b, insert_failed s)
  after_insert b s (some (b', written)) = (b', finish_item c written s)

  -- `polls` are the buffers that the wait finds.
  unfoldable pub process_item : Element → List ib.Buffer → Received → Option (ib.Buffer × Received)
  unfolding report_late await_room insert_item after_insert
  process_item payload polls s = do
    let e = c.preprocess_item payload
    b ← await_room ib polls
    result ← insert_item e b
    some (after_insert b (report_late c e s) result)

  -- transform_and_process: the payload itself, or what it was transformed to, item by item.
  unfoldable pub transform_and_process :
      List (Element × List ib.Buffer) → Received → Option Received
  unfolding process_item
  transform_and_process [] s = some s
  transform_and_process ((e, polls) ∷ es) s =
      process_item e polls s >>= λ (b, s'). transform_and_process es s'

-- The counters of requests and what was issued to the request handler, newest first.
pub record Dispatching : Type 0 where
  pub num_requests : ℕ
  pub sum_requests : ℕ
  pub issued : List DataRequest
  pub mismatches : ℕ

unfoldable pub source_eq : SourceId → SourceId → Bool
source_eq a b = (a.subsystem == b.subsystem) && (a.id == b.id)

-- `component` is the request's request_information.component.
unfoldable pub dispatch_requests : SourceId → SourceId → DataRequest → Dispatching → Dispatching
unfolding source_eq
dispatch_requests sourceid component r d =
    if source_eq component sourceid
    then record d {
      issued = r ∷ d.issued;
      num_requests = incr d.num_requests;
      sum_requests = incr d.sum_requests;
    }
    else record d { mismatches = suc d.mismatches }
