-- ===== src/DataHandling/Timesync.antt =====
-- run_timesync of include/snbmodules/readout/detail/SNBDataHandlingModel.hxx. Sequence numbers and
-- timestamps are uint64_t. The component of a request, which is always this one, is left out, and so are
-- the counters of requests, which are only published.
use snbmodules.Common.{
  true, ℕ, suc, ◌+◌, ◌-◌, ◌*◌, ◌%◌, ◌^◌, ◌≡◌, ◌≢◌, refl, Bool, false, not, ◌&&◌, ◌==◌, ltb, List,
  [], ◌∷◌, if◌then◌else◌, arith, Bool-cases, inl, inr, text,
}
use snbmodules.RequestHandler.State.{SourceId, DataRequest}

pub record TimeSync : Type 0 where
  pub daq_time : ℕ
  pub run_number : ℕ
  pub sequence_number : ℕ
  pub source_id : ℕ

-- `blank_request` is a default DataRequest.
pub record Settings : Type 0 where
  pub fake_trigger : Bool
  pub run_number : ℕ
  pub sourceid : SourceId
  pub blank_request : DataRequest

-- The local variables and the members that change, what was sent (newest first) and the requests that
-- were issued to the request handler (newest first). m_current_fake_trigger_id is an int.
pub record Syncing : Type 0 where
  pub msg_seqno : ℕ
  pub prev_timestamp : ℕ
  pub zero_timestamp_count : ℕ
  pub duplicate_timestamp_count : ℕ
  pub total_timestamp_count : ℕ
  pub once_per_run : Bool
  pub current_fake_trigger_id : ℕ
  pub sent : List TimeSync
  pub issued : List DataRequest

incr64 : ℕ → ℕ
incr64 n = (n + 1) % 2 ^ 64

-- `a > b ? a - b : 0`.
unfoldable pub above : ℕ → ℕ → ℕ
above a b = if ltb b a then a - b else 0

abbrev us : ℕ
us = 1000

-- The fake trigger's window, of 300000 ticks from 100 before the trigger.
unfoldable pub fake_request : Settings → ℕ → ℕ → DataRequest
unfolding above
fake_request c trigger daq_time =
    let trigger_timestamp = above daq_time (500 * us) in
    let begin = above trigger_timestamp 100 in
    record c.blank_request {
      trigger_number = trigger;
      trigger_timestamp = trigger_timestamp;
      window_begin = begin;
      window_end = (begin + 300000) % 2 ^ 64;
      data_destination = text "data_fragments_q";
    }

unfoldable pub issue_fake : Settings → ℕ → Syncing → Syncing
unfolding fake_request
issue_fake c daq_time s =
    let trigger = (s.current_fake_trigger_id + 1) % 2 ^ 32 in
    if c.fake_trigger
    then record s {
      current_fake_trigger_id = trigger;
      issued = fake_request c trigger daq_time ∷ s.issued;
    }
    else s

unfoldable pub send_timesync : Settings → ℕ → Syncing → Syncing
unfolding incr64
send_timesync c daq_time s = record s {
  prev_timestamp = daq_time;
  msg_seqno = incr64 s.msg_seqno;
  sent =
      record {
        daq_time = daq_time;
        run_number = c.run_number;
        sequence_number = incr64 s.msg_seqno;
        source_id = c.sourceid.id;
      }
      ∷ s.sent;
}

unfoldable pub skip_timesync : ℕ → Syncing → Syncing
skip_timesync daq_time s = record s {
  zero_timestamp_count =
      if daq_time == 0 then suc s.zero_timestamp_count else s.zero_timestamp_count;
  duplicate_timestamp_count =
      if daq_time == s.prev_timestamp
      then suc s.duplicate_timestamp_count
      else s.duplicate_timestamp_count;
  once_per_run = false;
}

-- A round: the last DAQ time is read; a failed send is reported and no more.
unfoldable pub sync : Settings → ℕ → Syncing → Syncing
unfolding issue_fake send_timesync skip_timesync
sync c daq_time s0 =
    let s : Syncing = record s0 { total_timestamp_count = suc s0.total_timestamp_count } in
    if not (daq_time == 0) && not (daq_time == s.prev_timestamp)
    then issue_fake c daq_time (send_timesync c daq_time s)
    else skip_timesync daq_time s

-- The loop, over the DAQ times that it reads.
unfoldable pub run_timesync : Settings → List ℕ → Syncing → Syncing
unfolding sync
run_timesync c [] s = s
run_timesync c (t ∷ ts) s = run_timesync c ts (sync c t s)

-- What a run begins with: only the fake trigger's number goes on.
unfoldable pub begin_timesync : Syncing → Syncing
begin_timesync s = record s {
  msg_seqno = 0;
  prev_timestamp = 0;
  zero_timestamp_count = 0;
  duplicate_timestamp_count = 0;
  total_timestamp_count = 0;
  once_per_run = true;
  sent = [];
  issued = [];
}

-- Messages, newest first, whose times are not 0 and differ from the one sent before; `newest` is the time
-- of the newest, or 0.
abbrev pub Spread : ℕ → List TimeSync → Type 0
Spread newest [] = newest ≡ 0
Spread newest (m ∷ ms) =
    (m.daq_time ≡ newest) × (newest ≢ 0) × ((before : ℕ) × (before ≢ newest) × Spread before ms)

issue_fake-same :
    (c : Settings) (t : ℕ) (s : Syncing)
    → ((issue_fake c t s).sent ≡ s.sent) × ((issue_fake c t s).prev_timestamp ≡ s.prev_timestamp)
unfolding issue_fake
issue_fake-same c t s = elim (Bool-cases c.fake_trigger) [
  | inl k ↦ rw k (refl, refl)
  | inr k ↦ rw k (refl, refl)
]

sync-Spread :
    (c : Settings) (t : ℕ) (s : Syncing)
    → Spread s.prev_timestamp s.sent
    → Spread (sync c t s).prev_timestamp (sync c t s).sent
unfolding sync send_timesync skip_timesync
sync-Spread c t s h = elim (Bool-cases (not (t == 0) && not (t == s.prev_timestamp))) [
  | inr k ↦ rw k h
  | inl k ↦
      let counted : Syncing = record s { total_timestamp_count = suc s.total_timestamp_count } in
      let (same_sent, same_time) = issue_fake-same c t (send_timesync c t counted) in
      rw (k, same_sent, same_time)
        (refl, (λ z. ground (arith, k, z)), (s.prev_timestamp, (λ z. ground (arith, k, z)), h))
]

loop-Spread :
    (c : Settings) (ts : List ℕ) (s : Syncing)
    → Spread s.prev_timestamp s.sent
    → Spread (run_timesync c ts s).prev_timestamp (run_timesync c ts s).sent
unfolding run_timesync
loop-Spread c [] s h = h
loop-Spread c (t ∷ ts) s h = loop-Spread c ts (sync c t s) (sync-Spread c t s h)

-- Whatever DAQ times a run reads, no time sync is sent for time 0, and none for the time of the one sent
-- before it.
pub run_timesync-Spread :
    (c : Settings) (ts : List ℕ) (s : Syncing)
    → Spread
        (run_timesync c ts (begin_timesync s)).prev_timestamp
        (run_timesync c ts (begin_timesync s)).sent
unfolding begin_timesync
run_timesync-Spread c ts s = loop-Spread c ts (begin_timesync s) refl
