-- ===== src/Interfaces/Rclone/Work.antt =====
-- do_work of include/snbmodules/interfaces/transfer_interface_RClone.hpp: the rounds of the thread that
-- asks for the state of the jobs. `none` is an exception, which ends the program.
use snbmodules.Common.{
  ℕ, suc, Bool, true, false, Option, none, some, List, [], ◌∷◌, Text, text, ℤ, pos, stoi, ◌==◌, ◌+◌,
  if◌then◌else◌, ◌>>=◌,
}
use snbmodules.Enums.Status.{finished, error}
use snbmodules.Metadata.Transfer.{
  TransferMetadata, set_status, set_progress, set_transmission_speed, set_error_code,
}
use snbmodules.Group.Metadata.{store}
use snbmodules.Interfaces.Rclone.State.{RcloneEnv, Jobs, Rclone, request_rpc, fits}
use snbmodules.Interfaces.Rclone.Request.{job_request}

-- grp.substr(grp.find("/") + 1): the whole text where there is no slash.
unfoldable pub after_slash : Text → Text → Text
after_slash whole [] = whole
after_slash whole (c ∷ s) = let rest = after_slash whole s in if c == 47 then s else rest

unfoldable pub int_eq : ℤ → ℤ → Bool
int_eq (pos a) (pos b) = a == b
int_eq (ℤ.negsuc a) (ℤ.negsuc b) = a == b
int_eq (pos a) (ℤ.negsuc b) = false
int_eq (ℤ.negsuc a) (pos b) = false

-- The first job with the number.
unfoldable pub file_of : ℤ → Jobs → Option ℕ
unfolding int_eq
file_of id [] = none
file_of id ((p, i) ∷ js) = if int_eq i id then some p else file_of id js

-- What job/status says of a job.
pub data JobStatus : Type 0 where
  unfinished : JobStatus
  succeeded : JobStatus
  failed : Text → JobStatus

-- The file of a job, by what is said of it at a time.
unfoldable pub settle : ℤ → JobStatus → TransferMetadata → Option TransferMetadata
settle now unfinished m = some m
settle now succeeded m = set_progress (pos 100) (set_status now finished m) >>= λ full.
    some (set_transmission_speed (pos 0) full)
settle now (failed message) m =
    some (set_transmission_speed (pos 0) (set_error_code message (set_status now error m)))

-- How often set_status was called.
unfoldable pub clock_reads : JobStatus → ℕ
clock_reads unfinished = 0
clock_reads succeeded = 1
clock_reads (failed message) = 1

module _ (env : RcloneEnv) where
  -- `t["k"]` with get.
  unfoldable pub field : {A : Type 0} → (env.json.Json → Option A) → Text → env.json.Json → Option A
  field get k j = env.json.at k j >>= get

  unfoldable pub report : Option ℕ → env.json.Json → Rclone → Option Rclone
  unfolding field
  report none t s = some s
  report (some p) t s = do
    percentage ← field env.json.get_int (text "percentage") t
    m ← set_progress percentage (s.heap p)
    speed ← field env.json.get_int (text "speedAvg") t
    some (record s { heap = store p (set_transmission_speed speed m) s.heap })

  -- A transfer of core/stats.
  unfoldable pub note_transfer : env.json.Json → Rclone → Option Rclone
  unfolding field report after_slash file_of
  note_transfer t s = do
    grp ← field env.json.get_text (text "group") t
    job_id ← stoi (after_slash grp grp)
    report (file_of job_id s.jobs_id) t s

  unfoldable pub note_transfers : List env.json.Json → Rclone → Option Rclone
  unfolding note_transfer
  note_transfers [] s = some s
  note_transfers (t ∷ ts) s = note_transfer t s >>= note_transfers ts

  unfoldable pub note_stats : Option env.json.Json → Rclone → Option Rclone
  unfolding note_transfers
  note_stats none s = some s
  note_stats (some stats) s = do
    transferring ← env.json.at (text "transferring") stats
    if env.json.is_null transferring
        then some s
        else (env.json.get_list transferring >>= λ ts. note_transfers ts s)

  unfoldable pub read_end : Bool → env.json.Json → Option JobStatus
  unfolding field
  read_end true j = some succeeded
  read_end false j = field env.json.get_text (text "error") j >>= λ e. some (failed e)

  unfoldable pub read_finished : Bool → env.json.Json → Option JobStatus
  unfolding field read_end
  read_finished false j = some unfinished
  read_finished true j =
      field env.json.get_bool (text "success") j >>= λ success. read_end success j

  unfoldable pub read_status : env.json.Json → Option JobStatus
  unfolding field read_finished
  read_status j = do
    flag ← env.json.at (text "finished") j
    if env.json.is_null flag
        then some unfinished
        else (env.json.get_bool flag >>= λ b. read_finished b j)

  unfoldable pub settle_job : ℕ → Option env.json.Json → Rclone → Option Rclone
  unfolding read_status settle clock_reads
  settle_job p none s = some s
  settle_job p (some j) s = do
    status ← read_status j
    m ← settle (env.clock s.instant) status (s.heap p)
    some (record s { heap = store p m s.heap; instant = s.instant + clock_reads status })

  -- The loop over the jobs.
  unfoldable pub check_jobs : Jobs → Rclone → Option Rclone
  unfolding settle_job request_rpc fits
  check_jobs [] s = some s
  check_jobs ((p, id) ∷ js) s = do
    input ← fits 100 (job_request id)
    (answer, asked) ← request_rpc env (text "job/status") input s
    settled ← settle_job p answer asked
    check_jobs js settled

  unfoldable pub work_round : Rclone → Option Rclone
  unfolding request_rpc note_stats check_jobs
  work_round s = do
    (stats, asked) ← request_rpc env (text "core/stats") (text "{}") s
    noted ← note_stats stats asked
    check_jobs noted.jobs_id noted

  -- The rounds while the flag is set.
  unfoldable pub do_work : ℕ → Rclone → Option Rclone
  unfolding work_round
  do_work ℕ.zero s = some s
  do_work (suc rounds) s = work_round s >>= do_work rounds
