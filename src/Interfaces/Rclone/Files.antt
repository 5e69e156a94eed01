-- ===== src/Interfaces/Rclone/Files.antt =====
-- The constructor and the operations of include/snbmodules/interfaces/transfer_interface_RClone.hpp. The
-- outer `none` is an exception, a write behind the end of a buffer, or the use of a buffer that was not
-- written.
use snbmodules.Common.{
  ℕ, Bool, true, false, Option, none, some, [], Text, text, text_eq, contains_text, ℤ, pos,
  if◌then◌else◌, ◌>>=◌,
}
use snbmodules.Enums.Status.{finished, error}
use snbmodules.FilePath.Path.{absolute}
use snbmodules.Metadata.Transfer.{set_error_code}
use snbmodules.Group.Metadata.{Heap}
use snbmodules.Interfaces.Rclone.State.{
  RcloneEnv, Params, Rclone, find_job, set_job, edit, set_status_at, request_rpc, fits,
}
use snbmodules.Interfaces.Rclone.Request.{
  rate_request, cache_request, pause_request, resume_request, job_request, http_request,
  sftp_request,
}

unfoldable pub default_params : Params
default_params = record {
  protocol = text "http";
  user = text "anonymous";
  port = pos 8080;
  bwlimit = text "off";
  refresh_rate = pos 10;
  root_folder = text "/";
  simult_transfers = pos 200;
  transfer_threads = pos 4;
  checkers_threads = pos 1;
  chunk_size = text "10G";
  buffer_size = text "100G";
  use_mmap = false;
  checksum = true;
}

-- What a call of the interface gives: its answer and the new state.
abbrev pub Outcome : Type 0
Outcome = Option (Bool × Rclone)

module _ (env : RcloneEnv) where
  -- `if (options.contains(k)) x = options[k].get<T>();`
  unfoldable pub option :
      {A : Type 0} → (env.json.Json → Option A) → Text → A → env.json.Json → Option A
  option get k default o = if env.json.contains k o then (env.json.at k o >>= get) else some default

  unfoldable pub user_option : Text → Text → env.json.Json → Option Text
  unfolding option
  user_option protocol default o =
      if text_eq protocol (text "sftp")
      then option env.json.get_text (text "user") default o
      else some default

  unfoldable pub root_option : env.json.Json → Option Text
  unfolding option
  root_option o =
      if env.json.contains (text "root_folder") o
      then (env.json.at (text "root_folder") o >>= λ j.
          env.json.get_text j >>= λ t. absolute env.cwd t)
      else some default_params.root_folder

  unfoldable pub read_params : env.json.Json → Option Params
  unfolding option user_option root_option default_params
  read_params o = do
    protocol ← option env.json.get_text (text "protocol") default_params.protocol o
    user ← user_option protocol default_params.user o
    bwlimit ← option env.json.get_text (text "rate_limit") default_params.bwlimit o
    refresh_rate ← option env.json.get_int (text "refresh_rate") default_params.refresh_rate o
    port ← option env.json.get_int (text "port") default_params.port o
    simult ← option env.json.get_int (text "simult_transfers") default_params.simult_transfers o
    threads ← option env.json.get_int (text "transfer_threads") default_params.transfer_threads o
    checkers ← option env.json.get_int (text "checkers_threads") default_params.checkers_threads o
    chunk_size ← option env.json.get_text (text "chunk_size") default_params.chunk_size o
    buffer_size ← option env.json.get_text (text "buffer_size") default_params.buffer_size o
    use_mmap ← option env.json.get_bool (text "use_mmap") default_params.use_mmap o
    checksum ← option env.json.get_bool (text "checksum") default_params.checksum o
    root_folder ← root_option o
    some (record {
      protocol = protocol;
      user = user;
      port = port;
      bwlimit = bwlimit;
      refresh_rate = refresh_rate;
      root_folder = root_folder;
      simult_transfers = simult;
      transfer_threads = threads;
      checkers_threads = checkers;
      chunk_size = chunk_size;
      buffer_size = buffer_size;
      use_mmap = use_mmap;
      checksum = checksum;
    })

  -- The constructor; the thread that it starts is of Work.
  unfoldable pub make_rclone : env.json.Json → Heap → Option Rclone
  unfolding read_params request_rpc fits rate_request cache_request
  make_rclone o heap = do
    params ← read_params o
    rate ← fits 100 (rate_request params)
    limited ←
        request_rpc env (text "core/bwlimit") rate
          (record { params = params; jobs_id = []; heap = heap; instant = 0; requests = [] })
    cached ← request_rpc env (text "options/set") cache_request limited.1
    asked ← request_rpc env (text "options/get") (text "{}") cached.1
    some asked.1

  unfoldable pub upload_file : ℕ → Rclone → Outcome
  unfolding set_status_at
  upload_file p s = some (true, set_status_at env p finished s)

  unfoldable pub job_started : ℕ → Option env.json.Json → Rclone → Outcome
  unfolding request_rpc
  job_started p none s = some (false, s)
  job_started p (some j) s = do
    id ← env.json.at (text "jobid") j
    n ← env.json.get_int id
    asked ← request_rpc env (text "options/local") [] (record s { jobs_id = set_job p n s.jobs_id })
    some (true, asked.1)

  -- The copy that is asked for, and what is kept of it.
  unfoldable pub start_copy : ℕ → Text → Rclone → Outcome
  unfolding request_rpc job_started fits
  start_copy p request s = do
    input ← fits 1000 request
    (answer, asked) ← request_rpc env (text "operations/copyfile") input s
    job_started p answer asked

  -- A path that does not lie below the root folder.
  unfoldable pub refuse_path : ℕ → Rclone → Outcome
  unfolding set_status_at edit
  refuse_path p s = some (
    false,
    edit p (set_error_code (text "File path is not relative to root folder !"))
        (set_status_at env p error s),
  )

  unfoldable pub download_http : ℕ → Text → Rclone → Outcome
  unfolding start_copy refuse_path http_request
  download_http p dest s =
      let path = env.relative (s.heap p).file_path s.params.root_folder in
      if contains_text (text "..") path
      then refuse_path p s
      else start_copy p (http_request s.params (s.heap p) path dest) s

  -- For another protocol the buffer is sent as it was allocated.
  unfoldable pub download_file : ℕ → Text → Rclone → Outcome
  unfolding download_http start_copy sftp_request
  download_file p dest s =
      if text_eq s.params.protocol (text "http")
      then download_http p dest s
      else if text_eq s.params.protocol (text "sftp")
      then start_copy p (sftp_request s.params (s.heap p) dest) s
      else none

  unfoldable pub pause_file : ℕ → Rclone → Outcome
  unfolding request_rpc pause_request
  pause_file p s =
      request_rpc env (text "core/bwlimit") pause_request s >>= λ (j, s'). some (true, s')

  unfoldable pub resume_file : ℕ → Rclone → Outcome
  unfolding request_rpc resume_request fits
  resume_file p s = do
    input ← fits 100 (resume_request s.params)
    (answer, asked) ← request_rpc env (text "core/bwlimit") input s
    some (true, asked)

  unfoldable pub hash_file : ℕ → Rclone → Outcome
  hash_file p s = some (true, s)

  unfoldable pub stop_job : Option ℤ → Rclone → Outcome
  unfolding request_rpc job_request fits
  stop_job none s = some (false, s)
  stop_job (some id) s = do
    input ← fits 100 (job_request id)
    (answer, asked) ← request_rpc env (text "job/stop") input s
    some (true, asked)

  unfoldable pub cancel_file : ℕ → Rclone → Outcome
  unfolding stop_job find_job
  cancel_file p s = stop_job (find_job p s.jobs_id) s
