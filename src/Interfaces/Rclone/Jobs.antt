-- ===== src/Interfaces/Rclone/Jobs.antt =====
-- Jobs that are started, refused and stopped
-- (include/snbmodules/interfaces/transfer_interface_RClone.hpp).
use snbmodules.Common.{
  ℕ, ◌<◌, ◌≡◌, refl, true, false, none, some, [], ◌∷◌, length, Text, text, text_eq, contains_text,
  ℤ, ◌==◌, ==_refl, lt→ltb, arith, if◌then◌else◌,
}
use snbmodules.Enums.Status.{error}
use snbmodules.Metadata.Transfer.{set_status, set_error_code}
use snbmodules.Group.Metadata.{store}
use snbmodules.Interfaces.Rclone.State.{
  RcloneEnv, Jobs, Rclone, Reply, find_job, set_job, request_rpc, fits, set_status_at, edit,
}
use snbmodules.Interfaces.Rclone.Request.{job_request}
use snbmodules.Interfaces.Rclone.Files.{
  start_copy, job_started, cancel_file, stop_job, download_file, download_http, refuse_path,
}

pub find_job-set_job :
    (p q : ℕ) (id : ℤ) (js : Jobs)
    → find_job q (set_job p id js) ≡ (if p == q then some id else find_job q js)
unfolding find_job set_job
find_job-set_job p q id [] = refl
find_job-set_job p q id ((r, i) ∷ js) = ground (arith, find_job-set_job p q id js)

-- A reply with the status 200 that is JSON and holds the number of a job.
pub record Started (env : RcloneEnv) (r : Reply) (id : ℤ) : Type 0 where
  pub well : r.status ≡ 200
  pub json : env.json.Json
  pub parsed : env.json.parse r.output ≡ some json
  pub value : env.json.Json
  pub at_jobid : env.json.at (text "jobid") json ≡ some value
  pub number : env.json.get_int value ≡ some id

-- The replies of librclone are JSON.
abbrev pub Parsed : RcloneEnv → Type 0
Parsed env =
    (n : ℕ) (m i : Text) → (j : env.json.Json) × (env.json.parse (env.rpc n m i).output ≡ some j)

module _ (env : RcloneEnv) where
  -- A copy whose request fits its buffer and is answered by the number of a job: the interface answers yes,
  -- keeps the number for the file and for no other, and a cancel stops that very job and changes no file.
  pub start_copy-cancel_file :
      (all : Parsed env) (p : ℕ) (request : Text) (id : ℤ) (s : Rclone)
      → length request < 1000
      → Started env (env.rpc (length s.requests) (text "operations/copyfile") request) id
      → length (job_request id) < 100
      → (s' : Rclone) × (start_copy env p request s ≡ some (true, s'))
        × ((q : ℕ) → find_job q s'.jobs_id ≡ (if p == q then some id else find_job q s.jobs_id))
        × ((s'' : Rclone) × (cancel_file env p s' ≡ some (true, s''))
            × (s''.requests
                ≡ (text "job/stop", job_request id)
                  ∷ (text "options/local", [])
                  ∷ (text "operations/copyfile", request)
                  ∷ s.requests)
            × ((q : ℕ) → s''.heap q ≡ s.heap q))
  unfolding start_copy job_started cancel_file stop_job request_rpc fits
  start_copy-cancel_file all p request id s short started small =
      let asked : Rclone = record s {
        requests = (text "operations/copyfile", request) ∷ s.requests;
      } in
      let kept : Rclone = record asked { jobs_id = set_job p id s.jobs_id } in
      let (j, local) = all (length asked.requests) (text "options/local") [] in
      let s' : Rclone = record kept { requests = (text "options/local", []) ∷ kept.requests } in
      let (k, stopped) = all (length s'.requests) (text "job/stop") (job_request id) in
      let s'' : Rclone = record s' { requests = (text "job/stop", job_request id) ∷ s'.requests } in
      (
        s',
        rw (lt→ltb _ _ short, started.parsed, started.well, started.at_jobid, started.number, local)
            refl,
        (λ q. find_job-set_job p q id s.jobs_id),
        (
          s'',
          rw (find_job-set_job p p id s.jobs_id, ==_refl p, lt→ltb _ _ small, stopped) refl,
          refl,
          λ q. refl,
        ),
      )

  -- A file with no job is not cancelled, and nothing is asked.
  pub cancel_file-none :
      (p : ℕ) (s : Rclone) → find_job p s.jobs_id ≡ none → cancel_file env p s ≡ some (false, s)
  unfolding cancel_file stop_job
  cancel_file-none p s h = rw h refl

  -- By HTTP, a file whose path from the root folder holds ".." is refused: no request is made and no job
  -- kept, the file is in ERROR with the reason, and no other file is changed.
  pub download_file-refused :
      (p : ℕ) (dest : Text) (s : Rclone)
      → s.params.protocol ≡ text "http"
      → contains_text (text "..") (env.relative (s.heap p).file_path s.params.root_folder) ≡ true
      → (s' : Rclone) × (download_file env p dest s ≡ some (false, s'))
        × (s'.requests ≡ s.requests)
        × (s'.jobs_id ≡ s.jobs_id)
        × ((s'.heap p).status ≡ error)
        × ((s'.heap p).error_code ≡ text "File path is not relative to root folder !")
        × ((q : ℕ) → (p == q) ≡ false → s'.heap q ≡ s.heap q)
  unfolding download_file download_http refuse_path set_status_at edit set_status set_error_code
      store
  download_file-refused p dest s http above =
      let s' : Rclone =
        edit p (set_error_code (text "File path is not relative to root folder !"))
          (set_status_at env p error s) in
      (
        s',
        rw http (rw above refl),
        refl,
        refl,
        rw (==_refl p) refl,
        rw (==_refl p) refl,
        λ q n. rw n refl,
      )

  -- By a protocol that is neither http nor sftp, a download uses a buffer that was not written.
  pub download_file-unknown :
      (p : ℕ) (dest : Text) (s : Rclone)
      → text_eq s.params.protocol (text "http") ≡ false
      → text_eq s.params.protocol (text "sftp") ≡ false
      → download_file env p dest s ≡ none
  unfolding download_file
  download_file-unknown p dest s h k = rw (h, k) refl
