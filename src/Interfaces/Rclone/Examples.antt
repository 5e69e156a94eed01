-- ===== src/Interfaces/Rclone/Examples.antt =====
-- The theorems on rclone at a file of one job.
use snbmodules.Common.{
  ◌+◌, ℕ, true, false, Bool, Option, none, some, refl, ◌≡◌, [], ◌∷◌, Text, text, ℤ, pos, text_eq,
  if◌then◌else◌, arith, ◌==◌,
}
use mathlib.Core.Option.{some_inj}
use snbmodules.Enums.Status.{downloading}
use snbmodules.Interfaces.Samples.{file}
use snbmodules.Interfaces.Rclone.State.{JsonLib, RcloneEnv, Rclone, find_job}
use snbmodules.Interfaces.Rclone.Request.{job_request, rate_request, resume_request, cache_request}
use snbmodules.Interfaces.Rclone.Files.{default_params, start_copy, cancel_file}
use snbmodules.Interfaces.Rclone.Work.{check_jobs, succeeded, read_status}
use snbmodules.Interfaces.Rclone.Polls.{check_jobs-Looked, Looked, Documented}
use snbmodules.Interfaces.Rclone.Jobs.{start_copy-cancel_file}

-- Replies: an answer with these three entries, and values.
data Doc : Type 0 where
  answer : ℤ → Bool → Bool → Doc
  number : ℤ → Doc
  truth : Bool → Doc
  null : Doc

abbrev member : Text → Doc → Option Doc
member k (answer id finished success) = some (
    if text_eq k (text "jobid")
    then number id
    else if text_eq k (text "finished")
    then truth finished
    else if text_eq k (text "success")
    then truth success
    else null)
member k (number n) = none
member k (truth b) = none
member k null = some null

abbrev as_number : Doc → Option ℤ
as_number (number n) = some n
as_number (answer i f s) = none
as_number (truth b) = none
as_number null = none

abbrev as_truth : Doc → Option Bool
as_truth (truth b) = some b
as_truth (answer i f s) = none
as_truth (number n) = none
as_truth null = none

abbrev is_nothing : Doc → Bool
is_nothing null = true
is_nothing (answer i f s) = false
is_nothing (number n) = false
is_nothing (truth b) = false

-- Every reply is that of job 7, which has succeeded.
abbrev docs : JsonLib
docs = record {
  Json = Doc;
  parse = λ t. some (answer (pos 7) true true);
  contains = λ k j. false;
  at = member;
  is_null = is_nothing;
  get_text = λ j. none;
  get_int = as_number;
  get_bool = as_truth;
  get_list = λ j. none;
}

abbrev env : RcloneEnv
env = record {
  json = docs;
  rpc = λ n m i. record { status = 200; output = [] };
  clock = λ n. pos (10 + n);
  relative = λ p base. text "../x";
  cwd = text "/";
}

abbrev begun : Rclone
begun = record {
  params = default_params;
  jobs_id = [];
  heap = file downloading;
  instant = 0;
  requests = [];
}

rate_run : rate_request default_params ≡ text "{\"rate\": \"off\"}"
unfolding rate_request default_params
rate_run = refl

cache_run : cache_request ≡ text "{\"vfs\": {\"CacheMaxSize\": 0}}"
unfolding cache_request
cache_run = refl

-- The word that stands for no limit is no JSON value.
resume_run : resume_request default_params ≡ text "{\"bytesPerSecond\": off}"
unfolding resume_request default_params
resume_run = refl

job_run : job_request (pos 7) ≡ text "{\"jobid\": 7}"
unfolding job_request
job_run = refl

env-Documented : Documented env
unfolding read_status
env-Documented = record {
  parsed = λ n m i. (answer (pos 7) true true, refl);
  answered = λ n i j e. (succeeded, rw (← some_inj.0 e) refl);
}

check_jobs-Looked_example :
    (s' : Rclone) × (check_jobs env ((0, pos 7) ∷ []) begun ≡ some s')
    × Looked env ((0, pos 7) ∷ []) begun s'
unfolding job_request
check_jobs-Looked_example =
    check_jobs-Looked env env-Documented ((0, pos 7) ∷ []) begun (omega arith, tt)

abbrev one_job : Rclone
one_job = record begun { jobs_id = (0, pos 7) ∷ [] }

start_copy-cancel_file_example :
    (s' : Rclone) × (start_copy env 0 (text "{}") begun ≡ some (true, s'))
    × ((q : ℕ) → find_job q s'.jobs_id ≡ (if 0 == q then some (pos 7) else find_job q []))
    × ((s'' : Rclone) × (cancel_file env 0 s' ≡ some (true, s''))
        × (s''.requests
            ≡ (text "job/stop", job_request (pos 7))
              ∷ (text "options/local", [])
              ∷ (text "operations/copyfile", text "{}")
              ∷ [])
        × ((q : ℕ) → s''.heap q ≡ file downloading q))
unfolding job_request
start_copy-cancel_file_example =
    start_copy-cancel_file env (λ n m i. (answer (pos 7) true true, refl)) 0 (text "{}") (pos 7)
      begun (omega arith)
      (record {
        well = refl;
        json = answer (pos 7) true true;
        parsed = refl;
        value = number (pos 7);
        at_jobid = refl;
        number = refl;
      })
      (omega arith)
