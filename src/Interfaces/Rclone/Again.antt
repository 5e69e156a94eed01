-- ===== src/Interfaces/Rclone/Again.antt =====
-- A job that has ended is asked for again (include/snbmodules/interfaces/transfer_interface_RClone.hpp).
use snbmodules.Common.{ℕ, zero, suc, ◌<◌, ◌≡◌, true, ◌==◌, some, text, ℤ, ◌+ℤ◌, ◌-ℤ◌, length}
use snbmodules.Interfaces.Rclone.State.{RcloneEnv, Rclone}
use snbmodules.Interfaces.Rclone.Request.{job_request}
use snbmodules.Interfaces.Rclone.Work.{succeeded, read_status}

-- Every reply about the job says that it is finished with success, and no statistics name a transfer.
pub record Over (env : RcloneEnv) (id : ℤ) : Type 0 where
  pub stats : ℕ → env.json.Json
  pub stats_ok : (n : ℕ) → ((env.rpc n (text "core/stats") (text "{}")).status == 200) ≡ true
  pub stats_parsed :
      (n : ℕ) → env.json.parse (env.rpc n (text "core/stats") (text "{}")).output ≡ some (stats n)
  pub nothing : env.json.Json
  pub no_transfers : (n : ℕ) → env.json.at (text "transferring") (stats n) ≡ some nothing
  pub nothing_null : env.json.is_null nothing ≡ true
  pub answer : ℕ → env.json.Json
  pub ok : (n : ℕ) → ((env.rpc n (text "job/status") (job_request id)).status == 200) ≡ true
  pub parsed :
      (n : ℕ)
      → env.json.parse (env.rpc n (text "job/status") (job_request id)).output ≡ some (answer n)
  pub over : (n : ℕ) → read_status env (answer n) ≡ some succeeded
  pub printable : length (job_request id) < 100

-- Each round adds the whole time since the start.
abbrev pub add_rounds : (ℕ → ℤ) → ℕ → ℤ → ℤ → ℕ → ℤ
add_rounds clock instant start d zero = d
add_rounds clock instant start d (suc k) =
    add_rounds clock (suc instant) start (d +ℤ (clock instant -ℤ start)) k
