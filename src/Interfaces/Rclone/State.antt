-- ===== src/Interfaces/Rclone/State.antt =====
-- The members of include/snbmodules/interfaces/transfer_interface_RClone.hpp, requestRPC, and what stands
-- outside: librclone, nlohmann::json, the clock and the file system.
use snbmodules.Common.{
  ℕ, suc, Bool, ◌==◌, ltb, Option, none, some, List, [], ◌∷◌, Text, ℤ, if◌then◌else◌, ◌>>=◌, length,
}
use snbmodules.Enums.Status.{Status}
use snbmodules.Metadata.Transfer.{TransferMetadata, set_status}
use snbmodules.Group.Metadata.{Heap, store}

-- RcloneRPCResult.
pub record Reply : Type 0 where
  pub status : ℕ
  pub output : Text

-- nlohmann::json: `none` is an exception. operator[] gives null for a key that is missing.
pub record JsonLib : Type 1 where
  pub Json : Type 0
  pub parse : Text → Option Json
  pub contains : Text → Json → Bool
  pub at : Text → Json → Option Json
  pub is_null : Json → Bool
  pub get_text : Json → Option Text
  pub get_int : Json → Option ℤ
  pub get_bool : Json → Option Bool
  pub get_list : Json → Option (List Json)

-- `rpc` answers the calls of RcloneRPC by their number; `relative` is std::filesystem::relative, which
-- reads the file system.
pub record RcloneEnv : Type 1 where
  pub json : JsonLib
  pub rpc : ℕ → Text → Text → Reply
  pub clock : ℕ → ℤ
  pub relative : Text → Text → Text
  pub cwd : Text

pub record Params : Type 0 where
  pub protocol : Text
  pub user : Text
  pub port : ℤ
  pub bwlimit : Text
  pub refresh_rate : ℤ
  pub root_folder : Text
  pub simult_transfers : ℤ
  pub transfer_threads : ℤ
  pub checkers_threads : ℤ
  pub chunk_size : Text
  pub buffer_size : Text
  pub use_mmap : Bool
  pub checksum : Bool

-- std::map<TransferMetadata*, int>, in the order of the pointers.
abbrev pub Jobs : Type 0
Jobs = List (ℕ × ℤ)

unfoldable pub find_job : ℕ → Jobs → Option ℤ
find_job p [] = none
find_job p ((q, id) ∷ js) = if q == p then some id else find_job p js

unfoldable pub set_job : ℕ → ℤ → Jobs → Jobs
set_job p id [] = (p, id) ∷ []
set_job p id ((q, i) ∷ js) =
    if q == p
    then (p, id) ∷ js
    else if ltb p q
    then (p, id) ∷ (q, i) ∷ js
    else (q, i) ∷ set_job p id js

-- The members, the files' metadata, how often the clock was read, and the requests, newest first.
pub record Rclone : Type 0 where
  pub params : Params
  pub jobs_id : Jobs
  pub heap : Heap
  pub instant : ℕ
  pub requests : List (Text × Text)

-- `m->f()` for a setter.
unfoldable pub edit : ℕ → (TransferMetadata → TransferMetadata) → Rclone → Rclone
edit p f s = record s { heap = store p (f (s.heap p)) s.heap }

module _ (env : RcloneEnv) where
  unfoldable pub set_status_at : ℕ → Status → Rclone → Rclone
  unfolding edit
  set_status_at p to s =
      edit p (set_status (env.clock s.instant) to) (record s { instant = suc s.instant })

  -- requestRPC; the outer `none` is an exception of the parser.
  unfoldable pub request_rpc : Text → Text → Rclone → Option (Option env.json.Json × Rclone)
  request_rpc method input s =
      let reply = env.rpc (length s.requests) method input in
      let asked : Rclone = record s { requests = (method, input) ∷ s.requests } in
      env.json.parse reply.output >>= λ j.
      some ((if reply.status == 200 then some j else none), asked)

-- sprintf into a buffer of n bytes; `none` is a write behind its end.
unfoldable pub fits : ℕ → Text → Option Text
fits n t = if ltb (length t) n then some t else none
