-- ===== src/Interfaces/Scp/Files.antt =====
-- The constructor and the operations of include/snbmodules/interfaces/transfer_interface_SCP.hpp. The
-- clock and the shell are parameters: `system` says of each command, by its number, whether it ended
-- with 0.
use snbmodules.Common.{
  ℕ, suc, Bool, true, false, Option, none, some, List, [], ◌∷◌, ◌++◌, Text, text, ℤ, if◌then◌else◌,
  Map, lookup, length,
}
use snbmodules.Common
use snbmodules.Enums.Status.{
  uploading, downloading, finished, error, paused, hashing, cancelled, Status,
}
use snbmodules.Metadata.Transfer.{
  TransferMetadata, set_status, set_bytes_transferred, set_error_code, get_file_name,
}
use snbmodules.Session.World.{TransferInterface}

pub record ScpEnv : Type 0 where
  pub clock : ℕ → ℤ
  pub system : ℕ → Text → Bool

-- The members of the interface, the number of times that the clock was read, and the commands that were
-- run, newest first.
pub record Scp : Type 0 where
  pub user : Text
  pub use_password : Bool
  pub is_uploader : Bool
  pub files_being_transferred : Map Text
  pub instant : ℕ
  pub commands : List Text

-- The keys that the constructor reads; `none` is a missing key.
pub record ScpOptions : Type 0 where
  pub user : Option Text
  pub use_password : Option Bool

-- `none`: the user is missing, and the interface is left without its side.
unfoldable pub make_scp : ScpOptions → Bool → Option Scp
make_scp o is_uploader = elim o.user [
  | none ↦ none
  | some user ↦ some (record {
    user = user;
    use_password = elim o.use_password [ none ↦ false | some b ↦ b ];
    is_uploader = is_uploader;
    files_being_transferred = [];
    instant = 0;
    commands = [];
  })
]

-- `m[k]` of std::map, which is the empty path where there is none.
unfoldable pub at_or_empty : Text → Map Text → Text
at_or_empty k m = elim (lookup k m) [ none ↦ [] | some p ↦ p ]

unfoldable pub scp_command : Scp → Text → TransferMetadata → Text
scp_command s dest m =
    (if s.use_password then text "scp " else text "scp -o PasswordAuthentication='no' ")
    ++ (s.user ++ (text "@" ++ (m.src.ip ++ (text ":" ++ (m.file_path ++ (text " " ++ dest))))))

module _ (env : ScpEnv) where
  -- set_status, which reads the clock.
  unfoldable pub mark_status : Status → TransferMetadata → Scp → TransferMetadata × Scp
  mark_status to m s = (set_status (env.clock s.instant) to m, record s { instant = suc s.instant })

  unfoldable pub upload_file : TransferMetadata → Scp → Bool × TransferMetadata × Scp
  unfolding mark_status
  upload_file m s =
      let (m1, s1) = mark_status uploading m s in
      let (m2, s2) = mark_status finished m1 s1 in (true, set_bytes_transferred m2.size m2, s2)

  -- Behind the command.
  unfoldable pub copied : Bool → TransferMetadata → Scp → Bool × TransferMetadata × Scp
  unfolding mark_status
  copied true m s =
      let (m1, s1) = mark_status finished m s in (true, set_bytes_transferred m1.size m1, s1)
  copied false m s =
      let (m1, s1) = mark_status error m s in
      let failed = set_error_code (text "Something went wrong during the download") m1 in
      (false, set_bytes_transferred 0 failed, s1)

  unfoldable pub run_command : Text → Scp → Bool × Scp
  run_command c s = (env.system (length s.commands) c, record s { commands = c ∷ s.commands })

  unfoldable pub download_file : Text → TransferMetadata → Scp → Bool × TransferMetadata × Scp
  unfolding mark_status run_command scp_command copied
  download_file dest m s =
      let (m1, s1) = mark_status downloading m s in
      let s2 : Scp = record s1 {
        files_being_transferred = Common.insert (get_file_name m1) dest s1.files_being_transferred;
      } in
      let (r, s3) = run_command (scp_command s2 dest m1) s2 in copied r m1 s3

  unfoldable pub pause_file : TransferMetadata → Scp → Bool × TransferMetadata × Scp
  unfolding mark_status
  pause_file m s = let (m1, s1) = mark_status paused m s in (true, set_bytes_transferred 0 m1, s1)

  -- operator[] adds the empty path for a file that was not started.
  unfoldable pub resume_file : TransferMetadata → Scp → Bool × TransferMetadata × Scp
  unfolding upload_file download_file at_or_empty
  resume_file m s =
      if s.is_uploader
      then upload_file m s
      else download_file (at_or_empty (get_file_name m) s.files_being_transferred) m s

  unfoldable pub hash_file : TransferMetadata → Scp → Bool × TransferMetadata × Scp
  unfolding mark_status
  hash_file m s = let (m1, s1) = mark_status hashing m s in (true, m1, s1)

  unfoldable pub cancel_file : TransferMetadata → Scp → Bool × TransferMetadata × Scp
  unfolding mark_status
  cancel_file m s = let (m1, s1) = mark_status cancelled m s in (true, m1, s1)

  abbrev pub scp_interface : TransferInterface
  scp_interface = record {
    State = Scp;
    upload_file = upload_file;
    download_file = download_file;
    pause_file = pause_file;
    resume_file = resume_file;
    hash_file = hash_file;
    cancel_file = cancel_file;
  }
