-- ===== src/Session/Files.antt =====
-- The operations of a session on one file (src/client/transfer_session.cpp).
use snbmodules.Common.{
  Bool, true, false, not, ◌&&◌, ◌||◌, ℕ, Option, none, some, ◌++◌, [], ◌∷◌, Text, text,
  if◌then◌else◌,
}
use snbmodules.Enums.Status.{
  Status, status_to_string, status_eq, downloading, uploading, paused, waiting, finished, cancelled,
  hashing, error,
}
use snbmodules.Enums.NotificationType.{
  NotificationType, pause_transfer, resume_transfer, cancel_transfer, start_transfer,
}
use snbmodules.Metadata.Transfer.{TransferMetadata, get_file_name}
use snbmodules.Group.Metadata.{store}
use snbmodules.Session.World.{
  Env, SessionType, downloader, uploader, Session, Issue, wrong_state_transition, incorrect_action,
  World, Result, set_status_at, update_metadata_to_bookkeeper, send_notification_to_targets,
}

-- A call of the transfer interface on a file.
abbrev pub Action : Env → Type 0
Action env = TransferMetadata → env.interface.State → Bool × TransferMetadata × env.interface.State

-- The status of a running transfer.
unfoldable pub running : SessionType → Status
running downloader = downloading
running uploader = uploading

unfoldable pub session_eq : SessionType → SessionType → Bool
session_eq downloader downloader = true
session_eq uploader uploader = true
session_eq downloader uploader = false
session_eq uploader downloader = false

module _ {env : Env} where
  abbrev pub warn : Issue → World env → World env
  warn i w = record w { issues = w.issues ++ i ∷ [] }

  -- The warning of a wrong state, and the answer.
  abbrev pub refuse : ℕ → Text → World env → Result env
  refuse p to w =
      let from = status_to_string (w.heap p).status in
      (false, warn (wrong_state_transition (get_file_name (w.heap p)) from to) w)

  unfoldable pub call : Action env → ℕ → World env → Result env
  call act p w =
      let (r, m, state) = act (w.heap p) w.interface in
      (r, record w { heap = store p m w.heap; interface = state })

  -- `if (!res) set_status(ERROR)`.
  unfoldable pub fail_status : ℕ → Result env → Result env
  unfolding set_status_at
  fail_status p (true, w) = (true, w)
  fail_status p (false, w) = (false, set_status_at p error w)

  abbrev pub tell : Session → Option NotificationType → ℕ → World env → World env
  tell s none p w = w
  tell s (some t) p w = (send_notification_to_targets s t (w.heap p).file_path w).1

  -- `if (!is_multiple)`: the targets and the bookkeepers are told.
  unfoldable pub announce : Session → Option NotificationType → Bool → ℕ → Result env → Result env
  announce s t true p (r, w) = (r, w)
  announce s t false p (r, w) = (r, (update_metadata_to_bookkeeper s p (tell s t p w)).1)

  -- What the operations do behind their guards.
  unfoldable pub change :
      Session → Action env → Status → Option NotificationType → Bool → ℕ → World env → Result env
  unfolding call fail_status announce set_status_at
  change s act to t is_multiple p w =
      announce s t is_multiple p (fail_status p (call act p (set_status_at p to w)))

  unfoldable pub pause_file : Session → Bool → ℕ → World env → Result env
  unfolding change
  pause_file s is_multiple p w =
      let now = (w.heap p).status in
      if not (status_eq now downloading) && not (status_eq now uploading)
      then refuse p (text "PAUSED") w
      else change s env.interface.pause_file paused (some pause_transfer) is_multiple p w

  unfoldable pub resume_file : Session → Bool → ℕ → World env → Result env
  unfolding change
  resume_file s is_multiple p w =
      if not (status_eq (w.heap p).status paused)
      then refuse p (text "RESUMING") w
      else change s env.interface.resume_file (running s.session_type) (some resume_transfer)
          is_multiple p w

  unfoldable pub hash_file : Session → Bool → ℕ → World env → Result env
  unfolding change
  hash_file s is_multiple p w =
      if not (status_eq (w.heap p).status finished)
      then refuse p (text "HASHING") w
      else change s env.interface.hash_file hashing none is_multiple p w

  unfoldable pub cancel_file : Session → Bool → ℕ → World env → Result env
  unfolding change
  cancel_file s is_multiple p w =
      if (status_eq (w.heap p).status finished) || (status_eq (w.heap p).status cancelled)
      then refuse p (text "CANCELLED") w
      else change s env.interface.cancel_file cancelled (some cancel_transfer) is_multiple p w

  -- A session of the other kind is warned about, and goes on.
  unfoldable pub only_for : SessionType → Text → Session → World env → World env
  only_for t name s w = if session_eq s.session_type t then w else warn (incorrect_action name) w

  unfoldable pub upload_checked : Session → Bool → ℕ → World env → Result env
  unfolding change
  upload_checked s is_multiple p w =
      if not (status_eq (w.heap p).status waiting)
      then refuse p (text "UPLOADING") w
      else change s env.interface.upload_file uploading (some start_transfer) is_multiple p w

  unfoldable pub upload_file : Session → Bool → ℕ → World env → Result env
  unfolding upload_checked only_for
  upload_file s is_multiple p w =
      upload_checked s is_multiple p (only_for uploader (text "upload_file") s w)

  unfoldable pub download_checked : Session → Text → Bool → ℕ → World env → Result env
  unfolding change
  download_checked s dest is_multiple p w =
      if not (status_eq (w.heap p).status waiting)
      then refuse p (text "DOWNLOADING") w
      else change s (env.interface.download_file dest) downloading none is_multiple p w

  unfoldable pub download_file : Session → Text → Bool → ℕ → World env → Result env
  unfolding download_checked only_for
  download_file s dest is_multiple p w =
      download_checked s dest is_multiple p (only_for downloader (text "download_file") s w)

  unfoldable pub start_as : SessionType → Session → ℕ → World env → Result env
  start_as downloader s p w = download_file s s.work_dir false p w
  start_as uploader s p w = upload_file s false p w

  unfoldable pub start_file : Session → ℕ → World env → Result env
  unfolding start_as
  start_file s = start_as s.session_type s
